-- ===== src/Tests/Snapshots.antt =====
-- Inputs for src/aggregate/ and src/snapshot/: an aggregate that adds up sequence numbers.
use sourced_rust.Prelude.{
  ℕ, String, ◌≢◌, ◌+◌, ◌<◌, ◌≡◌, refl, Bool, true, [], ◌∷◌, ok, arith, unlocked, leb, ◌>>=◌,
}
use sourced_rust.Prelude.HashMap
use sourced_rust.Entity.{
  set_id, set_snapshot_version, mark_committed, Entity, EventRecord, new, with_id, new_record,
  set_replaying,
}
use sourced_rust.HashMapRepo.{HashMapRepository, new_repository}
use sourced_rust.SnapshotStore.{SnapshotRecord, new_snapshot_store}
use sourced_rust.Aggregate.{Aggregate, hydrate, replay_all, current_events}
use sourced_rust.Snapshot.{Snapshottable, hydrate_from_snapshot, maybe_snapshot}
use sourced_rust.Snapshot.Hydration.{at_version, IsSnapshottable, hydrate_from_snapshot-hydrate}
use sourced_rust.Snapshot.Threshold.{
  memory_snapshots, InStep, Took, stored_version, maybe_snapshot-InStep,
}
use sourced_rust.Snapshot.OutboxCommit.{
  commit_snapshotted_with_outbox, hashmap_snapshots, commit_snapshotted_with_outbox-Stored,
}
use sourced_rust.Outbox.{OutboxMessage, default_message}
use sourced_rust.HashMapRepo.Committing.{Holds}
use sourced_rust.HashMapRepo.Traits.{hashmap_repository}
use sourced_rust.Tests.Codecs.{outbox_codecs, outbox_codecs-AreLossless}
use sourced_rust.Tests.Entities.{todo}

pub record Total : Type 0 where
  pub entity : Entity
  pub total : ℕ

abbrev pub totals : Aggregate Total
totals = record {
  new_empty = λ now. record { entity = new now; total = 0 };
  entity = λ a. a.entity;
  set_entity = λ a e. record a { entity = e };
  replay_event = λ now r a. ok (record a { total = a.total + r.sequence });
  upcasters = [];
}

-- A snapshot carries the identifier, and a restore sets it, as the derived ones do.
abbrev snapshots : Snapshottable Total (String × ℕ)
snapshots = record {
  aggregate = totals;
  codec = outbox_codecs.claimed;
  create_snapshot = λ a. (a.entity.id, a.total);
  restore_from_snapshot = λ a (id, n). record a { entity = set_id a.entity id; total = n };
}

totals-IsSnapshottable : IsSnapshottable snapshots
totals-IsSnapshottable = record {
  field = record {
    entity-set_entity = λ a e. refl;
    set_entity-set_entity = λ a e e'. refl;
    set_entity-entity = λ a. refl;
  };
  blind = λ v now r a. refl;
  lossless = outbox_codecs-AreLossless.claimed;
}

abbrev first : EventRecord
first = new_record "Added" [] 1 6

abbrev second : EventRecord
second = new_record "Added" [] 2 7

abbrev loaded : Entity
loaded = record todo { events = first ∷ second ∷ []; version = 2; committed_version = 2 }

abbrev snapshot : SnapshotRecord
snapshot = record {
  aggregate_id = "todo-1";
  version = 1;
  bytes = outbox_codecs.claimed.serialize ("todo-1", 1);
}

hydrate_from_snapshot-hydrate_example :
    hydrate_from_snapshot snapshots 0 9 loaded snapshot
    ≡ (hydrate totals 0 9 loaded >>= λ a. ok (at_version snapshots 1 a))
unfolding set_id set_snapshot_version with_id new new_record replay_all current_events set_replaying
hydrate_from_snapshot-hydrate_example =
    hydrate_from_snapshot-hydrate snapshots totals-IsSnapshottable 0 9 loaded (first ∷ [])
      (second ∷ []) snapshot (record { entity = set_replaying loaded true; total = 1 })
      (record {
        history = refl;
        numbered = (refl, (refl, tt));
        version = refl;
        current = first ∷ [];
        upcast = refl;
        replayed = refl;
        entity = refl;
        bytes = refl;
        restores = refl;
      })

abbrev pub summed : Total
summed = record { entity = loaded; total = 3 }

maybe_snapshot-InStep_example :
    let (r, s', a') = maybe_snapshot memory_snapshots snapshots 2 new_snapshot_store summed in
    (r ≡ ok tt)
    × InStep snapshots s' a'
    × Took snapshots new_snapshot_store s' summed
    × (a'.entity.version < a'.entity.snapshot_version + 2)
unfolding new_snapshot_store stored_version HashMap.get new with_id
maybe_snapshot-InStep_example =
    maybe_snapshot-InStep snapshots totals-IsSnapshottable.field 2 new_snapshot_store summed
      (record { open_store = refl; known = refl }) (omega arith) (omega arith)

abbrev is_big : Total → Bool
is_big a = leb 2 a.total

abbrev stocked : HashMapRepository
stocked = record new_repository { event_store = unlocked (("todo-1", first ∷ second ∷ []) ∷ []) }

-- The aggregate with one more event, and a message that was never stored.
abbrev extended : Total
extended = record {
  entity = record loaded { events = first ∷ second ∷ new_record "Added" [] 3 8 ∷ []; version = 3 };
  total = 6;
}

abbrev announcement : OutboxMessage
announcement = record (default_message 8) {
  entity = record (with_id "outbox:1" 8) {
    events = new_record "MessageCreated" [] 1 8 ∷ [];
    version = 1;
  };
}

commit_snapshotted_with_outbox-Stored_example :
    let (r, repo', a', m') =
      commit_snapshotted_with_outbox hashmap_repository hashmap_snapshots snapshots 2 stocked
        extended announcement in
    (r ≡ ok tt)
    × Holds repo'.event_store.value extended.entity
    × Holds repo'.event_store.value announcement.entity
    × ((id : String)
        → "todo-1" ≢ id
        → "outbox:1" ≢ id
        → HashMap.get id repo'.event_store.value ≡ HashMap.get id stocked.event_store.value)
    × (m' ≡ record announcement { entity = mark_committed announcement.entity })
    × (a'.entity.committed_version ≡ 3)
    × InStep snapshots repo'.snapshot_store a'
    × (a'.entity.version < a'.entity.snapshot_version + 2)
unfolding new_repository new_snapshot_store stored_version HashMap.get new with_id default_message
commit_snapshotted_with_outbox-Stored_example =
    commit_snapshotted_with_outbox-Stored snapshots totals-IsSnapshottable.field 2 stocked extended
      announcement (omega arith)
      (record {
        open_store = refl;
        entity_tracks = record { stored = refl; within = omega arith; counted = refl };
        message_tracks = record { stored = refl; within = omega arith; counted = refl };
        apart = λ p. cc p;
        in_step = record { open_store = refl; known = refl };
        bounded = omega arith;
      })
