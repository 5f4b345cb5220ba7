-- ===== src/Snapshot/Threshold.antt =====
-- src/snapshot/repository.rs over src/snapshot/in_memory.rs: when `maybe_snapshot` takes a snapshot.
use sourced_rust.Prelude.{
  ℕ, ◌+◌, ◌^◌, ◌<◌, ◌≡◌, ◌≢◌, ◌⊎◌, inl, inr, refl, ap, ◌∙◌, String, true, false, none, some, leb,
  wrap_u64, if_true, if_false, Bool-cases, Outcome, ok, err, panic, hang, arith,
}
use sourced_rust.Prelude.HashMap
use sourced_rust.Entity.{Entity, set_snapshot_version}
use sourced_rust.Repository.{RepositoryError}
use sourced_rust.SnapshotStore.{InMemorySnapshotStore, get_snapshot, save_snapshot, delete_snapshot}
use sourced_rust.Aggregate.{IsField, update_entity}
use sourced_rust.Snapshot.{Snapshottable, SnapshotOps, snapshot_of, maybe_snapshot}

-- `impl SnapshotStore for InMemorySnapshotStore`
unfoldable pub memory_snapshots : SnapshotOps InMemorySnapshotStore
unfolding get_snapshot save_snapshot delete_snapshot
memory_snapshots = record {
  get_snapshot = λ s id. (get_snapshot s id, s);
  save_snapshot = λ s r. save_snapshot s r;
  delete_snapshot = λ s id. delete_snapshot s id;
}

-- The version of the stored snapshot, 0 where there is none.
unfoldable pub stored_version : InMemorySnapshotStore → String → ℕ
stored_version s id = elim (HashMap.get id s.storage.value) [ none ↦ 0 | some r ↦ r.version ]

module _ {A Snap : Type 0} (sn : Snapshottable A Snap) where
  -- The entity knows the version of the stored snapshot.
  pub record InStep (s : InMemorySnapshotStore) (a : A) : Type 0 where
    pub open_store : s.storage.poisoned ≡ false
    pub known :
        stored_version s (sn.aggregate.entity a).id ≡ (sn.aggregate.entity a).snapshot_version

  -- What `maybe_snapshot` did: the snapshot of the aggregate under its identifier or nothing, and
  -- nothing under another identifier.
  pub record Took (s s' : InMemorySnapshotStore) (a : A) : Type 0 where
    pub here :
        (s' ≡ s)
        ⊎ (HashMap.get (sn.aggregate.entity a).id s'.storage.value ≡ some (snapshot_of sn a))
    pub elsewhere :
        (j : String)
        → (sn.aggregate.entity a).id ≢ j
        → HashMap.get j s'.storage.value ≡ HashMap.get j s.storage.value

  module _ (field : IsField sn.aggregate) (frequency : ℕ) (s : InMemorySnapshotStore) (a : A) where
    abbrev e : Entity
    e = sn.aggregate.entity a

    abbrev noted : A
    noted = update_entity sn.aggregate (λ x. set_snapshot_version x e.version) a

    abbrev stored : InMemorySnapshotStore
    stored = record {
      storage = record {
        value = HashMap.insert e.id (snapshot_of sn a) s.storage.value;
        poisoned = s.storage.poisoned;
      };
    }

    noted-entity : sn.aggregate.entity noted ≡ set_snapshot_version e e.version
    noted-entity = field.entity-set_entity a _

    save_snapshot-stored :
        s.storage.poisoned ≡ false → save_snapshot s (snapshot_of sn a) ≡ (ok tt, stored)
    unfolding save_snapshot snapshot_of
    save_snapshot-stored o = if_false s.storage.poisoned _ _ o

    -- What `maybe_snapshot` does with the answer of the store.
    abbrev after_save :
        Outcome RepositoryError (Unit {0}) × InMemorySnapshotStore
        → Outcome RepositoryError (Unit {0}) × InMemorySnapshotStore × A
    after_save (r, s') = elim r [
      | ok _ ↦ (ok tt, s', noted)
      | err x ↦ (err x, s', a)
      | panic ↦ (panic, s', a)
      | hang ↦ (hang, s', a)
    ]

    pub maybe_snapshot-takes :
        s.storage.poisoned ≡ false
        → leb (wrap_u64 (e.snapshot_version + frequency)) e.version ≡ true
        → maybe_snapshot memory_snapshots sn frequency s a ≡ (ok tt, stored, noted)
    unfolding maybe_snapshot memory_snapshots
    maybe_snapshot-takes o t = if_true _ _ _ t ∙ ap after_save (save_snapshot-stored o)

    pub maybe_snapshot-passes :
        leb (wrap_u64 (e.snapshot_version + frequency)) e.version ≡ false
        → maybe_snapshot memory_snapshots sn frequency s a ≡ (ok tt, s, a)
    unfolding maybe_snapshot
    maybe_snapshot-passes t = if_false _ _ _ t

    stored-Took : Took s stored a
    stored-Took = record {
      here = inr (HashMap.get-insert_self e.id (snapshot_of sn a) s.storage.value);
      elsewhere = λ j n. HashMap.get-insert_ne e.id j (snapshot_of sn a) s.storage.value n;
    }

    stored-InStep : s.storage.poisoned ≡ false → InStep stored noted
    unfolding stored_version snapshot_of set_snapshot_version
    stored-InStep o = record {
      open_store = o;
      known =
          rw
            (
              noted-entity,
              HashMap.get-insert_self e.id (snapshot_of sn a) s.storage.value,
              stored_version,
            )
            refl;
    }

  -- With a positive frequency, on an open store that the aggregate is in step with, and where
  -- `snapshot_version + frequency` does not overflow: `maybe_snapshot` succeeds and the two are in
  -- step again; afterwards the aggregate is less than `frequency` versions ahead of its snapshot; it
  -- stored nothing, or the snapshot of the aggregate under its identifier, and no other.
  pub maybe_snapshot-InStep :
      (field : IsField sn.aggregate) (frequency : ℕ) (s : InMemorySnapshotStore) (a : A)
      → InStep s a
      → 0 < frequency
      → (sn.aggregate.entity a).snapshot_version + frequency < 2 ^ 64
      → let (r, s', a') = maybe_snapshot memory_snapshots sn frequency s a in
        (r ≡ ok tt)
        × InStep s' a'
        × Took s s' a
        × ((sn.aggregate.entity a').version < (sn.aggregate.entity a').snapshot_version + frequency)
  unfolding set_snapshot_version
  maybe_snapshot-InStep field frequency s a h f o =
      let e = sn.aggregate.entity a in
      elim (Bool-cases (leb (wrap_u64 (e.snapshot_version + frequency)) e.version)) [
        | inl t ↦ rw (maybe_snapshot-takes field frequency s a h.open_store t) (
          refl,
          stored-InStep field frequency s a h.open_store,
          stored-Took field frequency s a,
          rw (noted-entity field frequency s a) (omega arith),
        )
        | inr t ↦
            rw (maybe_snapshot-passes field frequency s a t)
              (refl, h, record { here = inl refl; elsewhere = λ j n. refl }, ground (arith, t, o))
      ]
