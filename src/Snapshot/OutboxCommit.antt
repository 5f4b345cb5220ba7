-- ===== src/Snapshot/OutboxCommit.antt =====
-- `SnapshotOutboxCommit` of src/snapshot/repository.rs: an aggregate and an outbox message are committed
-- together, and then a snapshot is taken where one is due; over a `HashMapRepository`.
use sourced_rust.Prelude.{
  ℕ, ◌+◌, ◌^◌, ◌<◌, ◌≡◌, ◌≢◌, refl, ap, ◌∙◌, String, false, List, [], ◌∷◌, leb, wrap_u64,
  Bool-cases, inl, inr, Outcome, ok, err, panic, hang, arith,
}
use sourced_rust.Prelude.HashMap
use sourced_rust.Entity.{Entity, mark_committed, set_snapshot_version}
use sourced_rust.Repository.{RepositoryError, Repository}
use sourced_rust.SnapshotStore.{save_snapshot}
use sourced_rust.HashMapRepo.{HashMapRepository}
use sourced_rust.HashMapRepo.Committing.{Tracks, Holds, with_storage, publish, commit-Committed}
use sourced_rust.HashMapRepo.Traits.{
  hashmap_repository, repository_get_snapshot, repository_save_snapshot, repository_delete_snapshot,
}
use sourced_rust.Aggregate.{IsField}
use sourced_rust.Outbox.{OutboxMessage}
use sourced_rust.Snapshot.{Snapshottable, SnapshotOps, maybe_snapshot}
use sourced_rust.Snapshot.Threshold.{
  memory_snapshots, InStep, maybe_snapshot-takes, maybe_snapshot-passes, maybe_snapshot-InStep,
}

-- The commit takes the two entities through mutable references: what it made of them is in the
-- aggregate and in the message on every way out.
unfoldable pub commit_snapshotted_with_outbox :
    {S A Snap : Type 0}
    → Repository S
    → SnapshotOps S
    → Snapshottable A Snap
    → ℕ
    → S
    → A
    → OutboxMessage
    → Outcome RepositoryError (Unit {0}) × S × A × OutboxMessage
unfolding maybe_snapshot
commit_snapshotted_with_outbox {A = A} repo store sn frequency s a m =
    let (r, s₁, es) = repo.commit s (sn.aggregate.entity a ∷ m.entity ∷ []) in
    let (a₁, m₁) : A × OutboxMessage = elim es [
      | e ∷ o ∷ rest ↦ (sn.aggregate.set_entity a e, record m { entity = o })
      | _ ↦ (a, m)
    ] in
    elim r [
      | ok _ ↦ let (q, s₂, a₂) = maybe_snapshot store sn frequency s₁ a₁ in (q, s₂, a₂, m₁)
      | err e ↦ (err e, s₁, a₁, m₁)
      | panic ↦ (panic, s₁, a₁, m₁)
      | hang ↦ (hang, s₁, a₁, m₁)
    ]

-- `impl SnapshotStore for HashMapRepository`
unfoldable pub hashmap_snapshots : SnapshotOps HashMapRepository
unfolding repository_get_snapshot repository_save_snapshot repository_delete_snapshot
hashmap_snapshots = record {
  get_snapshot = repository_get_snapshot;
  save_snapshot = repository_save_snapshot;
  delete_snapshot = repository_delete_snapshot;
}

-- The snapshots of the repository are those of the store that it holds.
maybe_snapshot-held :
    {A Snap : Type 0} (sn : Snapshottable A Snap) (frequency : ℕ) (repo : HashMapRepository) (a : A)
    → let (r, s, a') = maybe_snapshot memory_snapshots sn frequency repo.snapshot_store a in
      maybe_snapshot hashmap_snapshots sn frequency repo a
      ≡ (r, record repo { snapshot_store = s }, a')
unfolding maybe_snapshot hashmap_snapshots repository_save_snapshot memory_snapshots
maybe_snapshot-held sn frequency repo a = ground (arith, save_snapshot)

-- Before the commit: the store is open, the entity and the message track it under different
-- identifiers, and the aggregate is in step with its snapshot.
pub record Ready {A Snap : Type 0} (sn : Snapshottable A Snap) (frequency : ℕ)
    (repo : HashMapRepository) (a : A) (m : OutboxMessage) : Type 0 where
  pub open_store : repo.event_store.poisoned ≡ false
  pub entity_tracks : Tracks repo.event_store.value (sn.aggregate.entity a)
  pub message_tracks : Tracks repo.event_store.value m.entity
  pub apart : (sn.aggregate.entity a).id ≢ m.entity.id
  pub in_step : InStep sn repo.snapshot_store a
  pub bounded : (sn.aggregate.entity a).snapshot_version + frequency < 2 ^ 64

module _ {A Snap : Type 0} (sn : Snapshottable A Snap) (field : IsField sn.aggregate)
    (frequency : ℕ) (repo : HashMapRepository) (a : A) (m : OutboxMessage) where
  abbrev e : Entity
  e = sn.aggregate.entity a

  abbrev batch : List Entity
  batch = e ∷ m.entity ∷ []

  abbrev published : HashMapRepository
  published = with_storage repo (publish repo.event_store.value batch)

  abbrev marked : A
  marked = sn.aggregate.set_entity a (mark_committed e)

  marked-entity : sn.aggregate.entity marked ≡ mark_committed e
  marked-entity = field.entity-set_entity a (mark_committed e)

  marked-InStep : InStep sn repo.snapshot_store a → InStep sn repo.snapshot_store marked
  unfolding mark_committed
  marked-InStep h = record { open_store = h.open_store; known = rw marked-entity h.known }

  marked-kept :
      repo.snapshot_store.storage.poisoned ≡ false
      → let (_, _, a') = maybe_snapshot memory_snapshots sn frequency repo.snapshot_store a in
        (sn.aggregate.entity a').committed_version ≡ e.committed_version
  unfolding set_snapshot_version
  marked-kept o = elim (Bool-cases (leb (wrap_u64 (e.snapshot_version + frequency)) e.version)) [
    | inl t ↦
        rw (maybe_snapshot-takes sn field frequency repo.snapshot_store a o t)
          (rw (field.entity-set_entity a (set_snapshot_version e e.version)) refl)
    | inr t ↦ rw (maybe_snapshot-passes sn field frequency repo.snapshot_store a t) refl
  ]

  -- What the call does with the answer of the repository.
  abbrev after_commit :
      Outcome RepositoryError (Unit {0}) × HashMapRepository × List Entity
      → Outcome RepositoryError (Unit {0}) × HashMapRepository × A × OutboxMessage
  after_commit (r, s₁, es) =
      let (a₁, m₁) : A × OutboxMessage = elim es [
        | e ∷ o ∷ rest ↦ (sn.aggregate.set_entity a e, record m { entity = o })
        | _ ↦ (a, m)
      ] in
      elim r [
        | ok _ ↦
            let (q, s₂, a₂) = maybe_snapshot hashmap_snapshots sn frequency s₁ a₁ in (q, s₂, a₂, m₁)
        | err e ↦ (err e, s₁, a₁, m₁)
        | panic ↦ (panic, s₁, a₁, m₁)
        | hang ↦ (hang, s₁, a₁, m₁)
      ]

  committed :
      Ready sn frequency repo a m
      → let (q, s, a₂) = maybe_snapshot memory_snapshots sn frequency repo.snapshot_store marked in
        commit_snapshotted_with_outbox hashmap_repository hashmap_snapshots sn frequency repo a m
        ≡ (
          q,
          record published { snapshot_store = s },
          a₂,
          record m { entity = mark_committed m.entity },
        )
  unfolding commit_snapshotted_with_outbox hashmap_repository
  committed h =
      ap after_commit
        (commit-Committed repo batch h.open_store (h.entity_tracks, (h.message_tracks, tt))
          ((h.apart, tt), (tt, tt))).result
      ∙ ap (λ x. (x.0, x.1, x.2, record m { entity = mark_committed m.entity }))
          (maybe_snapshot-held sn frequency published marked)

-- From a `Ready` state the commit succeeds: the store holds all events of the aggregate and all of the
-- message, and under other identifiers what it held; both entities are marked committed; and the
-- aggregate is in step with its stored snapshot, less than `frequency` versions behind it.
pub commit_snapshotted_with_outbox-Stored :
    {A Snap : Type 0} (sn : Snapshottable A Snap) (field : IsField sn.aggregate) (frequency : ℕ)
    (repo : HashMapRepository) (a : A) (m : OutboxMessage)
    → 0 < frequency
    → Ready sn frequency repo a m
    → let e = sn.aggregate.entity a in
      let (r, repo', a', m') =
        commit_snapshotted_with_outbox hashmap_repository hashmap_snapshots sn frequency repo a m in
      (r ≡ ok tt)
      × Holds repo'.event_store.value e
      × Holds repo'.event_store.value m.entity
      × ((id : String)
          → e.id ≢ id
          → m.entity.id ≢ id
          → HashMap.get id repo'.event_store.value ≡ HashMap.get id repo.event_store.value)
      × (m' ≡ record m { entity = mark_committed m.entity })
      × ((sn.aggregate.entity a').committed_version ≡ e.version)
      × InStep sn repo'.snapshot_store a'
      × ((sn.aggregate.entity a').version < (sn.aggregate.entity a').snapshot_version + frequency)
unfolding commit_snapshotted_with_outbox hashmap_repository mark_committed
commit_snapshotted_with_outbox-Stored sn field frequency repo a m f h =
    let done =
      commit-Committed repo (batch sn field frequency repo a m) h.open_store
        (h.entity_tracks, (h.message_tracks, tt)) ((h.apart, tt), (tt, tt)) in
    let a₁ = marked sn field frequency repo a m in
    let e₁ = marked-entity sn field frequency repo a m in
    let due =
      maybe_snapshot-InStep sn field frequency repo.snapshot_store a₁
        (marked-InStep sn field frequency repo a m h.in_step) f (rw e₁ h.bounded) in
    rw (committed sn field frequency repo a m h) (
      due.0,
      done.held.0,
      done.held.1.0,
      λ id n₁ n₂. done.others id (n₁, (n₂, tt)),
      refl,
      marked-kept sn field frequency repo a₁ m h.in_step.open_store
          ∙ ap (λ x. x.committed_version) e₁,
      due.1,
      due.3,
    )
