-- ===== src/Snapshot.antt =====
-- src/snapshot/snapshottable.rs and src/snapshot/repository.rs: hydration from a snapshot, and the
-- repository that takes snapshots as it commits.
pub mod Searches
pub mod Hydration
pub mod Threshold
pub mod OutboxCommit
use sourced_rust.Prelude.{
  ℕ, ◌+◌, String, Bool, true, false, Option, none, some, List, [], ◌∷◌, filter, ltb, leb, wrap_u64,
  is_some, length, map, if◌then◌else◌, Outcome, ok, err, panic, hang, map_err, ◌>>=◌,
}
use sourced_rust.Bitcode.{Codec}
use sourced_rust.Entity.{EventRecord, Entity, set_snapshot_version}
use sourced_rust.Repository.{RepositoryError, replay, Repository}
use sourced_rust.SnapshotStore.{SnapshotRecord}
use sourced_rust.Aggregate.{
  Aggregate, update_entity, current_events, replay_flagged, hydrate, put_back,
}

-- The trait `Snapshottable`, with the codec of its snapshot type.
pub record Snapshottable (A Snap : Type 0) : Type 0 where
  pub aggregate : Aggregate A
  pub codec : Codec Snap
  pub create_snapshot : A → Snap
  pub restore_from_snapshot : A → Snap → A

-- The trait `SnapshotStore` over the state `S`.
pub record SnapshotOps (S : Type 0) : Type 0 where
  pub get_snapshot : S → String → Outcome RepositoryError (Option SnapshotRecord) × S
  pub save_snapshot : S → SnapshotRecord → Outcome RepositoryError (Unit {0}) × S
  pub delete_snapshot : S → String → Outcome RepositoryError Bool × S

module _ {A Snap : Type 0} (sn : Snapshottable A Snap) where
  -- `bitcode::deserialize(&snapshot.data).map_err(..)?`, whose text ends with the crate's own.
  unfoldable pub read_snapshot : SnapshotRecord → Outcome RepositoryError Snap
  read_snapshot snapshot = elim (sn.codec.deserialize snapshot.bytes) [
    | none ↦ err (replay "snapshot deserialize")
    | some snap ↦ ok snap
  ]

  unfoldable pub hydrate_from_snapshot : ℕ → ℕ → Entity → SnapshotRecord → Outcome RepositoryError A
  unfolding read_snapshot current_events replay_flagged
  hydrate_from_snapshot fuel now entity snapshot = do
    let a = sn.aggregate.set_entity (sn.aggregate.new_empty now) entity
    let a₁ = update_entity sn.aggregate (λ e. set_snapshot_version e snapshot.version) a
    snap ← read_snapshot snapshot
    let a₂ = sn.restore_from_snapshot a₁ snap
    let post = filter (λ e. ltb snapshot.version e.sequence) (sn.aggregate.entity a₂).events
    events ← current_events sn.aggregate fuel post
    replay_flagged sn.aggregate now events a₂

  unfoldable pub hydrate_with_optional_snapshot :
      ℕ → ℕ → Entity → Option SnapshotRecord → Outcome RepositoryError A
  unfolding hydrate hydrate_from_snapshot
  hydrate_with_optional_snapshot fuel now entity none = hydrate sn.aggregate fuel now entity
  hydrate_with_optional_snapshot fuel now entity (some snap) =
      if leb snap.version entity.version
      then hydrate_from_snapshot fuel now entity snap
      else hydrate sn.aggregate fuel now entity

  unfoldable pub snapshot_of : A → SnapshotRecord
  snapshot_of a = record {
    aggregate_id = (sn.aggregate.entity a).id;
    version = (sn.aggregate.entity a).version;
    bytes = sn.codec.serialize (sn.create_snapshot a);
  }

module _ {S A Snap : Type 0} (repo : Repository S) (store : SnapshotOps S)
    (sn : Snapshottable A Snap) (fuel : ℕ) where
  unfoldable pub hydrate_stored : S → ℕ → Entity → Outcome RepositoryError A × S
  unfolding hydrate_with_optional_snapshot
  hydrate_stored s now entity =
      let (r, s') = store.get_snapshot s entity.id in
      (r >>= hydrate_with_optional_snapshot sn fuel now entity, s')

  -- `SnapshotAggregateRepository::get`, which asks the store for the identifier of the call.
  unfoldable pub get_snapshotted : S → ℕ → String → Outcome RepositoryError (Option A) × S
  unfolding hydrate_with_optional_snapshot
  get_snapshotted s now id =
      let (r, s₁) = repo.get_one s now id in
      elim r [
        | ok none ↦ (ok none, s₁)
        | ok (some entity) ↦
            let (q, s₂) = store.get_snapshot s₁ id in
            (
              (do
                snapshot ← q
                a ← hydrate_with_optional_snapshot sn fuel now entity snapshot
                ok (some a)),
              s₂,
            )
        | err e ↦ (err e, s₁)
        | panic ↦ (panic, s₁)
        | hang ↦ (hang, s₁)
      ]

  -- `for entity in entities { .. }`, with `?` at every step.
  unfoldable pub hydrate_each : S → ℕ → List Entity → Outcome RepositoryError (List A) × S
  unfolding hydrate_stored
  hydrate_each s now [] = (ok [], s)
  hydrate_each s now (e ∷ es) =
      let (r, s₁) = hydrate_stored s now e in
      elim r [
        | ok a ↦ let (rest, s₂) = hydrate_each s₁ now es in (rest >>= λ aggs. ok (a ∷ aggs), s₂)
        | err x ↦ (err x, s₁)
        | panic ↦ (panic, s₁)
        | hang ↦ (hang, s₁)
      ]

  unfoldable pub get_all_snapshotted : S → ℕ → List String → Outcome RepositoryError (List A) × S
  unfolding hydrate_each
  get_all_snapshotted s now ids =
      let (r, s₁) = repo.get_many s now ids in
      elim r [
        | ok es ↦ hydrate_each s₁ now es
        | err e ↦ (err e, s₁)
        | panic ↦ (panic, s₁)
        | hang ↦ (hang, s₁)
      ]

module _ {S A Snap : Type 0} (store : SnapshotOps S) (sn : Snapshottable A Snap)
    (frequency : ℕ) where
  unfoldable pub maybe_snapshot : S → A → Outcome RepositoryError (Unit {0}) × S × A
  unfolding snapshot_of
  maybe_snapshot s a =
      let e = sn.aggregate.entity a in
      if leb (wrap_u64 (e.snapshot_version + frequency)) e.version
      then (let (r, s') = store.save_snapshot s (snapshot_of sn a) in
          elim r [
            | ok _ ↦
                (ok tt, s', update_entity sn.aggregate (λ x. set_snapshot_version x e.version) a)
            | err x ↦ (err x, s', a)
            | panic ↦ (panic, s', a)
            | hang ↦ (hang, s', a)
          ])
      else (ok tt, s, a)

  -- The aggregates behind the first failure keep what they were.
  unfoldable pub maybe_snapshot_each : S → List A → Outcome RepositoryError (Unit {0}) × S × List A
  unfolding maybe_snapshot
  maybe_snapshot_each s [] = (ok tt, s, [])
  maybe_snapshot_each s (a ∷ aggs) =
      let (r, s₁, a₁) = maybe_snapshot s a in
      elim r [
        | ok _ ↦ let (q, s₂, rest) = maybe_snapshot_each s₁ aggs in (q, s₂, a₁ ∷ rest)
        | err e ↦ (err e, s₁, a₁ ∷ aggs)
        | panic ↦ (panic, s₁, a₁ ∷ aggs)
        | hang ↦ (hang, s₁, a₁ ∷ aggs)
      ]

module _ {S A Snap : Type 0} (repo : Repository S) (store : SnapshotOps S)
    (sn : Snapshottable A Snap) (frequency : ℕ) where
  -- `SnapshotAggregateRepository::commit`
  unfoldable pub commit_snapshotted : S → A → Outcome RepositoryError (Unit {0}) × S × A
  unfolding maybe_snapshot
  commit_snapshotted s a =
      let (r, s₁, es) = repo.commit s (sn.aggregate.entity a ∷ []) in
      let a₁ : A = elim es [ [] ↦ a | e ∷ rest ↦ sn.aggregate.set_entity a e ] in
      elim r [
        | ok _ ↦ maybe_snapshot store sn frequency s₁ a₁
        | err e ↦ (err e, s₁, a₁)
        | panic ↦ (panic, s₁, a₁)
        | hang ↦ (hang, s₁, a₁)
      ]

  unfoldable pub commit_all_snapshotted :
      S → List A → Outcome RepositoryError (Unit {0}) × S × List A
  unfolding maybe_snapshot_each put_back
  commit_all_snapshotted s aggs =
      let (r, s₁, es) = repo.commit s (map sn.aggregate.entity aggs) in
      let back = put_back sn.aggregate aggs es in
      elim r [
        | ok _ ↦ maybe_snapshot_each store sn frequency s₁ back
        | err e ↦ (err e, s₁, back)
        | panic ↦ (panic, s₁, back)
        | hang ↦ (hang, s₁, back)
      ]
