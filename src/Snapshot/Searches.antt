-- ===== src/Snapshot/Searches.antt =====
-- src/snapshot/repository.rs: the searches of the snapshot repository, with one look at the snapshot
-- store for each entity that they reach.
use sourced_rust.Prelude.{
  ℕ, Bool, true, Option, none, some, List, [], ◌∷◌, length, is_some, if◌then◌else◌, Outcome, ok,
  err, panic, hang, ◌>>=◌,
}
use sourced_rust.Entity.{Entity}
use sourced_rust.Repository.{RepositoryError, Repository}
use sourced_rust.Snapshot.{Snapshottable, SnapshotOps, hydrate_stored}

module _ {S A Snap : Type 0} (repo : Repository S) (store : SnapshotOps S)
    (sn : Snapshottable A Snap) (fuel : ℕ) (predicate : A → Bool) where
  unfoldable pub find_loop : S → ℕ → List Entity → Outcome RepositoryError (List A) × S
  unfolding hydrate_stored
  find_loop s now [] = (ok [], s)
  find_loop s now (e ∷ es) =
      let (r, s₁) = hydrate_stored repo store sn fuel s now e in
      let (rest, s₂) = find_loop s₁ now es in
      elim r [
        | ok a ↦ (rest >>= λ found. ok (if predicate a then a ∷ found else found), s₂)
        | err x ↦ (err x, s₁)
        | panic ↦ (panic, s₁)
        | hang ↦ (hang, s₁)
      ]

  unfoldable pub find_one_loop : S → ℕ → List Entity → Outcome RepositoryError (Option A) × S
  unfolding hydrate_stored
  find_one_loop s now [] = (ok none, s)
  find_one_loop s now (e ∷ es) =
      let (r, s₁) = hydrate_stored repo store sn fuel s now e in
      let rest = find_one_loop s₁ now es in
      elim r [
        | ok a ↦ if predicate a then (ok (some a), s₁) else rest
        | err x ↦ (err x, s₁)
        | panic ↦ (panic, s₁)
        | hang ↦ (hang, s₁)
      ]

  unfoldable pub find_snapshotted : S → ℕ → Outcome RepositoryError (List A) × S
  unfolding find_loop
  find_snapshotted s now =
      let (r, s₁) = repo.find s now (λ _. true) in
      elim r [
        | ok es ↦ find_loop s₁ now es
        | err x ↦ (err x, s₁)
        | panic ↦ (panic, s₁)
        | hang ↦ (hang, s₁)
      ]

  unfoldable pub find_one_snapshotted : S → ℕ → Outcome RepositoryError (Option A) × S
  unfolding find_one_loop
  find_one_snapshotted s now =
      let (r, s₁) = repo.find s now (λ _. true) in
      elim r [
        | ok es ↦ find_one_loop s₁ now es
        | err x ↦ (err x, s₁)
        | panic ↦ (panic, s₁)
        | hang ↦ (hang, s₁)
      ]

  unfoldable pub exists_snapshotted : S → ℕ → Outcome RepositoryError Bool × S
  unfolding find_one_snapshotted
  exists_snapshotted s now =
      let (r, s₁) = find_one_snapshotted s now in (r >>= λ a. ok (is_some a), s₁)

  unfoldable pub count_snapshotted : S → ℕ → Outcome RepositoryError ℕ × S
  unfolding find_snapshotted
  count_snapshotted s now =
      let (r, s₁) = find_snapshotted s now in (r >>= λ aggs. ok (length aggs), s₁)
