-- ===== src/QueuedRepo.antt =====
-- src/queued_repo/repository.rs: a repository that takes a lock for each entity that it reads, and
-- releases it when the entity is committed.
mod Locking
pub mod TextOrder
pub mod Order
pub mod Holding
pub mod Releasing
pub mod Callers
pub mod Exclusion
pub mod Progress
pub mod Returning
pub mod Turns
pub mod Aggregates
unfoldable pub use Locking.{
  sort_insert, sort, dedup_from, dedup, acquire, acquire_each, lock_ids_in_order, release_lock,
  release_each, ensure_each,
}
use Prim.Native.Nat.{Ordering}
use Prim.Native.String.{compare}
use sourced_rust.Prelude.{
  ℕ, Bool, true, false, String, Option, none, some, List, [], ◌∷◌, map, str_eq, if◌then◌else◌,
  Outcome, ok, err, panic, hang, map_err, ◌>>=◌,
}
use sourced_rust.Entity.{Entity}
use sourced_rust.Repository.{RepositoryError, LockError, Repository}
use sourced_rust.Repository
use sourced_rust.Lock.{Locks, get_lock, unlock, try_lock}
use sourced_rust.Lock

-- The state: that of the inner repository, and the locks.
pub record Queued (S : Type 0) : Type 0 where
  pub inner : S
  pub locks : Locks

-- The two public calls on the locks: `lock` does not wait, and drops the answer of `try_lock`.
unfoldable pub lock_entity :
    {S : Type 0} → Queued S → String → Outcome RepositoryError (Unit {0}) × Queued S
unfolding get_lock try_lock
lock_entity q id =
    let (r, locks') = try_lock (get_lock q.locks id) id in
    (map_err RepositoryError.lock r >>= λ _. ok tt, record q { locks = locks' })

unfoldable pub unlock_entity :
    {S : Type 0} → Queued S → String → Outcome RepositoryError (Unit {0}) × Queued S
unfolding release_lock
unlock_entity q id = let (r, locks') = release_lock q.locks id in (r, record q { locks = locks' })

module _ {S : Type 0} (repo : Repository S) where
  -- What follows a call of the inner repository or of the locks: only `ok` goes on.
  abbrev pub go_on :
      {A B : Type 0}
      → Outcome RepositoryError A
      → Queued S
      → (A → Outcome RepositoryError B × Queued S)
      → Outcome RepositoryError B × Queued S
  go_on (ok a) q next = next a
  go_on (err e) q next = (err e, q)
  go_on panic q next = (panic, q)
  go_on hang q next = (hang, q)

  abbrev pub with_inner :
      {A : Type 0} → Queued S → Outcome RepositoryError A × S → Outcome RepositoryError A × Queued S
  with_inner q (r, s) = (r, record q { inner = s })

  unfoldable pub queued_get_one :
      Queued S → ℕ → String → Outcome RepositoryError (Option Entity) × Queued S
  unfolding acquire
  queued_get_one q now id =
      let (r, locks') = acquire q.locks id in
      let q' = record q { locks = locks' } in
      go_on r q' (λ _. with_inner q' (repo.get_one q'.inner now id))

  unfoldable pub queued_get_many :
      Queued S → ℕ → List String → Outcome RepositoryError (List Entity) × Queued S
  unfolding lock_ids_in_order
  queued_get_many q now ids =
      let (r, locks') = lock_ids_in_order q.locks ids in
      let q' = record q { locks = locks' } in
      go_on r q' (λ _. with_inner q' (repo.get_many q'.inner now ids))

  -- The second fetch of `find`, with the locks held.
  unfoldable pub refetch :
      Queued S
      → ℕ
      → (Entity → Bool)
      → List String
      → Outcome RepositoryError (List Entity) × Queued S
  refetch q now p [] = (ok [], q)
  refetch q now p (id ∷ ids) =
      let (r, q₁) = with_inner q (repo.get_one q.inner now id) in
      let (rest, q₂) = refetch q₁ now p ids in
      go_on r q₁ (λ found.
        (rest >>= λ es. elim found [ none ↦ ok es | some e ↦ ok (if p e then e ∷ es else es) ], q₂))

  unfoldable pub queued_find :
      Queued S → ℕ → (Entity → Bool) → Outcome RepositoryError (List Entity) × Queued S
  unfolding lock_ids_in_order refetch
  queued_find q now p =
      let (r, q₁) = with_inner q (repo.find q.inner now p) in
      go_on r q₁ (λ es.
        let ids = map (λ (e : Entity). e.id) es in
        let (locked, locks') = lock_ids_in_order q₁.locks ids in
        let q₂ = record q₁ { locks = locks' } in go_on locked q₂ (λ _. refetch q₂ now p ids))

  unfoldable pub queued_find_one :
      Queued S → ℕ → (Entity → Bool) → Outcome RepositoryError (Option Entity) × Queued S
  unfolding acquire unlock
  queued_find_one q now p =
      let (r, q₁) = with_inner q (repo.find_one q.inner now p) in
      go_on r q₁ (λ first. elim first [
        | none ↦ (ok none, q₁)
        | some e ↦
            let (locked, locks') = acquire q₁.locks e.id in
            let q₂ = record q₁ { locks = locks' } in
            go_on locked q₂ (λ _.
              let (again, q₃) = with_inner q₂ (repo.get_one q₂.inner now e.id) in
              go_on again q₃ (λ found.
                let dropped = record q₃ { locks = (unlock q₃.locks e.id).1 } in
                elim found [
                  | none ↦ (ok none, dropped)
                  | some e' ↦ if p e' then (ok (some e'), q₃) else (ok none, dropped)
                ]))
      ])

  unfoldable pub queued_exists :
      Queued S → ℕ → (Entity → Bool) → Outcome RepositoryError Bool × Queued S
  queued_exists q now p = with_inner q (repo.exists q.inner now p)

  unfoldable pub queued_count :
      Queued S → ℕ → (Entity → Bool) → Outcome RepositoryError ℕ × Queued S
  queued_count q now p = with_inner q (repo.count q.inner now p)

  unfoldable pub queued_commit :
      Queued S → List Entity → Outcome RepositoryError (Unit {0}) × Queued S × List Entity
  unfolding ensure_each release_each
  queued_commit q es =
      let ids = map (λ (e : Entity). e.id) es in
      let ensured = ensure_each q.locks ids in
      let (r, s', es') = repo.commit q.inner es in
      elim r [
        | ok _ ↦ (ok tt, record { inner = s'; locks = release_each ensured ids }, es')
        | err e ↦ (err e, record { inner = s'; locks = ensured }, es')
        | panic ↦ (panic, record { inner = s'; locks = ensured }, es')
        | hang ↦ (hang, record { inner = s'; locks = ensured }, es')
      ]

  unfoldable pub queued_repository : Repository (Queued S)
  unfolding queued_get_one queued_get_many queued_find queued_find_one queued_exists queued_count
      queued_commit
  queued_repository = record {
    get_one = queued_get_one;
    get_many = queued_get_many;
    find = queued_find;
    find_one = queued_find_one;
    exists = queued_exists;
    count = queued_count;
    commit = queued_commit;
  }

  -- The `.._with` calls: `lock` is the one field of `ReadOpts`.
  unfoldable pub get_with :
      Queued S → ℕ → String → Bool → Outcome RepositoryError (Option Entity) × Queued S
  unfolding queued_get_one
  get_with q now id lock =
      if lock then queued_get_one q now id else with_inner q (repo.get_one q.inner now id)

  unfoldable pub get_all_with :
      Queued S → ℕ → List String → Bool → Outcome RepositoryError (List Entity) × Queued S
  unfolding queued_get_many
  get_all_with q now ids lock =
      if lock then queued_get_many q now ids else with_inner q (repo.get_many q.inner now ids)

  unfoldable pub find_with :
      Queued S → ℕ → (Entity → Bool) → Bool → Outcome RepositoryError (List Entity) × Queued S
  unfolding queued_find
  find_with q now p lock =
      if lock then queued_find q now p else with_inner q (repo.find q.inner now p)

  unfoldable pub find_one_with :
      Queued S → ℕ → (Entity → Bool) → Bool → Outcome RepositoryError (Option Entity) × Queued S
  unfolding queued_find_one
  find_one_with q now p lock =
      if lock then queued_find_one q now p else with_inner q (repo.find_one q.inner now p)
