-- ===== src/QueuedRepo/Locking.antt =====
-- src/queued_repo/repository.rs: taking and releasing the locks of several entities.
use Prim.Native.Nat.{Ordering}
use Prim.Native.String.{compare}
use sourced_rust.Prelude.{
  String, List, [], ◌∷◌, str_eq, if◌then◌else◌, Outcome, ok, err, panic, hang, map_err,
}
use sourced_rust.Repository.{RepositoryError}
use sourced_rust.Lock.{Locks, get_lock, unlock, try_lock}
use sourced_rust.Lock

-- `unique.sort_unstable()`, which is a function of the list since equal texts are the same.
unfoldable pub sort_insert : String → List String → List String
sort_insert x [] = x ∷ []
sort_insert x (y ∷ ys) =
    let rest = sort_insert x ys in elim (compare x y) [ Ordering.gt ↦ y ∷ rest | _ ↦ x ∷ y ∷ ys ]

unfoldable pub sort : List String → List String
unfolding sort_insert
sort [] = []
sort (x ∷ xs) = sort_insert x (sort xs)

-- `unique.dedup()`: of equal neighbours the first one stays.
unfoldable pub dedup_from : String → List String → List String
dedup_from x [] = x ∷ []
dedup_from x (y ∷ ys) = if str_eq x y then dedup_from x ys else x ∷ dedup_from y ys

unfoldable pub dedup : List String → List String
unfolding dedup_from
dedup [] = []
dedup (x ∷ xs) = dedup_from x xs

-- `let lock = self.ensure_lock(id)?; lock.lock()?;`
unfoldable pub acquire : Locks → String → Outcome RepositoryError (Unit {0}) × Locks
unfolding get_lock Lock.lock
acquire locks id =
    let (r, locks') = Lock.lock (get_lock locks id) id in (map_err RepositoryError.lock r, locks')

-- The loop of `lock_ids_in_order`: a lock that waits keeps those before it.
unfoldable pub acquire_each : Locks → List String → Outcome RepositoryError (Unit {0}) × Locks
unfolding acquire
acquire_each locks [] = (ok tt, locks)
acquire_each locks (id ∷ ids) =
    let (r, locks₁) = acquire locks id in
    let rest = acquire_each locks₁ ids in
    elim r [
      | ok _ ↦ rest
      | err e ↦ (err e, locks₁)
      | panic ↦ (panic, locks₁)
      | hang ↦ (hang, locks₁)
    ]

unfoldable pub lock_ids_in_order : Locks → List String → Outcome RepositoryError (Unit {0}) × Locks
unfolding sort dedup acquire_each
lock_ids_in_order locks ids = acquire_each locks (dedup (sort ids))

-- `ensure_lock(id)?` and `unlock()?`
unfoldable pub release_lock : Locks → String → Outcome RepositoryError (Unit {0}) × Locks
unfolding get_lock unlock
release_lock locks id =
    let (r, locks') = unlock (get_lock locks id) id in (map_err RepositoryError.lock r, locks')

-- The loop over the locks after a commit; duplicates in it are released once more.
unfoldable pub release_each : Locks → List String → Locks
unfolding unlock
release_each locks [] = locks
release_each locks (id ∷ ids) = release_each (unlock locks id).1 ids

-- `locks.push(self.ensure_lock(entity.id())?)` for each entity.
unfoldable pub ensure_each : Locks → List String → Locks
unfolding get_lock
ensure_each locks [] = locks
ensure_each locks (id ∷ ids) = ensure_each (get_lock locks id) ids
