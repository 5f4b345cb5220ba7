-- ===== src/QueuedModels/Locking.antt =====
-- src/read_model/queued.rs: the helpers on the locks.
use sourced_rust.Prelude.{String, List, [], ◌∷◌, Outcome, ok, err, panic, hang, map_err}
use sourced_rust.Repository.{ReadModelError}
use sourced_rust.Lock.{Locks, get_lock, unlock}
use sourced_rust.Lock
use sourced_rust.QueuedRepo.{sort, dedup}

-- `let lock = self.ensure_lock(key)?; lock.lock()?;`
unfoldable pub acquire_key : Locks → String → Outcome ReadModelError (Unit {0}) × Locks
unfolding get_lock Lock.lock
acquire_key locks key =
    let (r, locks') = Lock.lock (get_lock locks key) key in (map_err ReadModelError.lock r, locks')

-- The loop of `lock_ids_in_order`.
unfoldable pub acquire_keys : Locks → List String → Outcome ReadModelError (Unit {0}) × Locks
unfolding acquire_key
acquire_keys locks [] = (ok tt, locks)
acquire_keys locks (key ∷ keys) =
    let (r, locks₁) = acquire_key locks key in
    let rest = acquire_keys locks₁ keys in
    elim r [
      | ok _ ↦ rest
      | err e ↦ (err e, locks₁)
      | panic ↦ (panic, locks₁)
      | hang ↦ (hang, locks₁)
    ]

unfoldable pub lock_keys_in_order : Locks → List String → Outcome ReadModelError (Unit {0}) × Locks
unfolding sort dedup acquire_keys
lock_keys_in_order locks keys = acquire_keys locks (dedup (sort keys))

-- What the lock answers is dropped.
unfoldable pub release_key : Locks → String → Locks
unfolding get_lock unlock
release_key locks key = (unlock (get_lock locks key) key).1
