-- ===== src/QueuedModels/Reading.antt =====
-- src/read_model/queued.rs: taking the locks of keys, as the locks of entities are taken.
use sourced_rust.Prelude.{
  String, true, false, contains, List, [], ◌∷◌, Outcome, ok, err, panic, hang, map_err, ◌≡◌, refl,
  sym, ap, ◌∙◌, ◌||◌,
}
use sourced_rust.Prelude.HashMap
use sourced_rust.Repository.{ReadModelError, RepositoryError, LockError}
use sourced_rust.Lock.{Locks, get_lock, locked}
use sourced_rust.Lock
use sourced_rust.Lock.Held.{get_lock-locked, lock-free, lock-hangs}
use sourced_rust.QueuedRepo.{acquire_each, sort, dedup}
use sourced_rust.QueuedRepo.Order.{dedup-sort}
use sourced_rust.QueuedRepo.Holding.{
  Free, Holds, after_acquire, acquire_each-Holds, acquire_each-hangs,
}
use sourced_rust.QueuedModels.{acquire_key, acquire_keys, lock_keys_in_order}

pub acquire_key-free :
    (locks : Locks) (key : String)
    → locked locks key ≡ false
    → acquire_key locks key ≡ (ok tt, HashMap.insert key true (get_lock locks key))
unfolding acquire_key
acquire_key-free locks key h =
    ap (λ x. (map_err ReadModelError.lock x.0, x.1))
      (lock-free (get_lock locks key) key (get_lock-locked locks key key ∙ h))

pub acquire_key-hangs :
    (locks : Locks) (key : String)
    → locked locks key ≡ true
    → acquire_key locks key ≡ (hang, get_lock locks key)
unfolding acquire_key
acquire_key-hangs locks key h =
    ap (λ x. (map_err ReadModelError.lock x.0, x.1))
      (lock-hangs (get_lock locks key) key (get_lock-locked locks key key ∙ h))

-- The error of a lock, as it is carried by the errors of read models. The other errors do not occur.
abbrev relabel : Outcome RepositoryError (Unit {0}) → Outcome ReadModelError (Unit {0})
relabel (ok t) = ok t
relabel (err (RepositoryError.lock e)) = err (ReadModelError.lock e)
relabel (err e) = panic
relabel panic = panic
relabel hang = hang

-- What `acquire_keys` does behind its first lock.
abbrev after_key :
    List String
    → Outcome ReadModelError (Unit {0}) × Locks
    → Outcome ReadModelError (Unit {0}) × Locks
after_key keys (r, locks₁) = elim r [
  | ok _ ↦ acquire_keys locks₁ keys
  | err e ↦ (err e, locks₁)
  | panic ↦ (panic, locks₁)
  | hang ↦ (hang, locks₁)
]

acquire_keys-agree :
    (locks : Locks) (keys : List String)
    → acquire_keys locks keys ≡ (relabel (acquire_each locks keys).0, (acquire_each locks keys).1)
unfolding acquire_keys acquire_each acquire_key
acquire_keys-agree locks [] = refl
acquire_keys-agree locks (key ∷ keys) =
    behind (Lock.lock (get_lock locks key) key) (λ l. acquire_keys-agree l keys)
  where
    behind :
        (x : Outcome LockError (Unit {0}) × Locks)
        → ((l : Locks)
            → acquire_keys l keys ≡ (relabel (acquire_each l keys).0, (acquire_each l keys).1))
        → let y = after_acquire keys (map_err RepositoryError.lock x.0, x.1) in
          after_key keys (map_err ReadModelError.lock x.0, x.1) ≡ (relabel y.0, y.1)
    behind (ok t, locks₁) rest = rest locks₁
    behind (err e, locks₁) rest = refl
    behind (panic, locks₁) rest = refl
    behind (hang, locks₁) rest = refl

-- Where none of the locks of the keys is held, all of them are held afterwards, beside those that were.
pub lock_keys_in_order-Holds :
    (locks : Locks) (keys : List String)
    → Free locks keys
    → (locks' : Locks) × (lock_keys_in_order locks keys ≡ (ok tt, locks')) × Holds locks keys locks'
unfolding lock_keys_in_order
lock_keys_in_order-Holds locks keys f =
    let (ascending, same) = dedup-sort keys in
    let (locks', eq, holds) =
      acquire_each-Holds locks (dedup (sort keys)) ascending (λ id c. f id (sym (same id) ∙ c)) in
    (
      locks',
      acquire_keys-agree locks (dedup (sort keys)) ∙ ap (λ y. (relabel y.0, y.1)) eq,
      λ j. holds j ∙ ap (λ b. b || locked locks j) (same j),
    )

pub lock_keys_in_order-hangs :
    (locks : Locks) (keys : List String) (key : String)
    → contains key keys ≡ true
    → locked locks key ≡ true
    → (lock_keys_in_order locks keys).0 ≡ hang
unfolding lock_keys_in_order
lock_keys_in_order-hangs locks keys key c l =
    let (ascending, same) = dedup-sort keys in
    ap (λ y. y.0) (acquire_keys-agree locks (dedup (sort keys)))
    ∙ ap relabel (acquire_each-hangs locks (dedup (sort keys)) key (same key ∙ c) l)
