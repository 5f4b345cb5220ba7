-- ===== src/Lock.antt =====
-- src/lock/in_memory.rs: the lock manager and its locks, as one map from identifiers to the flag of
-- each lock. A mutex around a flag is never poisoned, for nothing panics under it. `hang` is a call
-- that waits: the state does not change until another call releases the lock.
pub mod Held
use sourced_rust.Prelude.{
  Bool, true, false, String, Option, none, some, if◌then◌else◌, Outcome, ok, err, panic, hang,
  unwrap_or,
}
use sourced_rust.Prelude.HashMap
use sourced_rust.Prelude.HashMap.{HashMap}
use sourced_rust.Repository.{LockError}

abbrev pub Locks : Type 0
Locks = HashMap Bool

-- `locks.entry(id).or_insert_with(..)`
unfoldable pub get_lock : Locks → String → Locks
get_lock locks id = elim (HashMap.get id locks) [
  | none ↦ HashMap.insert id false locks
  | some locked ↦ locks
]

-- The flag behind the lock of an identifier.
unfoldable pub locked : Locks → String → Bool
locked locks id = unwrap_or (HashMap.get id locks) false

unfoldable pub lock : Locks → String → Outcome LockError (Unit {0}) × Locks
unfolding locked
lock locks id = if locked locks id then (hang, locks) else (ok tt, HashMap.insert id true locks)

unfoldable pub try_lock : Locks → String → Outcome LockError Bool × Locks
unfolding locked
try_lock locks id =
    if locked locks id then (ok false, locks) else (ok true, HashMap.insert id true locks)

unfoldable pub unlock : Locks → String → Outcome LockError (Unit {0}) × Locks
unfolding locked
unlock locks id = if locked locks id then (ok tt, HashMap.insert id false locks) else (ok tt, locks)
