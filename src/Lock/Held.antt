-- ===== src/Lock/Held.antt =====
-- src/lock/in_memory.rs: what each call does to the flags.
use sourced_rust.Prelude.{
  Bool, true, false, String, ◌≡◌, ok, hang, arith, str_eq, eq_iff, if◌then◌else◌,
}
use sourced_rust.Prelude.HashMap
use sourced_rust.Prelude.HashMap.{get-insert}
use sourced_rust.Lock.{Locks, get_lock, locked, lock, unlock}

pub get_lock-locked :
    (locks : Locks) (id j : String) → locked (get_lock locks id) j ≡ locked locks j
unfolding get_lock locked
get_lock-locked locks id j = ground (arith, get-insert id j false locks, eq_iff id j)

pub lock-free :
    (locks : Locks) (id : String)
    → locked locks id ≡ false
    → lock locks id ≡ (ok tt, HashMap.insert id true locks)
unfolding lock
lock-free locks id h = ground (arith, h)

pub lock-hangs :
    (locks : Locks) (id : String) → locked locks id ≡ true → lock locks id ≡ (hang, locks)
unfolding lock
lock-hangs locks id h = ground (arith, h)

pub insert-locked :
    (locks : Locks) (id j : String) (b : Bool)
    → locked (HashMap.insert id b locks) j ≡ (if str_eq id j then b else locked locks j)
unfolding locked
insert-locked locks id j b = ground (arith, get-insert id j b locks)

pub unlock-locked :
    (locks : Locks) (id j : String)
    → locked (unlock locks id).1 j ≡ (if str_eq id j then false else locked locks j)
unfolding unlock
unlock-locked locks id j = ground (arith, insert-locked locks id j false, eq_iff id j)

pub unlock-ok : (locks : Locks) (id : String) → (unlock locks id).0 ≡ ok tt
unfolding unlock
unlock-ok locks id = ground arith
