-- ===== src/QueuedRepo/Exclusion.antt =====
-- src/queued_repo/repository.rs: callers that lock the same identifiers exclude each other.
use sourced_rust.Prelude.{
  contains, ℕ, zero, suc, ◌+◌, true, false, if◌then◌else◌, String, List, [], ◌∷◌, ◌≡◌, refl, ap,
  Bool-cases, inl, inr, arith, str_eq, eq_iff, is_ok, All, subst, Outcome,
}
use sourced_rust.Prelude.HashMap
use sourced_rust.Repository.{RepositoryError}
use sourced_rust.Lock.{Locks, locked, get_lock}
use sourced_rust.Lock.Held.{get_lock-locked}
use sourced_rust.QueuedRepo.{release_each}
use sourced_rust.QueuedRepo.Order.{Before, IsAscending, dedup-sort}
use sourced_rust.QueuedRepo.Holding.{Before-tail, acquire-free, acquire-hangs, taken-locked}
use sourced_rust.QueuedRepo.Releasing.{release_each-locked}
use sourced_rust.QueuedRepo.Callers.{
  Caller, Callers, Move, arrive, turn, advance, advance_at, move, run, idle, holders,
}

-- The locks that a caller wants stand in ascending order behind those that it holds.
abbrev pub IsInOrder : List String → List String → Type 0
IsInOrder held wants = IsAscending wants × ((h : String) → contains h held ≡ true → Before h wants)

abbrev pub AreInOrder : List Caller → Type 0
AreInOrder cs = All (λ (c : Caller). IsInOrder c.held c.wants) cs

-- Of each lock that is held there is one holder, and of each other lock none.
abbrev pub IsExclusive : Callers → Type 0
IsExclusive s = (j : String) → holders j s.callers ≡ (if locked s.locks j then 1 else 0)

-- What a caller makes of the answer of a lock.
abbrev after_lock :
    List String → String → List String → Outcome RepositoryError (Unit {0}) × Locks → Locks × Caller
after_lock held x xs (r, locks') = (
  locks',
  if is_ok r
      then record { held = x ∷ held; wants = xs }
      else record { held = held; wants = x ∷ xs },
)

pub advance-free :
    (locks : Locks) (held : List String) (x : String) (xs : List String)
    → locked locks x ≡ false
    → advance locks held (x ∷ xs)
      ≡ (HashMap.insert x true (get_lock locks x), record { held = x ∷ held; wants = xs })
unfolding advance
advance-free locks held x xs free = ap (after_lock held x xs) (acquire-free locks x free)

pub advance-waits :
    (locks : Locks) (held : List String) (x : String) (xs : List String)
    → locked locks x ≡ true
    → advance locks held (x ∷ xs) ≡ (get_lock locks x, record { held = held; wants = x ∷ xs })
unfolding advance
advance-waits locks held x xs waits = ap (after_lock held x xs) (acquire-hangs locks x waits)

pub advance-done :
    (locks : Locks) (held : List String)
    → advance locks held [] ≡ (release_each locks held, record { held = []; wants = [] })
unfolding advance
advance-done locks held = refl

-- A step of one caller, beside `k` holders among the others.
advance-exclusive :
    (locks : Locks) (held wants : List String) (j : String) (k : ℕ)
    → k + (if contains j held then 1 else 0) ≡ (if locked locks j then 1 else 0)
    → let (locks', c') = advance locks held wants in
      k + (if contains j c'.held then 1 else 0) ≡ (if locked locks' j then 1 else 0)
advance-exclusive locks held [] j k h =
    rw (advance-done locks held, release_each-locked locks held j) (ground (arith, h))
advance-exclusive locks held (x ∷ xs) j k h = elim (Bool-cases (locked locks x)) [
  | inl waits ↦ rw (advance-waits locks held x xs waits, get_lock-locked locks x j) h
  | inr free ↦
      rw (advance-free locks held x xs free, taken-locked locks x j)
        (ground (arith, h, free, eq_iff x j))
]

advance_at-exclusive :
    (locks : Locks) (n : ℕ) (cs : List Caller) (j : String) (k : ℕ)
    → k + holders j cs ≡ (if locked locks j then 1 else 0)
    → let (locks', cs') = advance_at locks n cs in
      k + holders j cs' ≡ (if locked locks' j then 1 else 0)
unfolding advance_at
advance_at-exclusive locks n [] j k h = h
advance_at-exclusive locks zero (c ∷ cs) j k h =
    omega (arith, advance-exclusive locks c.held c.wants j (k + holders j cs) (omega (arith, h)))
advance_at-exclusive locks (suc n) (c ∷ cs) j k h = omega (
  arith,
  advance_at-exclusive locks n cs j (k + (if contains j c.held then 1 else 0)) (omega (arith, h)),
)

advance-IsInOrder :
    (locks : Locks) (held wants : List String)
    → IsInOrder held wants
    → let c' = (advance locks held wants).1 in IsInOrder c'.held c'.wants
advance-IsInOrder locks held [] o = rw (advance-done locks held) (tt, λ h c. tt)
advance-IsInOrder locks held (x ∷ xs) o = elim (Bool-cases (locked locks x)) [
  | inl waits ↦ rw (advance-waits locks held x xs waits) o
  | inr free ↦ rw (advance-free locks held x xs free) (
    o.0.1,
    λ h c. elim (Bool-cases (str_eq x h)) [
      | inl same ↦ subst (λ z. Before z xs) ((eq_iff x h).0 same) o.0.0
      | inr differs ↦ Before-tail h x xs (o.1 h (ground (arith, c, differs))) o.0.0
    ],
  )
]

advance_at-AreInOrder :
    (locks : Locks) (n : ℕ) (cs : List Caller)
    → AreInOrder cs
    → AreInOrder (advance_at locks n cs).1
unfolding advance_at
advance_at-AreInOrder locks n [] o = o
advance_at-AreInOrder locks zero (c ∷ cs) o = (advance-IsInOrder locks c.held c.wants o.0, o.1)
advance_at-AreInOrder locks (suc n) (c ∷ cs) o = (o.0, advance_at-AreInOrder locks n cs o.1)

abbrev pub IsSafe : Callers → Type 0
IsSafe s = IsExclusive s × AreInOrder s.callers

pub move-IsSafe : (s : Callers) (m : Move) → IsSafe s → IsSafe (move s m)
unfolding move
move-IsSafe s (arrive ids) (e, o) =
    (λ j. omega (arith, e j), (((dedup-sort ids).0, λ h c. absurd (ground (arith, c))), o))
move-IsSafe s (turn n) (e, o) = (
  λ j. omega (arith, advance_at-exclusive s.locks n s.callers j 0 (omega (arith, e j))),
  advance_at-AreInOrder s.locks n s.callers o,
)

pub run-IsSafe : (s : Callers) (ms : List Move) → IsSafe s → IsSafe (run s ms)
unfolding run
run-IsSafe s [] safe = safe
run-IsSafe s (m ∷ ms) safe = run-IsSafe (move s m) ms (move-IsSafe s m safe)

pub idle-IsSafe : IsSafe idle
unfolding locked HashMap.get
idle-IsSafe = (λ j. refl, tt)

-- Two callers never hold the same lock: whatever calls arrive and whoever has the next turn, of each
-- lock that is held there is exactly one holder, and a lock that is free has none.
pub run-IsExclusive :
    (ms : List Move)
    → let s = run idle ms in
      (j : String) → holders j s.callers ≡ (if locked s.locks j then 1 else 0)
run-IsExclusive ms = (run-IsSafe idle ms idle-IsSafe).0
