-- ===== src/QueuedRepo/Progress.antt =====
-- src/queued_repo/repository.rs: callers that lock in ascending order do not wait for each other in a
-- circle.
use Prim.Native.Nat.{Ordering}
use Prim.Native.String.{compare}
use text.Mathlib.TextPositions.{compare_refl}
use sourced_rust.Prelude.{
  contains, ℕ, zero, suc, ◌<◌, Bool, true, false, not, ◌||◌, String, List, [], ◌∷◌, is_empty, ◌≡◌,
  ◌≢◌, refl, sym, ap, Bool-cases, inl, inr, ◌⊎◌, arith, str_eq, eq_iff, All, subst,
}
use sourced_rust.Lock.{Locks, locked}
use sourced_rust.QueuedRepo.TextOrder.{compare_trans}
use sourced_rust.QueuedRepo.Order.{Before}
use sourced_rust.QueuedRepo.Callers.{
  Caller, Callers, advance, advance_at, idle, holders, steps_left, work_left,
}
use sourced_rust.QueuedRepo.Exclusion.{AreInOrder, IsSafe, advance-free, advance-done}

-- Whether a caller wants this lock next.
abbrev wants_next : String → List String → Bool
wants_next x [] = false
wants_next x (y ∷ ys) = str_eq y x

-- A caller does not wait, and has something to do: its next lock is free, or it has all of them.
abbrev pub can_go : Locks → List String → List String → Bool
can_go locks held [] = not (is_empty held)
can_go locks held (x ∷ xs) = not (locked locks x)

-- The caller does not want a lock behind `x` next.
abbrev AtMost : String → List String → Type 0
AtMost x [] = Unit
AtMost x (y ∷ ys) = compare x y ≢ Ordering.lt

abbrev AllAtMost : String → List Caller → Type 0
AllAtMost x cs = All (λ (c : Caller). AtMost x c.wants) cs

-- Some caller satisfies a test on what it holds and wants.
abbrev pub any : (List String → List String → Bool) → List Caller → Bool
any p [] = false
any p (c ∷ cs) = p c.held c.wants || any p cs

abbrev pub is_waiting : List String → List String → Bool
is_waiting held wants = not (is_empty wants)

AtMost-trans :
    (x y : String) (ws : List String) → compare x y ≡ Ordering.lt → AtMost x ws → AtMost y ws
AtMost-trans x y [] h a = tt
AtMost-trans x y (z ∷ zs) h a = λ k. a (compare_trans x y z h k)

AllAtMost-trans :
    (x y : String) (cs : List Caller) → compare x y ≡ Ordering.lt → AllAtMost x cs → AllAtMost y cs
AllAtMost-trans x y [] h a = tt
AllAtMost-trans x y (c ∷ cs) h a = (AtMost-trans x y c.wants h a.0, AllAtMost-trans x y cs h a.1)

-- Either some `x` passes the test and bounds everything, or nobody waits.
abbrev Last : (String → Bool) → Bool → (String → Type 0) → Type 0
Last test waits Bound =
    ((x : String) × (test x ≡ true) × Bound x) ⊎ ((waits ≡ false) × ((x : String) → Bound x))

abbrev any_wants_next : String → List Caller → Bool
any_wants_next x cs = any (λ held wants. wants_next x wants) cs

last-first :
    (ws : List String) (cs : List Caller)
    → Last (λ x. any_wants_next x cs) (any is_waiting cs) (λ x. AllAtMost x cs)
    → Last
        (λ x. wants_next x ws || any_wants_next x cs)
        (not (is_empty ws) || any is_waiting cs)
        (λ x. AtMost x ws × AllAtMost x cs)
last-first [] cs (inl (x, w, a)) = inl (x, w, (tt, a))
last-first [] cs (inr (w, a)) = inr (w, λ x. (tt, a x))
last-first (y ∷ ys) cs (inr (w, a)) =
    inl (y, ground (arith, eq_iff y y), (λ k. ground (arith, k, compare_refl y), a y))
last-first (y ∷ ys) cs (inl (x, w, a)) =
    (elim (compare x y)
        as (λ o.
          compare x y ≡ o
          → Last (λ z. wants_next z (y ∷ ys) || any_wants_next z cs) true
              (λ z. AtMost z (y ∷ ys) × AllAtMost z cs)) [
                | Ordering.lt ↦ λ h. inl (
                  y,
                  ground (arith, eq_iff y y),
                  (λ k. ground (arith, k, compare_refl y), AllAtMost-trans x y cs h a),
                )
                | Ordering.eq ↦ λ h. inl (x, ground (arith, w), (λ k. cc (h, k), a))
                | Ordering.gt ↦ λ h. inl (x, ground (arith, w), (λ k. cc (h, k), a))
              ])
      refl

-- Of the locks that are wanted next, the last in the order.
last_wanted :
    (cs : List Caller) → Last (λ x. any_wants_next x cs) (any is_waiting cs) (λ x. AllAtMost x cs)
last_wanted [] = inr (refl, λ x. tt)
last_wanted (c ∷ cs) = last-first c.wants cs (last_wanted cs)

-- Who holds the last lock that anybody wants next has all of its locks.
holder_goes :
    (locks : Locks) (x : String) (held wants : List String)
    → contains x held ≡ true
    → AtMost x wants
    → ((h : String) → contains h held ≡ true → Before h wants)
    → can_go locks held wants ≡ true
holder_goes locks x [] [] c a o = cc
holder_goes locks x (h ∷ hs) [] c a o = refl
holder_goes locks x held (y ∷ ys) c a o = absurd (a (o x c))

holders_go :
    (locks : Locks) (x : String) (cs : List Caller)
    → holders x cs ≢ 0
    → AllAtMost x cs
    → AreInOrder cs
    → any (can_go locks) cs ≡ true
holders_go locks x [] h a o = absurd (h refl)
holders_go locks x (c ∷ cs) h a o = elim (Bool-cases (contains x c.held)) [
  | inl holds ↦ ground (arith, holder_goes locks x c.held c.wants holds a.0 o.0.1)
  | inr other ↦ ground (arith, holders_go locks x cs (λ k. h (ground (arith, k, other))) a.1 o.1)
]

next_goes :
    (locks : Locks) (x : String) (held wants : List String)
    → locked locks x ≡ false
    → wants_next x wants ≡ true
    → can_go locks held wants ≡ true
next_goes locks x held [] f w = cc
next_goes locks x held (y ∷ ys) f w =
    ap not (subst (λ z. locked locks z ≡ false) (sym ((eq_iff y x).0 w)) f)

nexts_go :
    (locks : Locks) (x : String) (cs : List Caller)
    → locked locks x ≡ false
    → any_wants_next x cs ≡ true
    → any (can_go locks) cs ≡ true
nexts_go locks x [] f w = w
nexts_go locks x (c ∷ cs) f w = elim (Bool-cases (wants_next x c.wants)) [
  | inl next ↦ ground (arith, next_goes locks x c.held c.wants f next)
  | inr other ↦ ground (arith, nexts_go locks x cs f (ground (arith, w, other)))
]

pub somebody_goes :
    (s : Callers)
    → IsSafe s
    → any is_waiting s.callers ≡ true
    → any (can_go s.locks) s.callers ≡ true
somebody_goes s (e, o) w = elim (last_wanted s.callers) [
  | inr (idle, a) ↦ cc
  | inl (x, next, a) ↦ elim (Bool-cases (locked s.locks x)) [
    | inl held ↦ holders_go s.locks x s.callers (λ k. ground (arith, e x, held, k)) a o
    | inr free ↦ nexts_go s.locks x s.callers free next
  ]
]

advance_less :
    (locks : Locks) (held wants : List String)
    → can_go locks held wants ≡ true
    → steps_left (advance locks held wants).1 < steps_left (record { held = held; wants = wants })
advance_less locks held [] g = rw (advance-done locks held) (ground (arith, g))
advance_less locks held (x ∷ xs) g =
    rw (advance-free locks held x xs (ground (arith, g))) (ground arith)

-- The position of a caller that can go on, whose turn leaves less to do.
pub advance_at_less :
    (locks : Locks) (cs : List Caller)
    → any (can_go locks) cs ≡ true
    → (n : ℕ) × (work_left (advance_at locks n cs).1 < work_left cs)
unfolding advance_at
advance_at_less locks [] g = cc
advance_at_less locks (c ∷ cs) g = elim (Bool-cases (can_go locks c.held c.wants)) [
  | inl goes ↦ (zero, omega (arith, advance_less locks c.held c.wants goes))
  | inr stays ↦
      let (n, less) = advance_at_less locks cs (ground (arith, g, stays)) in
      (suc n, omega (arith, less))
]
