-- ===== src/QueuedRepo/Returning.antt =====
-- src/queued_repo/repository.rs: the calls of several callers come to an end.
use sourced_rust.Prelude.{
  ℕ, zero, suc, ◌≤◌, ◌<◌, false, String, List, [], ◌∷◌, map, All, ◌==◌, ◌≡◌, ◌≢◌, refl, Bool-cases,
  inl, inr, arith,
}
use sourced_rust.Lock.{Locks, locked}
use sourced_rust.QueuedRepo.Callers.{
  Caller, Callers, Move, turn, move, run, idle, holders, steps_left, work_left,
}
use sourced_rust.QueuedRepo.Exclusion.{IsSafe, move-IsSafe, run-IsSafe, idle-IsSafe}
use sourced_rust.QueuedRepo.Progress.{any, can_go, is_waiting, somebody_goes, advance_at_less}

-- Nobody waits and nobody has something to commit.
none_left :
    (locks : Locks) (cs : List Caller)
    → any is_waiting cs ≡ false
    → any (can_go locks) cs ≡ false
    → work_left cs ≡ 0
none_left locks [] w g = refl
none_left locks (c ∷ cs) w g = omega (
  arith,
  none_left locks cs (ground (arith, w)) (ground (arith, g)),
  of_one c.held c.wants (ground (arith, w)) (ground (arith, g)),
)
  where
    of_one :
        (held wants : List String)
        → is_waiting held wants ≡ false
        → can_go locks held wants ≡ false
        → steps_left (record { held = held; wants = wants }) ≡ 0
    of_one [] [] w g = refl
    of_one (h ∷ hs) [] w g = cc
    of_one held (x ∷ xs) w g = cc

-- A caller whose call has returned and whose commit is done.
abbrev pub IsDone : Caller → Type 0
IsDone c = (c.held ≡ []) × (c.wants ≡ [])

All-IsDone : (cs : List Caller) → work_left cs ≡ 0 → All IsDone cs
All-IsDone [] h = tt
All-IsDone (c ∷ cs) h = (of_one c.held c.wants (omega (arith, h)), All-IsDone cs (omega (arith, h)))
  where
    of_one :
        (held wants : List String)
        → steps_left (record { held = held; wants = wants }) ≡ 0
        → (held ≡ []) × (wants ≡ [])
    of_one [] [] h = (refl, refl)
    of_one [] (y ∷ ys) h = absurd (omega (arith, h))
    of_one (x ∷ xs) [] h = absurd (omega (arith, h))
    of_one (x ∷ xs) (y ∷ ys) h = absurd (omega (arith, h))

no_holders : (j : String) (cs : List Caller) → All IsDone cs → holders j cs ≡ 0
no_holders j [] h = refl
no_holders j (c ∷ cs) h = rw (h.0.0, no_holders j cs h.1) (omega arith)

-- Where somebody has something left to do, a turn of somebody leaves less.
turn_less :
    (s : Callers)
    → IsSafe s
    → work_left s.callers ≢ 0
    → (n : ℕ) × (work_left (move s (turn n)).callers < work_left s.callers)
unfolding move
turn_less s safe h = elim (Bool-cases (any (can_go s.locks) s.callers)) [
  | inl goes ↦ advance_at_less s.locks s.callers goes
  | inr stuck ↦ elim (Bool-cases (any is_waiting s.callers)) [
    | inl waits ↦ absurd (ground (arith, somebody_goes s safe waits, stuck))
    | inr rests ↦ absurd (h (none_left s.locks s.callers rests stuck))
  ]
]

-- There are turns after which every call has returned and every lock is free.
abbrev Ends : Callers → Type 0
Ends s =
    (ns : List ℕ) × (let s' = run s (map turn ns) in
      All IsDone s'.callers × ((j : String) → locked s'.locks j ≡ false))

ended : (s : Callers) → IsSafe s → work_left s.callers ≡ 0 → Ends s
unfolding run
ended s safe h =
    let done = All-IsDone s.callers h in
    ([], (done, λ j. ground (arith, safe.0 j, no_holders j s.callers done)))

run_turns : (k : ℕ) (s : Callers) → IsSafe s → work_left s.callers ≤ k → Ends s
unfolding run
run_turns zero s safe h = ended s safe (omega (arith, h))
run_turns (suc k) s safe h = elim (Bool-cases (work_left s.callers == 0)) [
  | inl none ↦ ended s safe (ground (arith, none))
  | inr more ↦
      let (n, less) = turn_less s safe (λ e. ground (arith, more, e)) in
      let (ns, end) =
        run_turns k (move s (turn n)) (move-IsSafe s (turn n) safe) (omega (arith, less, h)) in
      (n ∷ ns, end)
]

-- Callers do not deadlock: whatever calls arrived and whoever had a turn, while somebody has locks to
-- take or to release there is a caller whose turn leaves less to do, and there are turns of the
-- callers that are there after which every call has returned, every commit is done, and every lock
-- is free. The condition is that a caller makes one call that locks and then commits what it read.
pub run-returns :
    (ms : List Move)
    → let s = run idle ms in
      (work_left s.callers ≢ 0
        → (n : ℕ) × (work_left (move s (turn n)).callers < work_left s.callers))
      × ((ns : List ℕ) × (let s' = run s (map turn ns) in
            All IsDone s'.callers × ((j : String) → locked s'.locks j ≡ false)))
run-returns ms =
    let safe = run-IsSafe idle ms idle-IsSafe in
    (
      turn_less (run idle ms) safe,
      run_turns (work_left (run idle ms).callers) (run idle ms) safe (omega arith),
    )
