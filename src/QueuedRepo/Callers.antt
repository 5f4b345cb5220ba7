-- ===== src/QueuedRepo/Callers.antt =====
-- src/queued_repo/repository.rs: several callers at once, each with one call that locks identifiers
-- and the commit of what it read, whose turns interleave between the calls on the locks.
use sourced_rust.Prelude.{
  contains, ℕ, zero, suc, ◌+◌, if◌then◌else◌, String, List, [], ◌∷◌, is_empty, is_ok, length,
}
use sourced_rust.Lock.{Locks}
use sourced_rust.QueuedRepo.{sort, dedup, acquire, release_each}

-- A caller: the identifiers that it holds locks of, and those that it has still to lock.
pub record Caller : Type 0 where
  pub held : List String
  pub wants : List String

pub record Callers : Type 0 where
  pub locks : Locks
  pub callers : List Caller

pub data Move : Type 0 where
  -- A call begins with these identifiers.
  arrive : List String → Move
  -- The caller at this position does its next step.
  turn : ℕ → Move

-- The next step of a caller with these locks and these wishes: the next lock of
-- `lock_ids_in_order`, where a wait leaves the caller as it is, or, when it has all of them, the
-- commit that releases them.
unfoldable pub advance : Locks → List String → List String → Locks × Caller
unfolding acquire release_each
advance locks held [] = (release_each locks held, record { held = []; wants = [] })
advance locks held (x ∷ xs) =
    let (r, locks') = acquire locks x in
    (
      locks',
      if is_ok r
          then record { held = x ∷ held; wants = xs }
          else record { held = held; wants = x ∷ xs },
    )

unfoldable pub advance_at : Locks → ℕ → List Caller → Locks × List Caller
unfolding advance
advance_at locks n [] = (locks, [])
advance_at locks zero (c ∷ cs) =
    let (locks', c') = advance locks c.held c.wants in (locks', c' ∷ cs)
advance_at locks (suc n) (c ∷ cs) = let (locks', cs') = advance_at locks n cs in (locks', c ∷ cs')

unfoldable pub move : Callers → Move → Callers
unfolding sort dedup advance_at
move s (arrive ids) = record s {
  callers = record { held = []; wants = dedup (sort ids) } ∷ s.callers;
}
move s (turn n) =
    let (locks', cs) = advance_at s.locks n s.callers in record { locks = locks'; callers = cs }

unfoldable pub run : Callers → List Move → Callers
unfolding move
run s [] = s
run s (m ∷ ms) = run (move s m) ms

-- Nobody has called yet.
abbrev pub idle : Callers
idle = record { locks = []; callers = [] }

-- How many callers hold the lock of an identifier.
abbrev pub holders : String → List Caller → ℕ
holders j [] = 0
holders j (c ∷ cs) = (if contains j c.held then 1 else 0) + holders j cs

-- The steps that a caller has still to do.
abbrev pub steps_left : Caller → ℕ
steps_left c = length c.wants + (if is_empty c.wants then (if is_empty c.held then 0 else 1) else 1)

abbrev pub work_left : List Caller → ℕ
work_left [] = 0
work_left (c ∷ cs) = steps_left c + work_left cs
