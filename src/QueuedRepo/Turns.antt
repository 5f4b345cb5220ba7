-- ===== src/QueuedRepo/Turns.antt =====
-- src/queued_repo/repository.rs: the loop of `lock_ids_in_order` as turns of one caller.
use sourced_rust.Prelude.{
  true, false, String, List, [], ◌∷◌, ◌≡◌, refl, sym, ap, ◌∙◌, Bool-cases, inl, inr, is_ok,
}
use sourced_rust.Prelude.HashMap
use sourced_rust.Lock.{Locks, locked, get_lock}
use sourced_rust.QueuedRepo.{acquire_each}
use sourced_rust.QueuedRepo.Holding.{acquire-free, acquire-hangs, after_acquire}
use sourced_rust.QueuedRepo.Callers.{Caller, Callers, Move, turn, advance_at, move, run}
use sourced_rust.QueuedRepo.Exclusion.{advance-free}

-- What a caller holds that took these locks one after the other.
abbrev pub took : List String → List String → List String
took held [] = held
took held (x ∷ xs) = took (x ∷ held) xs

abbrev pub alone : Locks → List String → List String → Callers
alone locks held wants = record {
  locks = locks;
  callers = record { held = held; wants = wants } ∷ [];
}

abbrev pub turns : List String → List Move
turns [] = []
turns (x ∷ xs) = turn 0 ∷ turns xs

move-alone :
    (locks : Locks) (held : List String) (x : String) (xs : List String)
    → locked locks x ≡ false
    → move (alone locks held (x ∷ xs)) (turn 0)
      ≡ alone (HashMap.insert x true (get_lock locks x)) (x ∷ held) xs
unfolding move advance_at
move-alone locks held x xs free =
    ap (λ (y : Locks × Caller). record { locks = y.0; callers = y.1 ∷ [] })
      (advance-free locks held x xs free)

-- A caller that is alone takes by its turns the locks that the loop `acquire_each` takes, in that
-- order, wherever the loop does not wait.
pub run-acquire_each :
    (locks : Locks) (held ids : List String)
    → is_ok (acquire_each locks ids).0 ≡ true
    → run (alone locks held ids) (turns ids) ≡ alone (acquire_each locks ids).1 (took held ids) []
unfolding run acquire_each
run-acquire_each locks held [] h = refl
run-acquire_each locks held (x ∷ xs) h = elim (Bool-cases (locked locks x)) [
  | inl waits ↦
      absurd (cc (h, ap (λ y. is_ok (after_acquire xs y).0) (acquire-hangs locks x waits)))
  | inr free ↦
      let eq = ap (after_acquire xs) (acquire-free locks x free) in
      let locks₁ = HashMap.insert x true (get_lock locks x) in
      ap (λ s. run s (turns xs)) (move-alone locks held x xs free)
      ∙ run-acquire_each locks₁ (x ∷ held) xs (sym (ap (λ y. is_ok y.0) eq) ∙ h)
      ∙ sym (ap (λ y. alone y.1 (took (x ∷ held) xs) []) eq)
]
