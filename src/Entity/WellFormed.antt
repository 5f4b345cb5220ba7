-- ===== src/Entity/WellFormed.antt =====
-- src/entity/entity.rs: the invariant of an entity's versions and sequence numbers, and where
-- `set_snapshot` leaves it.
use sourced_rust.Prelude.{
  ℕ, suc, ◌+◌, ◌≤◌, ◌<◌, String, ◌≡◌, refl, subst, none, some, List, [], ◌∷◌, ◌++◌, length, drop,
  length-append, if_cases, arith,
}
use sourced_rust.Bitcode.{Codec}
use sourced_rust.Entity.Record.{EventRecord}
use sourced_rust.Entity.{
  Entity, new_events, mark_committed, set_metadata, set_meta, clear_metadata, set_id,
  set_snapshot_version, stamp, push_event, digest, digest_v, digest_empty, set_snapshot,
  load_from_history,
}
use sourced_rust.Entity.Commands.{
  Command, digests, digests_v, digests_empty, marks_committed, step, run,
}

-- The sequence numbers go on from `n` by one.
abbrev pub IsNumbered : ℕ → List EventRecord → Type 0
IsNumbered n [] = Unit
IsNumbered n (r ∷ rs) = (r.sequence ≡ suc n) × IsNumbered (suc n) rs

pub IsNumbered-append :
    (n : ℕ) (xs ys : List EventRecord)
    → IsNumbered n xs
    → IsNumbered (n + length xs) ys
    → IsNumbered n (xs ++ ys)
IsNumbered-append n [] ys hx hy = subst (λ k. IsNumbered k ys) (omega arith) hy
IsNumbered-append n (x ∷ xs) ys hx hy =
    (hx.0, IsNumbered-append (suc n) xs ys hx.1 (subst (λ k. IsNumbered k ys) (omega arith) hy))

pub record IsWellFormed (e : Entity) : Type 0 where
  pub counted : e.version ≡ length e.events
  pub committed : e.committed_version ≤ e.version
  pub numbered : IsNumbered 0 e.events

push_event-IsWellFormed :
    (e : Entity) (r : EventRecord) (now : ℕ)
    → r.sequence ≡ length e.events + 1
    → IsWellFormed e
    → IsWellFormed (push_event e r now)
unfolding push_event
push_event-IsWellFormed e r now s w = record {
  counted = omega (arith, length-append e.events (r ∷ []));
  committed = omega (arith, w.counted, w.committed);
  numbered = IsNumbered-append 0 e.events (r ∷ []) w.numbered (omega arith);
}

stamp-sequence : (e : Entity) (r : EventRecord) → (stamp e r).sequence ≡ r.sequence
unfolding stamp
stamp-sequence e r = ground arith

-- An entity loaded from a numbered history is well formed.
pub load_from_history-IsWellFormed :
    (e : Entity) (history : List EventRecord)
    → IsNumbered 0 history
    → IsWellFormed (load_from_history e history)
unfolding load_from_history
load_from_history-IsWellFormed e history h = record {
  counted = refl;
  committed = omega arith;
  numbered = h;
}

module _ {T : Type 0} (codec : Codec T) where
  digest-IsWellFormed :
      (e : Entity) (now : ℕ) (name : String) (x : T)
      → IsWellFormed e
      → IsWellFormed (digest codec e now name x)
  unfolding digest
  digest-IsWellFormed e now name x w =
      if_cases IsWellFormed e.replaying _ _ (λ _. w)
        (λ _. push_event-IsWellFormed e _ now (stamp-sequence e _) w)

  digest_v-IsWellFormed :
      (e : Entity) (now : ℕ) (name : String) (v : ℕ) (x : T)
      → IsWellFormed e
      → IsWellFormed (digest_v codec e now name v x)
  unfolding digest_v
  digest_v-IsWellFormed e now name v x w =
      if_cases IsWellFormed e.replaying _ _ (λ _. w)
        (λ _. push_event-IsWellFormed e _ now (stamp-sequence e _) w)

mark_committed-IsWellFormed : (e : Entity) → IsWellFormed e → IsWellFormed (mark_committed e)
unfolding mark_committed
mark_committed-IsWellFormed e w = record {
  counted = w.counted;
  committed = omega arith;
  numbered = w.numbered;
}

module _ {T : Type 0} (codec : Codec T) (unit : Codec (Unit {0})) where
  step-IsWellFormed :
      (e : Entity) (now : ℕ) (c : Command T)
      → IsWellFormed e
      → IsWellFormed (step codec unit e now c)
  unfolding step set_id set_meta set_metadata clear_metadata set_snapshot_version digest_empty
  step-IsWellFormed e now (digests name x) w = digest-IsWellFormed codec e now name x w
  step-IsWellFormed e now (digests_v name v x) w = digest_v-IsWellFormed codec e now name v x w
  step-IsWellFormed e now (digests_empty name) w = digest-IsWellFormed unit e now name tt w
  step-IsWellFormed e now marks_committed w = mark_committed-IsWellFormed e w
  step-IsWellFormed e now _ w = record {
    counted = w.counted;
    committed = w.committed;
    numbered = w.numbered;
  }

  -- Whatever commands run on a well-formed entity, replaying or not, its version is the number of
  -- its events, its committed version is at most that, and the sequence numbers are 1, 2, 3, ….
  pub run-IsWellFormed :
      (e : Entity) (cs : List (ℕ × Command T)) → IsWellFormed e → IsWellFormed (run codec unit e cs)
  unfolding run
  run-IsWellFormed e [] w = w
  run-IsWellFormed e ((now, c) ∷ cs) w =
      run-IsWellFormed (step codec unit e now c) cs (step-IsWellFormed e now c w)

-- The slice is in range where no more than the events is committed.
pub new_events_lem :
    (e : Entity)
    → e.committed_version ≤ length e.events
    → new_events e ≡ some (drop e.committed_version e.events)
unfolding new_events
new_events_lem e h = ground arith

-- After `set_snapshot` on an entity that was committed at version 2 or later, the slice that
-- `new_events` takes panics, and at version 1 it is empty: the snapshot is never new.
new_events-set_snapshot :
    {T : Type 0} (codec : Codec T) (e : Entity) (now : ℕ) (x : T)
    → ((1 < e.committed_version) → new_events (set_snapshot codec e now x) ≡ none)
      × ((e.committed_version ≡ 1) → new_events (set_snapshot codec e now x) ≡ some [])
unfolding new_events set_snapshot
new_events-set_snapshot codec e now x = (λ h. ground arith, λ h. rw (h, new_events))
