-- ===== src/Entity/History.antt =====
-- src/entity/entity.rs: an entity as a log of saved and pending events.
use sourced_rust.Prelude.{
  ℕ, String, ◌≡◌, refl, sym, ap, ◌∙◌, false, some, List, [], ◌∷◌, ◌++◌, map, append-nil,
  append_assoc, length, drop, length-append, length-map, map-drop, drop-append_left, if_cases,
  arith,
}
use sourced_rust.Bitcode.{Codec}
use sourced_rust.Entity.Record.{EventRecord}
use sourced_rust.Entity.{
  Entity, new_events, mark_committed, set_metadata, set_meta, clear_metadata, set_id,
  set_snapshot_version, stamp, push_event, digest, digest_v, digest_empty,
}
use sourced_rust.Entity.WellFormed.{new_events_lem}
use sourced_rust.Entity.Commands.{
  Command, digests, digests_v, digests_empty, sets_id, sets_meta, sets_metadata, clears_metadata,
  sets_snapshot_version, marks_committed, step, run,
}

-- What a log of names and versions does at the same calls: an event is pending until it is saved.
pub record Log : Type 0 where
  pub saved : List (String × ℕ)
  pub pending : List (String × ℕ)

abbrev log_event : Log → String → ℕ → Log
log_event l name version = record l { pending = l.pending ++ (name, version) ∷ [] }

module _ {T : Type 0} where
  pub log_step : Log → Command T → Log
  log_step l (digests name payload) = log_event l name 1
  log_step l (digests_v name version payload) = log_event l name version
  log_step l (digests_empty name) = log_event l name 1
  log_step l marks_committed = record { saved = l.saved ++ l.pending; pending = [] }
  log_step l (sets_id id) = l
  log_step l (sets_meta key value) = l
  log_step l (sets_metadata m) = l
  log_step l clears_metadata = l
  log_step l (sets_snapshot_version v) = l

  pub log_run : Log → List (ℕ × Command T) → Log
  log_run l [] = l
  log_run l ((now, c) ∷ cs) = log_run (log_step l c) cs

abbrev pub summary : EventRecord → String × ℕ
summary r = (r.event_name, r.event_version)

-- An entity that records, seen as a log.
pub record Refines (e : Entity) (l : Log) : Type 0 where
  pub events : map summary e.events ≡ l.saved ++ l.pending
  pub saved : e.committed_version ≡ length l.saved
  pub counted : e.version ≡ length e.events
  pub records : e.replaying ≡ false

map-summary-append :
    (xs ys : List EventRecord) → map summary (xs ++ ys) ≡ map summary xs ++ map summary ys
map-summary-append [] ys = refl
map-summary-append (x ∷ xs) ys = ap (λ rest. summary x ∷ rest) (map-summary-append xs ys)

stamp-summary : (e : Entity) (r : EventRecord) → summary (stamp e r) ≡ summary r
unfolding stamp
stamp-summary e r = ground arith

push_event-Refines :
    (e : Entity) (l : Log) (r : EventRecord) (name : String) (version now : ℕ)
    → summary r ≡ (name, version)
    → Refines e l
    → Refines (push_event e r now) (log_event l name version)
unfolding push_event
push_event-Refines e l r name version now s h = record {
  events =
      map-summary-append e.events (r ∷ [])
      ∙ ap (λ xs. xs ++ summary r ∷ []) h.events
      ∙ append_assoc l.saved l.pending (summary r ∷ [])
      ∙ ap (λ x. l.saved ++ (l.pending ++ x ∷ [])) s;
  saved = h.saved;
  counted = omega (arith, length-append e.events (r ∷ []));
  records = h.records;
}

mark_committed-Refines :
    (e : Entity) (l : Log)
    → Refines e l
    → Refines (mark_committed e) (record { saved = l.saved ++ l.pending; pending = [] })
unfolding mark_committed
mark_committed-Refines e l h = record {
  events = h.events ∙ sym (append-nil (l.saved ++ l.pending));
  saved = h.counted ∙ sym (length-map summary e.events) ∙ ap length h.events;
  counted = h.counted;
  records = h.records;
}

module _ {T : Type 0} (codec : Codec T) (unit : Codec (Unit {0})) where
  step-Refines :
      (e : Entity) (l : Log) (now : ℕ) (c : Command T)
      → Refines e l
      → Refines (step codec unit e now c) (log_step l c)
  unfolding step log_step digest digest_v digest_empty set_id set_meta set_metadata clear_metadata
      set_snapshot_version
  step-Refines e l now (digests name x) h =
      if_cases (λ e'. Refines e' (log_event l name 1)) e.replaying _ _ (λ p. cc (h.records, p))
        (λ _. push_event-Refines e l _ name 1 now (stamp-summary e _) h)
  step-Refines e l now (digests_v name v x) h =
      if_cases (λ e'. Refines e' (log_event l name v)) e.replaying _ _ (λ p. cc (h.records, p))
        (λ _. push_event-Refines e l _ name v now (stamp-summary e _) h)
  step-Refines e l now (digests_empty name) h =
      if_cases (λ e'. Refines e' (log_event l name 1)) e.replaying _ _ (λ p. cc (h.records, p))
        (λ _. push_event-Refines e l _ name 1 now (stamp-summary e _) h)
  step-Refines e l now marks_committed h = mark_committed-Refines e l h
  step-Refines e l now _ h = record {
    events = h.events;
    saved = h.saved;
    counted = h.counted;
    records = h.records;
  }

  run-Refines :
      (e : Entity) (l : Log) (cs : List (ℕ × Command T))
      → Refines e l
      → Refines (run codec unit e cs) (log_run l cs)
  unfolding run log_run
  run-Refines e l [] h = h
  run-Refines e l ((now, c) ∷ cs) h =
      run-Refines (step codec unit e now c) (log_step l c) cs (step-Refines e l now c h)

new_events-Refines :
    (e : Entity) (l : Log)
    → Refines e l
    → (xs : List EventRecord) × (new_events e ≡ some xs) × (map summary xs ≡ l.pending)
new_events-Refines e l h = (
  drop e.committed_version e.events,
  new_events_lem e (
      omega (
        arith,
        h.saved,
        ap length h.events,
        length-map summary e.events,
        length-append l.saved l.pending,
      )),
  map-drop summary e.committed_version e.events
      ∙ ap (drop e.committed_version) h.events
      ∙ rw h.saved (drop-append_left l.saved l.pending),
)

-- An entity that is not replaying refines the log of names and versions: after any commands the new
-- events are, in order, what was digested since the last `mark_committed`, and a slice that
-- panics is never reached.
pub new_events-run :
    {T : Type 0} (codec : Codec T) (unit : Codec (Unit {0})) (e : Entity) (l : Log)
    (cs : List (ℕ × Command T))
    → Refines e l
    → Refines (run codec unit e cs) (log_run l cs)
      × ((xs : List EventRecord) × (new_events (run codec unit e cs) ≡ some xs)
          × (map summary xs ≡ (log_run l cs).pending))
new_events-run codec unit e l cs h =
    let h' = run-Refines codec unit e l cs h in (h', new_events-Refines _ _ h')
