-- ===== src/Emitter/Emitting.antt =====
-- src/emitter/entity_ext.rs: what becomes of the events that calls on an emitter queue.
use sourced_rust.Prelude.{
  String, Bool, true, false, Option, List, [], ◌∷◌, ◌++◌, map, unwrap_or, ◌≡◌, refl, sym, ap, ◌∙◌,
  if◌then◌else◌, if_true, if_false, not, append_assoc, append-nil, subst, Bool-cases, inl, inr,
}
use sourced_rust.Emitter.{
  LocalEvent, EmitterOps, EntityEmitter, emit, emit_each, emit_queued, enqueue, enqueue_with,
  drain_queued_events, set_emitter_replaying,
}

pub data EmitterCall (P : Type 0) : Type 0 where
  enqueues : String → String → EmitterCall P
  enqueues_with : String → P → EmitterCall P
  sets_replaying : Bool → EmitterCall P
  drains emits_queued : EmitterCall P

-- An event that left the queue, and whether it was emitted or handed to a caller of `drain`.
pub record Departure : Type 0 where
  pub event : LocalEvent
  pub is_emitted : Bool

unfoldable pub departed : Bool → List Departure → List LocalEvent
departed way [] = []
departed way (d ∷ ds) =
    let rest = departed way ds in
    elim way [
      | true ↦ if d.is_emitted then d.event ∷ rest else rest
      | false ↦ if d.is_emitted then rest else d.event ∷ rest
    ]

module _ {P : Type 0} (to_json : P → Option String) where
  -- The events of the calls that find the entity not replaying.
  unfoldable pub accepted : Bool → List (EmitterCall P) → List LocalEvent
  accepted replaying [] = []
  accepted replaying (enqueues t text ∷ cs) =
      let rest = accepted replaying cs in
      if replaying then rest else record { event_type = t; text = text } ∷ rest
  accepted replaying (enqueues_with t p ∷ cs) =
      let rest = accepted replaying cs in
      if replaying then rest else record { event_type = t; text = unwrap_or (to_json p) "" } ∷ rest
  accepted replaying (sets_replaying b ∷ cs) = accepted b cs
  accepted replaying (drains ∷ cs) = accepted replaying cs
  accepted replaying (emits_queued ∷ cs) = accepted replaying cs

  module _ {E L : Type 0} (ops : EmitterOps E L) where
    -- The listeners called for one event after the other.
    unfoldable pub feed : E → List LocalEvent → E
    feed emitter [] = emitter
    feed emitter (e ∷ es) = feed (ops.call_listeners emitter e.event_type e.text) es

    -- A sequence of calls, with all that its drains returned.
    unfoldable pub run_emitter :
        EntityEmitter E → List (EmitterCall P) → EntityEmitter E × List LocalEvent
    unfolding enqueue enqueue_with set_emitter_replaying drain_queued_events emit_queued
    run_emitter m [] = (m, [])
    run_emitter m (enqueues t text ∷ cs) = run_emitter (enqueue m t text) cs
    run_emitter m (enqueues_with t p ∷ cs) = run_emitter (enqueue_with to_json m t p) cs
    run_emitter m (sets_replaying b ∷ cs) = run_emitter (set_emitter_replaying m b) cs
    run_emitter m (drains ∷ cs) =
        let (events, m₁) = drain_queued_events m in
        let (m₂, rest) = run_emitter m₁ cs in (m₂, events ++ rest)
    run_emitter m (emits_queued ∷ cs) = run_emitter (emit_queued ops m) cs

    emit_each-feed :
        (m : EntityEmitter E) (es : List LocalEvent)
        → emit_each ops m es ≡ record m { event_emitter = feed m.event_emitter es }
    unfolding emit_each feed
    emit_each-feed m [] = refl
    emit_each-feed m (e ∷ es) = emit_each-feed (emit ops m e.event_type e.text) es

    feed-append :
        (emitter : E) (es fs : List LocalEvent)
        → feed emitter (es ++ fs) ≡ feed (feed emitter es) fs
    unfolding feed
    feed-append emitter [] fs = refl
    feed-append emitter (e ∷ es) fs =
        feed-append (ops.call_listeners emitter e.event_type e.text) es fs

leaves : Bool → List LocalEvent → List Departure
leaves way es = map (λ e. record { event = e; is_emitted = way }) es

departed-leaves :
    (way : Bool) (es : List LocalEvent) (ds : List Departure)
    → departed way (leaves way es ++ ds) ≡ es ++ departed way ds
unfolding departed leaves
departed-leaves way [] ds = refl
departed-leaves true (e ∷ es) ds = ap (λ xs. e ∷ xs) (departed-leaves true es ds)
departed-leaves false (e ∷ es) ds = ap (λ xs. e ∷ xs) (departed-leaves false es ds)

departed-leaves_other :
    (way : Bool) (es : List LocalEvent) (ds : List Departure)
    → departed (not way) (leaves way es ++ ds) ≡ departed (not way) ds
unfolding departed leaves
departed-leaves_other way [] ds = refl
departed-leaves_other true (e ∷ es) ds = departed-leaves_other true es ds
departed-leaves_other false (e ∷ es) ds = departed-leaves_other false es ds

events-leaves :
    (way : Bool) (es : List LocalEvent) (ds : List Departure) (rest : List LocalEvent)
    → map (λ d. d.event) (leaves way es ++ ds) ++ rest ≡ es ++ (map (λ d. d.event) ds ++ rest)
unfolding leaves
events-leaves way [] ds rest = refl
events-leaves way (e ∷ es) ds rest = ap (λ xs. e ∷ xs) (events-leaves way es ds rest)

module _ {P E L : Type 0} (to_json : P → Option String) (ops : EmitterOps E L) where
  -- The events that the calls accept leave the queue in their order, each once, or are still in it.
  pub record Departs (m : EntityEmitter E) (cs : List (EmitterCall P)) (m' : EntityEmitter E)
      (drained : List LocalEvent) (ds : List Departure) : Type 0 where
    pub emitted : m'.event_emitter ≡ feed to_json ops m.event_emitter (departed true ds)
    pub handed_over : drained ≡ departed false ds
    pub in_order :
        map (λ d. d.event) ds ++ m'.events_to_emit
        ≡ m.events_to_emit ++ accepted to_json m.entity.replaying cs

  enqueue-Departs :
      (m : EntityEmitter E) (t text : String) (cs : List (EmitterCall P)) (m' : EntityEmitter E)
      (drained : List LocalEvent) (ds : List Departure)
      → Departs (enqueue m t text) cs m' drained ds
      → Departs m (enqueues t text ∷ cs) m' drained ds
  unfolding enqueue accepted
  enqueue-Departs m t text cs m' drained ds h = elim (Bool-cases m.entity.replaying) [
    | inl r ↦
        let h₁ = subst (λ x. Departs x cs m' drained ds) (if_true _ _ _ r) h in
        record {
          emitted = h₁.emitted;
          handed_over = h₁.handed_over;
          in_order = h₁.in_order ∙ ap (λ xs. m.events_to_emit ++ xs) (sym (if_true _ _ _ r));
        }
    | inr r ↦
        let h₁ = subst (λ x. Departs x cs m' drained ds) (if_false _ _ _ r) h in
        record {
          emitted = h₁.emitted;
          handed_over = h₁.handed_over;
          in_order =
              h₁.in_order
              ∙ append_assoc m.events_to_emit _ _
              ∙ ap (λ xs. m.events_to_emit ++ xs) (sym (if_false _ _ _ r));
        }
  ]

  -- What leaves at a flush goes before what leaves later.
  drain-Departs :
      (m : EntityEmitter E) (cs : List (EmitterCall P)) (m' : EntityEmitter E)
      (drained : List LocalEvent) (ds : List Departure)
      → Departs (record m { events_to_emit = [] }) cs m' drained ds
      → Departs m
          (drains ∷ cs)
          m'
          (m.events_to_emit ++ drained)
          (leaves false m.events_to_emit ++ ds)
  unfolding accepted
  drain-Departs m cs m' drained ds h = record {
    emitted =
        h.emitted
        ∙ ap (feed to_json ops m.event_emitter)
            (sym (departed-leaves_other false m.events_to_emit ds));
    handed_over =
        ap (λ xs. m.events_to_emit ++ xs) h.handed_over
        ∙ sym (departed-leaves false m.events_to_emit ds);
    in_order =
        events-leaves false m.events_to_emit ds m'.events_to_emit
        ∙ ap (λ xs. m.events_to_emit ++ xs) h.in_order;
  }

  emit_queued-Departs :
      (m : EntityEmitter E) (cs : List (EmitterCall P)) (m' : EntityEmitter E)
      (drained : List LocalEvent) (ds : List Departure)
      → Departs (emit_queued ops m) cs m' drained ds
      → Departs m (emits_queued ∷ cs) m' drained (leaves true m.events_to_emit ++ ds)
  unfolding accepted emit_queued
  emit_queued-Departs m cs m' drained ds h =
      let h₁ =
        subst (λ x. Departs x cs m' drained ds) (emit_each-feed to_json ops _ m.events_to_emit) h in
      record {
        emitted =
            h₁.emitted
            ∙ sym (feed-append to_json ops m.event_emitter m.events_to_emit (departed true ds))
            ∙ ap (feed to_json ops m.event_emitter)
                (sym (departed-leaves true m.events_to_emit ds));
        handed_over = h₁.handed_over ∙ sym (departed-leaves_other true m.events_to_emit ds);
        in_order =
            events-leaves true m.events_to_emit ds m'.events_to_emit
            ∙ ap (λ xs. m.events_to_emit ++ xs) h₁.in_order;
      }

  -- After any calls, the events that were queued before and those that the calls queue while the
  -- entity is not replaying have left the queue in their order, each once, or are still in it; the
  -- listeners are called on those that were emitted, in that order, and the others are those that the
  -- drains returned.
  pub run_emitter-Departs :
      (m : EntityEmitter E) (cs : List (EmitterCall P))
      → let (m', drained) = run_emitter to_json ops m cs in
        (ds : List Departure) × Departs m cs m' drained ds
  unfolding run_emitter accepted feed departed enqueue_with set_emitter_replaying
      drain_queued_events
  run_emitter-Departs m [] =
      ([], record { emitted = refl; handed_over = refl; in_order = sym (append-nil _) })
  run_emitter-Departs m (enqueues t text ∷ cs) =
      let (ds, h) = run_emitter-Departs (enqueue m t text) cs in
      (ds, enqueue-Departs m t text cs _ _ ds h)
  run_emitter-Departs m (enqueues_with t p ∷ cs) =
      let (ds, h) = run_emitter-Departs (enqueue_with to_json m t p) cs in
      let h₁ = enqueue-Departs m t (unwrap_or (to_json p) "") cs _ _ ds h in
      (ds, record { emitted = h₁.emitted; handed_over = h₁.handed_over; in_order = h₁.in_order })
  run_emitter-Departs m (sets_replaying b ∷ cs) =
      let (ds, h) = run_emitter-Departs (set_emitter_replaying m b) cs in
      (ds, record { emitted = h.emitted; handed_over = h.handed_over; in_order = h.in_order })
  run_emitter-Departs m (drains ∷ cs) =
      let (ds, h) = run_emitter-Departs (record m { events_to_emit = [] }) cs in
      (leaves false m.events_to_emit ++ ds, drain-Departs m cs _ _ ds h)
  run_emitter-Departs m (emits_queued ∷ cs) =
      let (ds, h) = run_emitter-Departs (emit_queued ops m) cs in
      (leaves true m.events_to_emit ++ ds, emit_queued-Departs m cs _ _ ds h)
