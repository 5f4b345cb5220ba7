-- ===== src/Macros/Replaying.antt =====
-- sourced_rust_macros/src/lib.rs: the event that a generated method records, replayed by the `replay_event`
-- that is generated with it.
use sourced_rust.Prelude.{
  ℕ, String, true, false, Option, none, some, List, [], ◌∷◌, ◌++◌, map, All, length, str_eq, eq_iff,
  ok, ◌≡◌, ◌≢◌, refl, sym, ap, subst, ◌∙◌, if_true, if_false, if◌then◌else◌, arith,
}
use sourced_rust.Bitcode.{IsLossless}
use sourced_rust.Entity.{EventRecord, push_event, decode}
use sourced_rust.Macros.Arguments.{SourcedArgs, EventAttr}
use sourced_rust.Macros.{
  Function, Generated, ReplayArm, extract_param_names, original, wrap_body_with_guard,
}
use sourced_rust.Macros.Sourced.{event_method_of, method_info, replay_arm}
use sourced_rust.Macros.Describing.{extract_param_names-types}
use sourced_rust.Macros.Running.{Scope, Runtime, bind, exec_all, call_method, call_named, run_arms}
use sourced_rust.Macros.Recording.{
  DistinctNames, clones-bind, Records, generate_digest_call-Records,
}

abbrev pub EventMethod : Type 0 → Type 0 → Type 0 → Type 0
EventMethod T X B = EventAttr X × Function T B

module _ {T X B : Type 0} where
  abbrev pub methods_of : SourcedArgs → List (EventMethod T X B) → List (Generated T X B)
  methods_of args events = map (λ p. event_method_of args p.0 p.1) events

  abbrev pub arms_of : List (EventMethod T X B) → List ReplayArm
  arms_of events = map (λ p. replay_arm (method_info p.0 p.1)) events

module _ {T A X B V : Type 0} (rt : Runtime A X B V) (args : SourcedArgs) where
  run_arms-skip :
      (now : ℕ) (ms : List (Generated T X B)) (before after : List (EventMethod T X B))
      (r : EventRecord) (a : A)
      → All (λ p. p.0.event_name ≢ r.event_name) before
      → run_arms rt now ms (arms_of (before ++ after)) r a ≡ run_arms rt now ms (arms_of after) r a
  unfolding run_arms replay_arm method_info
  run_arms-skip now ms [] after r a h = refl
  run_arms-skip now ms (p ∷ before) after r a h =
      if_false (str_eq p.0.event_name r.event_name) _ _
        (ground (arith, h.0, eq_iff p.0.event_name r.event_name))
      ∙ run_arms-skip now ms before after r a h.1

  call_named-skip :
      (now : ℕ) (before after : List (EventMethod T X B)) (name : String) (vs : List V) (a : A)
      → All (λ p. p.1.name ≢ name) before
      → call_named rt now (methods_of args (before ++ after)) name vs a
        ≡ call_named rt now (methods_of args after) name vs a
  unfolding call_named event_method_of
  call_named-skip now [] after name vs a h = refl
  call_named-skip now (p ∷ before) after name vs a h =
      if_false (str_eq p.1.name name) _ _ (ground (arith, h.0, eq_iff p.1.name name))
      ∙ call_named-skip now before after name vs a h.1

  call_named-here :
      (now : ℕ) (before after : List (EventMethod T X B)) (e : EventAttr X) (f : Function T B)
      (vs : List V) (a : A)
      → All (λ p. p.1.name ≢ f.name) before
      → call_named rt now (methods_of args (before ++ (e, f) ∷ after)) f.name vs a
        ≡ call_method rt now (event_method_of args e f) vs a
  unfolding call_named event_method_of
  call_named-here now before after e f vs a h =
      call_named-skip now before ((e, f) ∷ after) f.name vs a h
      ∙ if_true (str_eq f.name f.name) _ _ (ground (arith, eq_iff f.name f.name))

  run_arms-here :
      (now : ℕ) (ms : List (Generated T X B)) (arms : List ReplayArm) (name method_name : String)
      (names : List String) (vs : List V) (r : EventRecord) (b : A)
      → IsLossless rt.tuples
      → DistinctNames names
      → length vs ≡ length names
      → Records rt.tuples name names vs r
      → let arm : ReplayArm = record {
        event_name = name;
        bound = names;
        method_name = method_name;
        passed = names;
      } in
        run_arms rt now ms (arm ∷ arms) r b ≡ ok (call_named rt now ms method_name vs b)
  unfolding run_arms decode
  run_arms-here now ms arms name method_name [] [] r b lossless d l h =
      if_true (str_eq name r.event_name) _ _ (ground (arith, h.named, eq_iff name r.event_name))
  run_arms-here now ms arms name method_name [] (v ∷ vs) r b lossless d l h =
      absurd (omega (arith, l))
  run_arms-here now ms arms name method_name (n ∷ ns) vs r b lossless d l h =
      if_true (str_eq name r.event_name) _ _ (ground (arith, h.named, eq_iff name r.event_name))
      ∙ rw (h.carries refl, lossless vs, clones-bind (n ∷ ns) vs d l) refl

  -- A record of the event is replayed by the event's method.
  run_arms-Records :
      (now : ℕ) (before after : List (EventMethod T X B)) (e : EventAttr X) (f : Function T B)
      (vs : List V) (r : EventRecord) (b : A)
      → All (λ p. p.0.event_name ≢ e.event_name) before
      → All (λ p. p.1.name ≢ f.name) before
      → IsLossless rt.tuples
      → let names = extract_param_names f.inputs in
        DistinctNames names
        → length vs ≡ length names
        → Records rt.tuples e.event_name names vs r
        → let events = before ++ (e, f) ∷ after in
          run_arms rt now (methods_of args events) (arms_of events) r b
          ≡ ok (call_method rt now (event_method_of args e f) vs b)
  unfolding replay_arm method_info
  run_arms-Records now before after e f vs r b hn hm lossless d l h =
      let ms = methods_of args (before ++ (e, f) ∷ after) in
      run_arms-skip now ms before ((e, f) ∷ after) r b
        (subst (λ n. All (λ p. p.0.event_name ≢ n) before) (sym h.named) hn)
      ∙ subst
          (λ names.
            run_arms rt now ms
              (record {
                event_name = e.event_name;
                bound = names;
                method_name = f.name;
                passed = names;
              }
                ∷ arms_of after)
              r b
            ≡ ok (call_named rt now ms f.name vs b))
          (sym (extract_param_names-types f.inputs))
          (run_arms-here now ms (arms_of after) e.event_name f.name (extract_param_names f.inputs)
            vs r b lossless d l h)
      ∙ ap ok (call_named-here now before after e f vs b hm)

module _ {A X B V : Type 0} (rt : Runtime A X B V) where
  -- The guard of an event method, where it has one, holds.
  abbrev pub Passes : Option X → Scope V → A → Type 0
  Passes none scope a = Unit
  Passes (some g) scope a = rt.holds g scope a ≡ true

  guard-Passes :
      (guard : Option X) (scope : Scope V) (a y : A)
      → Passes guard scope a
      → (elim guard [ none ↦ y | some g ↦ if rt.holds g scope a then y else a ]) ≡ y
  guard-Passes none scope a y h = refl
  guard-Passes (some g) scope a y h = if_true (rt.holds g scope a) _ _ h

-- Where nothing is enqueued and the guard of an event method passes, a call on an entity that is not
-- replaying records one event `r` and goes on with the statements of the source. If the codec is
-- lossless, the parameters are identifiers under distinct names, one for each value, and no method
-- before this one has its event or its name, then the generated `replay_event` takes `r` to the call of
-- the same method with the same values, on every state and at every time.
pub call_method-replayed :
    {T A X B V : Type 0} (rt : Runtime A X B V) (args : SourcedArgs)
    (before after : List (EventMethod T X B)) (e : EventAttr X) (f : Function T B) (vs : List V)
    (now : ℕ) (a : A)
    → args.enqueue ≡ none
    → Passes rt e.guard (bind (extract_param_names f.inputs) vs) a
    → (rt.entity a).replaying ≡ false
    → IsLossless rt.tuples
    → DistinctNames (extract_param_names f.inputs)
    → length vs ≡ length (extract_param_names f.inputs)
    → All (λ p. p.0.event_name ≢ e.event_name) before
    → All (λ p. p.1.name ≢ f.name) before
    → let events = before ++ (e, f) ∷ after in
      let method = event_method_of args e f in
      let scope = bind (extract_param_names f.inputs) vs in
      (r : EventRecord) × (call_method rt now method vs a
        ≡ exec_all rt now scope
            (map original f.stmts)
            (rt.set_entity a (push_event (rt.entity a) r now)))
      × ((later : ℕ) (b : A)
          → run_arms rt later (methods_of args events) (arms_of events) r b
            ≡ ok (call_method rt later method vs b))
unfolding call_method exec_all event_method_of wrap_body_with_guard
call_method-replayed rt args before after e f vs now a off passes live lossless d l hn hm =
    let names = extract_param_names f.inputs in
    let scope = bind names vs in
    let (r, h, recorded) =
      generate_digest_call-Records rt now scope args.entity_field e.event_name names e.version a
        live in
    let h₁ : Records rt.tuples e.event_name names vs r =
      subst (λ ws. Records rt.tuples e.event_name names ws r) (clones-bind names vs d l) h in
    (
      r,
      guard-Passes rt e.guard scope a _ passes
          ∙ rw (off, extract_param_names-types f.inputs)
              (ap (exec_all rt now scope (map original f.stmts)) recorded),
      λ later b. run_arms-Records rt args later before after e f vs r b hn hm lossless d l h₁,
    )
