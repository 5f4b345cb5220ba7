-- ===== src/Macros/Describing.antt =====
-- sourced_rust_macros/src/lib.rs: the events of an impl block in the words of `aggregate!`, and its methods
-- as `#[digest]` and `#[enqueue]` make them.
use sourced_rust.Prelude.{
  String, Option, none, some, List, [], ◌∷◌, ◌++◌, map, str_eq, if◌then◌else◌, ◌≡◌, refl, ap, arith,
}
use sourced_rust.Macros.Arguments.{EventDef, SourcedArgs, EventAttr, whole, parse_event_args}
use sourced_rust.Macros.{
  FnArg, receiver, typed_ident, typed_other, Function, Generated, Attribute, extract_param_names,
  extract_params_with_types, digest_macro, enqueue_macro, aggregate_arm, call_args,
  find_and_remove_event_attr, wrap_body_with_guard,
}
use sourced_rust.Macros.Sourced.{
  ImplItem, method, other_item, ExpandedItem, event_method, untouched, event_method_of,
}

pub extract_param_names-types :
    {T : Type 0} (inputs : List (FnArg T))
    → map (λ p. p.0) (extract_params_with_types inputs) ≡ extract_param_names inputs
unfolding extract_param_names extract_params_with_types
extract_param_names-types [] = refl
extract_param_names-types (receiver ∷ inputs) = extract_param_names-types inputs
extract_param_names-types (typed_ident name ty ∷ inputs) =
    ap (λ names. name ∷ names) (extract_param_names-types inputs)
extract_param_names-types (typed_other ty ∷ inputs) = extract_param_names-types inputs

-- The definition of an event in `aggregate!`: its arguments go on to the method.
abbrev pub event_def : String → String → List String → EventDef
event_def event_name method_name args = record {
  event_name = event_name;
  args = args;
  method_name = method_name;
  method_args = none;
}

pub aggregate_arm-event_def :
    (name method_name : String) (names : List String)
    → aggregate_arm (event_def name method_name names)
      ≡ record { event_name = name; bound = names; method_name = method_name; passed = names }
unfolding aggregate_arm call_args
aggregate_arm-event_def name method_name [] = refl
aggregate_arm-event_def name method_name (x ∷ []) = refl
aggregate_arm-event_def name method_name (x ∷ y ∷ names) = refl

module _ {X : Type 0} where
  -- What the first attribute `event` says.
  unfoldable pub described : List (Attribute X) → Option (EventAttr X)
  described [] = none
  described (attr ∷ attrs) =
      if str_eq attr.path "event" then whole parse_event_args attr.tokens else described attrs

  -- The attributes without the first one called `event`.
  unfoldable pub others : List (Attribute X) → List (Attribute X)
  others [] = []
  others (attr ∷ attrs) = if str_eq attr.path "event" then attrs else attr ∷ others attrs

  pub find_and_remove_event_attr-others :
      (attrs : List (Attribute X)) → (find_and_remove_event_attr attrs).1 ≡ others attrs
  unfolding find_and_remove_event_attr others
  find_and_remove_event_attr-others [] = refl
  find_and_remove_event_attr-others (attr ∷ attrs) =
      ground (arith, find_and_remove_event_attr-others attrs)

  pub find_and_remove_event_attr-described :
      (attrs : List (Attribute X)) (o : Option (EventAttr X))
      → (find_and_remove_event_attr attrs).0 ≡ some o
      → o ≡ described attrs
  unfolding find_and_remove_event_attr described
  find_and_remove_event_attr-described [] o h = cc h
  find_and_remove_event_attr-described (attr ∷ attrs) o h =
      ground (arith, h, find_and_remove_event_attr-described attrs o)

module _ {T X B : Type 0} where
  abbrev pub with_def : Function T B → Option (EventAttr X) → List EventDef → List EventDef
  unfolding extract_param_names
  with_def func none rest = rest
  with_def func (some e) rest =
      event_def e.event_name func.name (extract_param_names func.inputs) ∷ rest

  -- The events of an impl block, as `aggregate!` takes them.
  unfoldable pub event_defs : List (ImplItem T X B) → List EventDef
  unfolding described extract_param_names
  event_defs [] = []
  event_defs (other_item b ∷ items) = event_defs items
  event_defs (method attrs func ∷ items) = with_def func (described attrs) (event_defs items)

  -- The method under `#[digest]`, with what `#[enqueue]` puts before it where enqueue is on.
  unfoldable pub by_macros : SourcedArgs → EventAttr X → Function T B → Generated T X B
  unfolding digest_macro enqueue_macro
  by_macros args event func =
      let digested : Generated T X B =
        digest_macro
          (record {
            entity_field = args.entity_field;
            event_name = event.event_name;
            guard = event.guard;
            version = event.version;
          })
          func in
      elim args.enqueue [
        | none ↦ digested
        | some emitter ↦
            let enqueued : Generated T X B =
              enqueue_macro
                (record {
                  emitter_field = emitter;
                  entity_field = args.entity_field;
                  event_name = event.event_name;
                  guard = none;
                })
                (record func { stmts = [] }) in
            record digested {
              block = record digested.block {
                statements = enqueued.block.statements ++ digested.block.statements;
              };
            }
      ]

  abbrev pub item_of :
      SourcedArgs → List (Attribute X) → Function T B → Option (EventAttr X) → ExpandedItem T X B
  unfolding others by_macros
  item_of args attrs func none = untouched (method attrs func)
  item_of args attrs func (some e) = event_method (others attrs) (by_macros args e func)

  -- An item of the impl block: a method with an attribute `event` goes through the macros.
  unfoldable pub item_by_macros : SourcedArgs → ImplItem T X B → ExpandedItem T X B
  unfolding by_macros described others
  item_by_macros args (other_item b) = untouched (other_item b)
  item_by_macros args (method attrs func) = item_of args attrs func (described attrs)

  pub event_method_of-by_macros :
      (args : SourcedArgs) (enqueue : Option String) (e : EventAttr X) (func : Function T B)
      → event_method_of (record args { enqueue = enqueue }) e func
        ≡ by_macros (record args { enqueue = enqueue }) e func
  unfolding event_method_of by_macros digest_macro enqueue_macro wrap_body_with_guard
  event_method_of-by_macros args none e func = rw (extract_param_names-types func.inputs) refl
  event_method_of-by_macros args (some emitter) e func =
      rw (extract_param_names-types func.inputs) refl
