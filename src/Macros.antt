-- ===== src/Macros.antt =====
-- sourced_rust_macros/src/lib.rs: the code that the macros generate, as data. Of the syntax of Rust that
-- the crate syn reads, types `T`, expressions `X` and statements `B` are parameters.
pub mod Arguments
pub mod Sourced
pub mod Reading
pub mod Describing
pub mod Agreement
pub mod Running
pub mod Recording
pub mod Replaying
pub mod Snapshots
pub mod Copying
pub mod Restoring
use sourced_rust.Prelude.{
  ℕ, String, Bool, Option, none, some, List, [], ◌∷◌, ◌++◌, map, is_empty, str_eq, if◌then◌else◌,
}
use sourced_rust.Macros.Arguments.{
  Token, UpcasterDef, DigestArgs, EnqueueArgs, EventDef, AggregateInput, SourcedArgs, EventAttr,
  parse_event_args, whole, ◌>>=◌,
}

-- `self`, a parameter that is an identifier, or another pattern.
pub data FnArg (T : Type 0) : Type 0 where
  receiver : FnArg T
  typed_ident : String → T → FnArg T
  typed_other : T → FnArg T

unfoldable pub extract_param_names : {T : Type 0} → List (FnArg T) → List String
extract_param_names [] = []
extract_param_names (receiver ∷ inputs) = extract_param_names inputs
extract_param_names (typed_ident name ty ∷ inputs) = name ∷ extract_param_names inputs
extract_param_names (typed_other ty ∷ inputs) = extract_param_names inputs

unfoldable pub extract_params_with_types : {T : Type 0} → List (FnArg T) → List (String × T)
extract_params_with_types [] = []
extract_params_with_types (receiver ∷ inputs) = extract_params_with_types inputs
extract_params_with_types (typed_ident name ty ∷ inputs) =
    (name, ty) ∷ extract_params_with_types inputs
extract_params_with_types (typed_other ty ∷ inputs) = extract_params_with_types inputs

-- `self.emitter.enqueue(event, "")`, and `enqueue_with` of a tuple of clones.
pub data EnqueueCall : Type 0 where
  enqueue_text : String → String → EnqueueCall
  enqueue_tuple : String → String → List String → EnqueueCall

-- A statement of a generated body. A digest names the entity field and the event; its tuple is that of
-- the clones of the parameters, and the empty one is `()`.
pub data Statement (B : Type 0) : Type 0 where
  digest_call : String → String → List String → Statement B
  digest_v_call : String → String → ℕ → List String → Statement B
  digest_empty_call : String → String → Statement B
  unless_replaying : String → EnqueueCall → Statement B
  original : B → Statement B

-- The statements, under an `if` where there is a guard.
pub record Block (X B : Type 0) : Type 0 where
  pub guard : Option X
  pub statements : List (Statement B)

unfoldable pub generate_digest_call :
    {B : Type 0} → String → String → List String → Option ℕ → Statement B
generate_digest_call entity_field event_name param_names (some version) =
    digest_v_call entity_field event_name version param_names
generate_digest_call entity_field event_name param_names none =
    if is_empty param_names
    then digest_empty_call entity_field event_name
    else digest_call entity_field event_name param_names

unfoldable pub wrap_body_with_guard :
    {X B : Type 0} → Option X → List (Statement B) → List B → Block X B
wrap_body_with_guard guard prepend stmts = record {
  guard = guard;
  statements = prepend ++ map original stmts;
}

unfoldable pub generate_enqueue_call :
    {B : Type 0} → String → String → String → List String → Statement B
generate_enqueue_call entity_field emitter_field event_name param_names =
    unless_replaying entity_field (
      if is_empty param_names
      then enqueue_text emitter_field event_name
      else enqueue_tuple emitter_field event_name param_names)

-- `ItemFn`, with the statements of its block, and what a macro makes of it.
pub record Function (T B : Type 0) : Type 0 where
  pub name : String
  pub inputs : List (FnArg T)
  pub stmts : List B

pub record Generated (T X B : Type 0) : Type 0 where
  pub name : String
  pub inputs : List (FnArg T)
  pub block : Block X B

-- `#[enqueue(..)]`
unfoldable pub enqueue_macro : {T X B : Type 0} → EnqueueArgs X → Function T B → Generated T X B
unfolding extract_param_names generate_enqueue_call wrap_body_with_guard
enqueue_macro args func = record {
  name = func.name;
  inputs = func.inputs;
  block =
      wrap_body_with_guard args.guard
        (generate_enqueue_call args.entity_field args.emitter_field args.event_name
            (extract_param_names func.inputs)
          ∷ [])
        func.stmts;
}

-- `#[digest(..)]`
unfoldable pub digest_macro : {T X B : Type 0} → DigestArgs X → Function T B → Generated T X B
unfolding extract_param_names generate_digest_call wrap_body_with_guard
digest_macro args func = record {
  name = func.name;
  inputs = func.inputs;
  block =
      wrap_body_with_guard args.guard
        (generate_digest_call args.entity_field args.event_name (extract_param_names func.inputs)
            args.version
          ∷ [])
        func.stmts;
}

-- An arm of the generated `replay_event`: it decodes the payload into the bound names, unless there are
-- none, and passes names on to the method.
pub record ReplayArm : Type 0 where
  pub event_name : String
  pub bound : List String
  pub method_name : String
  pub passed : List String

-- `impl Aggregate`, with the fallback arm for an unknown event.
pub record AggregateImpl : Type 0 where
  pub struct_name : String
  pub entity_field : String
  pub replay_arms : List ReplayArm
  pub upcasters : List UpcasterDef

abbrev pub arm : EventDef → List String → List String → ReplayArm
arm evt bound passed = record {
  event_name = evt.event_name;
  bound = bound;
  method_name = evt.method_name;
  passed = passed;
}

unfoldable pub call_args : EventDef → List String
call_args evt = elim evt.method_args [ some method_args ↦ method_args | none ↦ evt.args ]

-- A payload of one value is bound to one name, and the first argument of the call is passed.
unfoldable pub aggregate_arm : EventDef → ReplayArm
unfolding call_args
aggregate_arm evt = elim (evt.args) [
  | [] ↦ arm evt [] []
  | a ∷ [] ↦ elim (call_args evt) [ [] ↦ arm evt [] [] | c ∷ cs ↦ arm evt (a ∷ []) (c ∷ []) ]
  | a ∷ b ∷ as' ↦ elim (call_args evt) [
    | [] ↦ arm evt [] []
    | c ∷ cs ↦ arm evt (a ∷ b ∷ as') (c ∷ cs)
  ]
]

unfoldable pub aggregate_macro : AggregateInput → AggregateImpl
unfolding aggregate_arm
aggregate_macro input = record {
  struct_name = input.agg_name;
  entity_field = input.entity_field;
  replay_arms = map aggregate_arm input.events;
  upcasters = input.upcasters;
}

pub record Attribute (X : Type 0) : Type 0 where
  pub path : String
  pub tokens : List (Token X)

-- The first attribute `event`, parsed, and the others.
unfoldable pub find_and_remove_event_attr :
    {X : Type 0} → List (Attribute X) → Option (Option (EventAttr X)) × List (Attribute X)
unfolding parse_event_args whole
find_and_remove_event_attr [] = (some none, [])
find_and_remove_event_attr (attr ∷ attrs) =
    let (found, rest) = find_and_remove_event_attr attrs in
    if str_eq attr.path "event"
    then (whole parse_event_args attr.tokens >>= (λ event. some (some event)), attrs)
    else (found, attr ∷ rest)
