-- ===== src/Macros/Sourced.antt =====
-- sourced_rust_macros/src/lib.rs: the attribute macro `#[sourced]`.
use Prim.Native.String.{◌++◌ as text_append}
use sourced_rust.Prelude.{String, Option, none, some, List, [], ◌∷◌, ◌++◌, map}
use sourced_rust.Macros.Arguments.{SourcedArgs, EventAttr, ◌>>=◌}
use sourced_rust.Macros.{
  Function, Generated, Statement, Attribute, ReplayArm, AggregateImpl, extract_params_with_types,
  generate_enqueue_call, generate_digest_call, wrap_body_with_guard, find_and_remove_event_attr,
}

pub record EventMethodInfo (T : Type 0) : Type 0 where
  pub event_name : String
  pub method_name : String
  pub params : List (String × T)

pub data ImplItem (T X B : Type 0) : Type 0 where
  method : List (Attribute X) → Function T B → ImplItem T X B
  other_item : B → ImplItem T X B

pub data ExpandedItem (T X B : Type 0) : Type 0 where
  event_method : List (Attribute X) → Generated T X B → ExpandedItem T X B
  untouched : ImplItem T X B → ExpandedItem T X B

module _ {T X B : Type 0} where
  -- An event method: enqueue where it is on, then digest, then the statements; under the guard.
  unfoldable pub event_method_of : SourcedArgs → EventAttr X → Function T B → Generated T X B
  unfolding extract_params_with_types generate_enqueue_call generate_digest_call
      wrap_body_with_guard
  event_method_of args event func =
      let names = map (λ p. p.0) (extract_params_with_types func.inputs) in
      let enqueue : List (Statement B) = elim args.enqueue [
        | none ↦ []
        | some emitter ↦ generate_enqueue_call args.entity_field emitter event.event_name names ∷ []
      ] in
      let digest = generate_digest_call args.entity_field event.event_name names event.version in
      record {
        name = func.name;
        inputs = func.inputs;
        block = wrap_body_with_guard event.guard (enqueue ++ digest ∷ []) func.stmts;
      }

  unfoldable pub method_info : EventAttr X → Function T B → EventMethodInfo T
  unfolding extract_params_with_types
  method_info event func = record {
    event_name = event.event_name;
    method_name = func.name;
    params = extract_params_with_types func.inputs;
  }

  -- `for item in &mut impl_block.items`, which an error of an attribute ends.
  unfoldable pub expand_items :
      SourcedArgs
      → List (ImplItem T X B)
      → Option (List (ExpandedItem T X B) × List (EventMethodInfo T))
  unfolding find_and_remove_event_attr event_method_of method_info
  expand_items args [] = some ([], [])
  expand_items args (other_item b ∷ items) =
      expand_items args items >>= λ (out, infos). some (untouched (other_item b) ∷ out, infos)
  expand_items args (method attrs func ∷ items) =
      let (found, attrs') = find_and_remove_event_attr attrs in
      let rest = expand_items args items in
      found >>= λ event. rest >>= λ (out, infos). elim event [
        | none ↦ some (untouched (method attrs func) ∷ out, infos)
        | some e ↦
            some
              (event_method attrs' (event_method_of args e func) ∷ out, method_info e func ∷ infos)
      ]

-- A variant of the event enum, and an arm of its `TryFrom<&EventRecord>`, which decodes the payload into
-- the bound names, unless there are none, and makes the variant of them.
pub record Variant (T : Type 0) : Type 0 where
  pub variant_name : String
  pub fields : List (String × T)

pub record FromArm : Type 0 where
  pub event_name : String
  pub bound : List String
  pub variant_name : String

-- What `#[sourced(..)]` generates: the impl block, the enum with its two impls, and `impl Aggregate`.
pub record Expansion (T X B : Type 0) : Type 0 where
  pub impl_block : List (ExpandedItem T X B)
  pub enum_name : String
  pub variants : List (Variant T)
  pub event_name_arms : List (String × String)
  pub try_from_arms : List FromArm
  pub aggregate_impl : AggregateImpl

unfoldable pub replay_arm : {T : Type 0} → EventMethodInfo T → ReplayArm
replay_arm e =
    let names = map (λ p. p.0) e.params in
    record { event_name = e.event_name; bound = names; method_name = e.method_name; passed = names }

unfoldable pub try_from_arm : {T : Type 0} → EventMethodInfo T → FromArm
try_from_arm e = record {
  event_name = e.event_name;
  bound = map (λ p. p.0) e.params;
  variant_name = e.event_name;
}

unfoldable pub last_segment : List String → Option String
last_segment [] = none
last_segment (x ∷ []) = some x
last_segment (x ∷ y ∷ xs) = last_segment (y ∷ xs)

unfoldable pub expansion :
    {T X B : Type 0}
    → SourcedArgs
    → String
    → List (ExpandedItem T X B)
    → List (EventMethodInfo T)
    → Expansion T X B
unfolding replay_arm try_from_arm
expansion args struct_name out infos = record {
  impl_block = out;
  enum_name = elim args.enum_name [ some custom ↦ custom | none ↦ text_append struct_name "Event" ];
  variants = map (λ e. record { variant_name = e.event_name; fields = e.params }) infos;
  event_name_arms = map (λ e. (e.event_name, e.event_name)) infos;
  try_from_arms = map try_from_arm infos;
  aggregate_impl = record {
    struct_name = struct_name;
    entity_field = args.entity_field;
    replay_arms = map replay_arm infos;
    upcasters = args.upcasters;
  };
}

-- `self_ty` is the segments of its path, none where it is another type.
unfoldable pub sourced :
    {T X B : Type 0} → SourcedArgs → List String → List (ImplItem T X B) → Option (Expansion T X B)
unfolding last_segment expand_items expansion
sourced args self_ty items = do
  struct_name ← last_segment self_ty
  (out, infos) ← expand_items args items
  some (expansion args struct_name out infos)
