-- ===== src/Macros/Agreement.antt =====
-- sourced_rust_macros/src/lib.rs: `#[sourced]` against `aggregate!` and `#[digest]`.
use sourced_rust.Prelude.{
  String, Option, none, some, List, [], ◌∷◌, map, ◌≡◌, refl, ap, sym, ◌∙◌, subst, unwrap_or,
}
use sourced_rust.Macros.Arguments.{SourcedArgs, EventAttr, ◌>>=◌}
use sourced_rust.Macros.{
  Function, Attribute, ReplayArm, extract_param_names, aggregate_arm, aggregate_macro,
  find_and_remove_event_attr,
}
use sourced_rust.Macros.Sourced.{
  EventMethodInfo, ImplItem, method, other_item, ExpandedItem, event_method, untouched, Expansion,
  last_segment, expand_items, replay_arm, method_info, event_method_of, expansion, sourced,
}
use sourced_rust.Macros.Describing.{
  extract_param_names-types, aggregate_arm-event_def, described, others,
  find_and_remove_event_attr-others, find_and_remove_event_attr-described, with_def, event_defs,
  item_of, item_by_macros, event_method_of-by_macros,
}

bind-some :
    {A B : Type 0} (m : Option A) (f : A → Option B) (y : B)
    → (m >>= f) ≡ some y
    → (a : A) × (m ≡ some a) × (f a ≡ some y)
bind-some none f y h = cc h
bind-some (some a) f y h = (a, refl, h)

module _ {T X B : Type 0} (args : SourcedArgs) where
  -- What the loop over the items makes, if it succeeds.
  record Agrees (items : List (ImplItem T X B))
      (made : List (ExpandedItem T X B) × List (EventMethodInfo T)) : Type 0 where
    block : made.0 ≡ map (item_by_macros args) items
    arms : map replay_arm made.1 ≡ map aggregate_arm (event_defs items)

  -- The last step for a method, by what its attributes say.
  abbrev made_of :
      List (Attribute X)
      → Function T B
      → List (ExpandedItem T X B) × List (EventMethodInfo T)
      → Option (EventAttr X)
      → List (ExpandedItem T X B) × List (EventMethodInfo T)
  made_of attrs func (out, infos) none = (untouched (method attrs func) ∷ out, infos)
  made_of attrs func (out, infos) (some e) = (
    event_method (find_and_remove_event_attr attrs).1 (event_method_of args e func) ∷ out,
    method_info e func ∷ infos,
  )

  made_of-Agrees :
      (attrs : List (Attribute X)) (func : Function T B) (items : List (ImplItem T X B))
      (made : List (ExpandedItem T X B) × List (EventMethodInfo T)) (o : Option (EventAttr X))
      → o ≡ described attrs
      → Agrees items made
      → Agrees (method attrs func ∷ items) (made_of attrs func made o)
  unfolding event_defs item_by_macros method_info replay_arm
  made_of-Agrees attrs func items made none h a = record {
    block =
        ap (λ out. untouched (method attrs func) ∷ out) a.block
        ∙ ap (λ o. item_of args attrs func o ∷ map (item_by_macros args) items) h;
    arms = a.arms ∙ ap (λ o. map aggregate_arm (with_def func o (event_defs items))) h;
  }
  made_of-Agrees attrs func items made (some e) h a =
      let rest = map (item_by_macros args) items in
      let arm : List String → ReplayArm = λ names. record {
        event_name = e.event_name;
        bound = names;
        method_name = func.name;
        passed = names;
      } in
      record {
        block =
            ap
              (λ out.
                event_method (find_and_remove_event_attr attrs).1 (event_method_of args e func)
                ∷ out)
              a.block
            ∙ ap (λ as'. event_method as' (event_method_of args e func) ∷ rest)
                (find_and_remove_event_attr-others attrs)
            ∙ ap (λ g. event_method (others attrs) g ∷ rest)
                (event_method_of-by_macros args args.enqueue e func)
            ∙ ap (λ o. item_of args attrs func o ∷ rest) h;
        arms =
            ap (λ names. arm names ∷ map replay_arm made.1) (extract_param_names-types func.inputs)
            ∙ ap (λ arms. arm (extract_param_names func.inputs) ∷ arms) a.arms
            ∙ ap (λ x. x ∷ map aggregate_arm (event_defs items))
                (sym (
                  aggregate_arm-event_def e.event_name func.name (extract_param_names func.inputs)))
            ∙ ap (λ o. map aggregate_arm (with_def func o (event_defs items))) h;
      }

  made_of-finish :
      (attrs : List (Attribute X)) (func : Function T B)
      (rest made : List (ExpandedItem T X B) × List (EventMethodInfo T)) (o : Option (EventAttr X))
      → (elim o [
        | none ↦ some (untouched (method attrs func) ∷ rest.0, rest.1)
        | some e ↦ some (
          event_method (find_and_remove_event_attr attrs).1 (event_method_of args e func) ∷ rest.0,
          method_info e func ∷ rest.1,
        )
      ])
        ≡ some made
      → made_of attrs func rest o ≡ made
  made_of-finish attrs func rest made none h = cc h
  made_of-finish attrs func rest made (some e) h = cc h

  expand_items-Agrees :
      (items : List (ImplItem T X B)) (made : List (ExpandedItem T X B) × List (EventMethodInfo T))
      → expand_items args items ≡ some made
      → Agrees items made
  unfolding expand_items event_defs item_by_macros
  expand_items-Agrees [] made h =
      let same : ([], []) ≡ made = cc h in
      subst (Agrees []) same (record { block = refl; arms = refl })
  expand_items-Agrees (other_item b ∷ items) made h =
      let finish : List (ExpandedItem T X B) × List (EventMethodInfo T)
          → Option (List (ExpandedItem T X B) × List (EventMethodInfo T)) =
        λ (out, infos). some (untouched (other_item b) ∷ out, infos) in
      let (rest, eq, h₁) = bind-some (expand_items args items) finish made h in
      let a = expand_items-Agrees items rest eq in
      let same : (untouched (other_item b) ∷ rest.0, rest.1) ≡ made = cc h₁ in
      subst (Agrees (other_item b ∷ items)) same
        (record { block = ap (λ out. untouched (other_item b) ∷ out) a.block; arms = a.arms })
  expand_items-Agrees (method attrs func ∷ items) made h =
      let finish : Option (EventAttr X)
          → List (ExpandedItem T X B) × List (EventMethodInfo T)
          → Option (List (ExpandedItem T X B) × List (EventMethodInfo T)) =
        λ o (out, infos). elim o [
          | none ↦ some (untouched (method attrs func) ∷ out, infos)
          | some e ↦ some (
            event_method (find_and_remove_event_attr attrs).1 (event_method_of args e func) ∷ out,
            method_info e func ∷ infos,
          )
        ] in
      let (o, found, h₁) =
        bind-some (find_and_remove_event_attr attrs).0 (λ o. expand_items args items >>= finish o)
          made h in
      let (rest, eq, h₂) = bind-some (expand_items args items) (finish o) made h₁ in
      let said = find_and_remove_event_attr-described attrs o found in
      let a = made_of-Agrees attrs func items rest o said (expand_items-Agrees items rest eq) in
      subst (Agrees (method attrs func ∷ items)) (made_of-finish attrs func rest made o h₂) a

-- If `#[sourced]` succeeds on an impl block, then its `impl Aggregate` is the one that `aggregate!` makes
-- of the block's event methods: an event for each method with an attribute `event`, in their order, named
-- by that attribute, with the names of the method's parameters as arguments of the event and of the call.
-- And its impl block is the given one, where each of these methods is as `#[digest]` makes it, behind
-- what `#[enqueue]` puts before the digest where enqueue is on, without the attribute; nothing else changes.
pub sourced-aggregate_macro :
    {T X B : Type 0} (args : SourcedArgs) (self_ty : List String) (items : List (ImplItem T X B))
    (x : Expansion T X B)
    → sourced args self_ty items ≡ some x
    → (x.aggregate_impl
        ≡ aggregate_macro (record {
          agg_name = unwrap_or (last_segment self_ty) "";
          entity_field = args.entity_field;
          events = event_defs items;
          upcasters = args.upcasters;
        }))
      × (x.impl_block ≡ map (item_by_macros args) items)
unfolding sourced expansion aggregate_macro
sourced-aggregate_macro {T = T} {X = X} {B = B} args self_ty items x h =
    let finish : String
        → List (ExpandedItem T X B) × List (EventMethodInfo T)
        → Option (Expansion T X B) =
      λ s (out, infos). some (expansion args s out infos) in
    let (struct_name, named, h₁) =
      bind-some (last_segment self_ty) (λ s. expand_items args items >>= finish s) x h in
    let (made, eq, h₂) = bind-some (expand_items args items) (finish struct_name) x h₁ in
    let a = expand_items-Agrees args items made eq in
    let same : expansion args struct_name made.0 made.1 ≡ x = cc h₂ in
    (
      ap (λ y. y.aggregate_impl) (sym same) ∙ rw (named, a.arms) refl,
      ap (λ y. y.impl_block) (sym same) ∙ a.block,
    )
