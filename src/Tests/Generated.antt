-- ===== src/Tests/Generated.antt =====
-- Inputs for sourced_rust_macros/src/lib.rs: the macros on an impl block with two event methods, for the
-- aggregate that adds up numbers.
use sourced_rust.Prelude.{
  ℕ, ◌+◌, String, none, some, List, [], ◌∷◌, map, ok, unwrap_or, leb, false, ◌≡◌, refl,
}
use sourced_rust.Prelude.HashMap
use sourced_rust.Entity.{EventRecord, with_id, new, push_event}
use sourced_rust.Macros.{
  receiver, typed_ident, Function, original, extract_param_names, aggregate_macro,
}
use sourced_rust.Macros.Arguments.{
  SourcedArgs, EventAttr, lit_str, ident, comma, whole, parse_event_args, parse_digest_args,
  parse_enqueue_args,
}
use sourced_rust.Macros.Sourced.{
  Expansion, ImplItem, method, other_item, event_method_of, sourced, expansion, event_method,
  untouched, method_info,
}
use sourced_rust.Macros.Reading.{guard_tokens, keyword_tokens, parse_args-tokens}
use sourced_rust.Macros.Agreement.{sourced-aggregate_macro}
use sourced_rust.Macros.Describing.{event_defs, item_by_macros}
use sourced_rust.Macros.Running.{Runtime, bind, exec_all, call_method, run_arms}
use sourced_rust.Macros.Replaying.{EventMethod, methods_of, arms_of, call_method-replayed}
use sourced_rust.Macros.Snapshots.{snapshot_impl}
use sourced_rust.Macros.Copying.{Fields, Texts, take_snapshot, restore}
use sourced_rust.Macros.Restoring.{id_of, restore-take_snapshot}
use sourced_rust.Entity.{set_id}
use sourced_rust.Prelude.{contains, if◌then◌else◌}
use sourced_rust.Tests.Snapshots.{Total}
use sourced_rust.Tests.Entities.{todo, unit_codec}

-- A guard is a bound on the total, and the one statement adds the parameter `amount`.
abbrev sums : Runtime Total ℕ (Unit {0}) ℕ
sums = record {
  entity = λ a. a.entity;
  set_entity = λ a e. record a { entity = e };
  tuples = record { serialize = λ vs. vs; deserialize = λ bs. some bs };
  unit = unit_codec;
  decode_error = "decode";
  run = λ b scope a. record a { total = a.total + unwrap_or (HashMap.get "amount" scope) 0 };
  holds = λ bound scope a. leb a.total bound;
  enqueue = λ emitter name vs a. a;
}

abbrev options : SourcedArgs
options = record { entity_field = "entity"; enum_name = none; enqueue = none; upcasters = [] }

abbrev opened : EventMethod String ℕ (Unit {0})
opened = (
  record { event_name = "Opened"; guard = none; version = none },
  record { name = "open"; inputs = receiver ∷ []; stmts = [] },
)

abbrev added : EventAttr ℕ
added = record { event_name = "Added"; guard = some 100; version = some 2 }

abbrev add : Function String (Unit {0})
add = record { name = "add"; inputs = receiver ∷ typed_ident "amount" "u64" ∷ []; stmts = tt ∷ [] }

abbrev empty_total : Total
empty_total = record { entity = todo; total = 3 }

call_method-replayed_example :
    let m = event_method_of options added add in
    (r : EventRecord) × (call_method sums 9 m (4 ∷ []) empty_total
      ≡ exec_all sums 9
          (bind (extract_param_names add.inputs) (4 ∷ []))
          (map original add.stmts)
          (record empty_total { entity = push_event todo r 9 }))
    × ((later : ℕ) (b : Total)
        → run_arms sums later
            (methods_of options (opened ∷ (added, add) ∷ []))
            (arms_of (opened ∷ (added, add) ∷ []))
            r
            b
          ≡ ok (call_method sums later m (4 ∷ []) b))
unfolding extract_param_names with_id new
call_method-replayed_example =
    call_method-replayed sums options (opened ∷ []) [] added add (4 ∷ []) 9 empty_total refl refl
      refl (λ vs. refl) (tt, tt) refl ((λ p. cc p), tt) ((λ p. cc p), tt)

parse_args-tokens_example :
    let ts = keyword_tokens {X = ℕ} false (some 100) (some 2) in
    (whole parse_event_args (lit_str "Added" ∷ ts) ≡ some added)
    × (whole {X = ℕ} parse_digest_args (lit_str "Added" ∷ ts)
        ≡ some (record {
          entity_field = "entity";
          event_name = "Added";
          guard = some 100;
          version = some 2;
        }))
    × (whole {X = ℕ} parse_digest_args (ident "state" ∷ comma ∷ lit_str "Added" ∷ ts)
        ≡ some (record {
          entity_field = "state";
          event_name = "Added";
          guard = some 100;
          version = some 2;
        }))
    × (whole {X = ℕ} parse_enqueue_args (lit_str "Added" ∷ guard_tokens {X = ℕ} (some 100))
        ≡ some (record {
          emitter_field = "emitter";
          entity_field = "entity";
          event_name = "Added";
          guard = some 100;
        }))
    × (whole {X = ℕ} parse_enqueue_args
          (ident "state" ∷ comma ∷ lit_str "Added" ∷ guard_tokens {X = ℕ} (some 100))
        ≡ some (record {
          emitter_field = "state";
          entity_field = "entity";
          event_name = "Added";
          guard = some 100;
        }))
parse_args-tokens_example = parse_args-tokens false "state" "Added" (some 100) (some 2)

-- `#[event("Added")] fn add(&mut self, amount: u64)`, and an item that is no function.
abbrev items : List (ImplItem String ℕ (Unit {0}))
items =
    method (record { path = "event"; tokens = lit_str "Added" ∷ [] } ∷ []) add ∷ other_item tt ∷ []

abbrev plain : EventAttr ℕ
plain = record { event_name = "Added"; guard = none; version = none }

abbrev expanded : Expansion String ℕ (Unit {0})
unfolding expansion
expanded =
    expansion options "Total"
      (event_method [] (event_method_of options plain add) ∷ untouched (other_item tt) ∷ [])
      (method_info plain add ∷ [])

sourced-aggregate_macro_example :
    (expanded.aggregate_impl
      ≡ aggregate_macro (record {
        agg_name = "Total";
        entity_field = "entity";
        events = event_defs items;
        upcasters = [];
      }))
    × (expanded.impl_block ≡ map (item_by_macros options) items)
unfolding sourced
sourced-aggregate_macro_example =
    sourced-aggregate_macro options ("crate" ∷ "Total" ∷ []) items expanded refl

abbrev as_text : Texts String
as_text = record { of_text = λ s. s; to_text = λ s. s; back = λ s. refl }

-- A todo with one field that its snapshot holds and one that serde skips.
abbrev current : Fields String
current = record { entity = todo; values = ("task", "write") ∷ ("cache", "full") ∷ [] }

abbrev blank : Fields String
blank = record { entity = with_id "" 7; values = ("task", "") ∷ ("cache", "none") ∷ [] }

restore-take_snapshot_example :
    let d = snapshot_impl {T = String} "Todo" "entity" none (("task", "String") ∷ []) in
    let b' = restore as_text d (take_snapshot as_text d.field_assignments current) blank in
    ((j : String)
      → HashMap.get j b'.values ≡ (
          if contains j ("task" ∷ [])
          then HashMap.get j current.values
          else HashMap.get j blank.values))
    × (b'.entity ≡ set_id blank.entity (id_of as_text false "id" current))
unfolding HashMap.get
restore-take_snapshot_example =
    restore-take_snapshot as_text "Todo" "entity" none (("task", "String") ∷ []) current blank
      (refl, tt) refl
