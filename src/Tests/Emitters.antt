-- ===== src/Tests/Emitters.antt =====
-- Inputs for src/emitter/entity_ext.rs: listeners that write down what they are called on.
use sourced_rust.Prelude.{String, true, false, Option, some, List, [], ◌∷◌}
use sourced_rust.Entity.{with_id}
use sourced_rust.Emitter.{EmitterOps, EntityEmitter, new_entity_emitter, enqueue}
use sourced_rust.Emitter.Emitting.{
  EmitterCall, enqueues, enqueues_with, sets_replaying, drains, emits_queued, Departure,
  run_emitter, Departs, run_emitter-Departs,
}

abbrev recorder : EmitterOps (List (String × String)) (Unit {0})
recorder = record {
  new_emitter = [];
  add_listener = λ calls event listener. calls;
  call_listeners = λ calls event text. (event, text) ∷ calls;
}

-- A payload of one text goes into its JSON array.
abbrev to_json : String → Option String
to_json text = some text

abbrev waiting : EntityEmitter (List (String × String))
waiting = enqueue (new_entity_emitter recorder (with_id "todo-1" 5)) "Created" "todo-1"

abbrev calls : List (EmitterCall String)
calls =
    sets_replaying true
    ∷ enqueues "Completed" "todo-1"
    ∷ sets_replaying false
    ∷ enqueues_with "Renamed" "[]"
    ∷ emits_queued
    ∷ enqueues "Deleted" "todo-1"
    ∷ drains
    ∷ []

run_emitter-Departs_example :
    let (m', drained) = run_emitter to_json recorder waiting calls in
    (ds : List Departure) × Departs to_json recorder waiting calls m' drained ds
run_emitter-Departs_example = run_emitter-Departs to_json recorder waiting calls
