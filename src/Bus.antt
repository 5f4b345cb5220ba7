-- ===== src/Bus.antt =====
-- src/bus/publisher.rs and sender.rs: the events of the bus, and what a worker asks of a bus.
pub mod InMemoryQueue
use sourced_rust.Prelude.{String, Option, none, some, List, [], ◌∷◌, ◌++◌, Outcome}
use sourced_rust.Prelude.HashMap
use sourced_rust.Bitcode.{Bytes}

pub record Event : Type 0 where
  pub id : String
  pub event_type : String
  pub payload : Bytes
  pub metadata : Option (List (String × String))

-- `Event::new`
unfoldable pub new_event : String → String → Bytes → Event
new_event id event_type payload = record {
  id = id;
  event_type = event_type;
  payload = payload;
  metadata = none;
}

unfoldable pub with_metadata : Event → String → String → Event
with_metadata event key value = record event {
  metadata = elim event.metadata [
    | none ↦ some ((key, value) ∷ [])
    | some m ↦ some (m ++ (key, value) ∷ [])
  ];
}

-- `event.meta(key)`: the first pair with the key, as in a map of pairs.
unfoldable pub event_meta : Event → String → Option String
event_meta event key = elim event.metadata [ none ↦ none | some m ↦ HashMap.get key m ]

pub data PublishError : Type 0 where
  connection_failed serialization_failed rejected other : String → PublishError
  timeout : PublishError

-- The traits `Publisher` and `Sender`, over the state of the bus behind the handle.
pub record Bus (P : Type 0) : Type 0 where
  pub publish : P → Event → Outcome PublishError (Unit {0}) × P
  pub send : P → String → Event → Outcome PublishError (Unit {0}) × P
