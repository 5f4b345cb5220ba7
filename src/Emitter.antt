-- ===== src/Emitter.antt =====
-- src/emitter/entity_ext.rs, with src/entity/local_event.rs: events that an entity queues while it is
-- not replaying, and that are emitted after a commit.
pub mod Emitting
use sourced_rust.Prelude.{
  String, Bool, true, false, Option, List, [], ◌∷◌, ◌++◌, length, ℕ, unwrap_or, if◌then◌else◌,
}
use sourced_rust.Entity.{Entity, new, set_replaying}

-- `text` is the field `data` of the source.
pub record LocalEvent : Type 0 where
  pub event_type : String
  pub text : String

-- The crate event_emitter_rs: `E` is its `EventEmitter`, with what its listeners were called on, and
-- `L` the closures that it takes.
pub record EmitterOps (E L : Type 0) : Type 0 where
  pub new_emitter : E
  pub add_listener : E → String → L → E
  pub call_listeners : E → String → String → E

pub record EntityEmitter (E : Type 0) : Type 0 where
  pub entity : Entity
  pub event_emitter : E
  pub events_to_emit : List LocalEvent

module _ {E L : Type 0} (ops : EmitterOps E L) where
  -- `EntityEmitter::new`, which is also `with_emitter`.
  unfoldable pub new_entity_emitter : Entity → EntityEmitter E
  new_entity_emitter entity = record {
    entity = entity;
    event_emitter = ops.new_emitter;
    events_to_emit = [];
  }

  unfoldable pub on_event : EntityEmitter E → String → L → EntityEmitter E
  on_event m event listener = record m {
    event_emitter = ops.add_listener m.event_emitter event listener;
  }

  unfoldable pub emit : EntityEmitter E → String → String → EntityEmitter E
  emit m event text = record m { event_emitter = ops.call_listeners m.event_emitter event text }

  -- `for event in events { self.emit(..) }`
  unfoldable pub emit_each : EntityEmitter E → List LocalEvent → EntityEmitter E
  unfolding emit
  emit_each m [] = m
  emit_each m (e ∷ es) = emit_each (emit m e.event_type e.text) es

  unfoldable pub emit_queued : EntityEmitter E → EntityEmitter E
  unfolding emit_each
  emit_queued m = emit_each (record m { events_to_emit = [] }) m.events_to_emit

module _ {E : Type 0} where
  unfoldable pub enqueue : EntityEmitter E → String → String → EntityEmitter E
  enqueue m event_type text = if m.entity.replaying then m else record m {
    events_to_emit = m.events_to_emit ++ record { event_type = event_type; text = text } ∷ [];
  }

  -- `serde_json::to_string(payload)` is a parameter, `none` where it fails.
  unfoldable pub enqueue_with :
      {P : Type 0} → (P → Option String) → EntityEmitter E → String → P → EntityEmitter E
  enqueue_with to_json m event_type payload = if m.entity.replaying then m else record m {
    events_to_emit =
        m.events_to_emit
        ++ record { event_type = event_type; text = unwrap_or (to_json payload) "" } ∷ [];
  }

  unfoldable pub drain_queued_events : EntityEmitter E → List LocalEvent × EntityEmitter E
  drain_queued_events m = (m.events_to_emit, record m { events_to_emit = [] })

  unfoldable pub set_emitter_replaying : EntityEmitter E → Bool → EntityEmitter E
  unfolding set_replaying
  set_emitter_replaying m replaying = record m { entity = set_replaying m.entity replaying }

  unfoldable pub queued_len : EntityEmitter E → ℕ
  queued_len m = length m.events_to_emit
