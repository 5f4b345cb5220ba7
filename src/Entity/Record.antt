-- ===== src/Entity/Record.antt =====
-- src/entity/event_record.rs: one immutable event.
use sourced_rust.Prelude.{ℕ, String, Option, []}
use sourced_rust.Prelude.HashMap
use sourced_rust.Prelude.HashMap.{HashMap}
use sourced_rust.Bitcode.{Bytes, Codec}

pub record EventRecord : Type 0 where
  pub event_name : String
  pub payload : Bytes
  pub event_version : ℕ
  pub sequence : ℕ
  pub timestamp : ℕ
  pub metadata : HashMap String

-- `EventRecord::new`
unfoldable pub new_record : String → Bytes → ℕ → ℕ → EventRecord
new_record name payload sequence now = record {
  event_name = name;
  payload = payload;
  event_version = 1;
  sequence = sequence;
  timestamp = now;
  metadata = [];
}

unfoldable pub new_versioned : String → Bytes → ℕ → ℕ → ℕ → EventRecord
new_versioned name payload sequence version now = record {
  event_name = name;
  payload = payload;
  event_version = version;
  sequence = sequence;
  timestamp = now;
  metadata = [];
}

-- `EventRecord::with_metadata`
unfoldable pub record_with_metadata : String → Bytes → ℕ → HashMap String → ℕ → EventRecord
record_with_metadata name payload sequence metadata now = record {
  event_name = name;
  payload = payload;
  event_version = 1;
  sequence = sequence;
  timestamp = now;
  metadata = metadata;
}

unfoldable pub decode {ℓ} : {T : Type ℓ} → Codec T → EventRecord → Option T
decode codec r = codec.deserialize r.payload

pub meta : EventRecord → String → Option String
meta r key = HashMap.get key r.metadata

pub correlation_id : EventRecord → Option String
correlation_id r = meta r "correlation_id"

pub causation_id : EventRecord → Option String
causation_id r = meta r "causation_id"
