-- ===== src/Entity.antt =====
-- src/entity/entity.rs: the event history that a domain struct embeds. `now` is the reading of the
-- system clock that the call makes. What serde skips (`replaying`, `committed_version`, `metadata`)
-- are fields like the others, for the in-memory stores never serialize an entity.
mod Record
pub mod Upcaster
pub mod Commands
pub mod WellFormed
pub mod History
pub use Record.{EventRecord, meta, correlation_id, causation_id}
unfoldable pub use Record.{new_versioned, new_record, record_with_metadata, decode}
use sourced_rust.Prelude.{
  ℕ, ◌+◌, String, Bool, true, false, Option, none, some, List, [], ◌∷◌, ◌++◌, length, drop, ltb,
  is_empty, if◌then◌else◌, Outcome, ok, err, panic, hang,
}
use sourced_rust.Prelude.HashMap
use sourced_rust.Prelude.HashMap.{HashMap}
use sourced_rust.Bitcode.{Codec}

pub record Entity : Type 0 where
  pub id : String
  pub version : ℕ
  pub events : List EventRecord
  pub replaying : Bool
  pub snapshot_version : ℕ
  pub committed_version : ℕ
  pub timestamp : ℕ
  pub metadata : HashMap String

unfoldable pub new : ℕ → Entity
new now = record {
  id = "";
  version = 0;
  events = [];
  replaying = false;
  snapshot_version = 0;
  committed_version = 0;
  timestamp = now;
  metadata = [];
}

unfoldable pub set_id : Entity → String → Entity
set_id e id = record e { id = id }

unfoldable pub with_id : String → ℕ → Entity
unfolding new
with_id id now = record (new now) { id = id }

unfoldable pub set_snapshot_version : Entity → ℕ → Entity
set_snapshot_version e v = record e { snapshot_version = v }

unfoldable pub set_replaying : Entity → Bool → Entity
set_replaying e b = record e { replaying = b }

-- `&self.events[self.committed_version as usize..]`: the slice panics past the end, and `none` is
-- that panic.
unfoldable pub new_events : Entity → Option (List EventRecord)
new_events e =
    if ltb (length e.events) e.committed_version
    then none
    else some (drop e.committed_version e.events)

unfoldable pub mark_committed : Entity → Entity
mark_committed e = record e { committed_version = e.version }

unfoldable pub set_metadata : Entity → HashMap String → Entity
set_metadata e m = record e { metadata = m }

unfoldable pub set_meta : Entity → String → String → Entity
set_meta e key value = record e { metadata = HashMap.insert key value e.metadata }

unfoldable pub set_correlation_id : Entity → String → Entity
unfolding set_meta
set_correlation_id e id = set_meta e "correlation_id" id

unfoldable pub set_causation_id : Entity → String → Entity
unfolding set_meta
set_causation_id e id = set_meta e "causation_id" id

unfoldable pub clear_metadata : Entity → Entity
clear_metadata e = record e { metadata = [] }

-- The record that `digest` and `digest_v` push: the entity's metadata goes along unless it is empty.
unfoldable pub stamp : Entity → EventRecord → EventRecord
stamp e r = if is_empty e.metadata then r else record r { metadata = e.metadata }

unfoldable pub push_event : Entity → EventRecord → ℕ → Entity
push_event e r now = record e {
  events = e.events ++ r ∷ [];
  version = length e.events + 1;
  timestamp = now;
}

module _ {T : Type 0} (codec : Codec T) where
  unfoldable pub digest_v : Entity → ℕ → String → ℕ → T → Entity
  unfolding new_versioned stamp push_event
  digest_v e now name version payload =
      if e.replaying
      then e
      else (let bytes = codec.serialize payload in
          let sequence = length e.events + 1 in
          push_event e (stamp e (new_versioned name bytes sequence version now)) now)

  unfoldable pub digest : Entity → ℕ → String → T → Entity
  unfolding new_record stamp push_event
  digest e now name payload =
      if e.replaying
      then e
      else (let bytes = codec.serialize payload in
          let sequence = length e.events + 1 in
          push_event e (stamp e (new_record name bytes sequence now)) now)

  -- Replaces all events by one snapshot event; `committed_version` stays as it was.
  unfoldable pub set_snapshot : Entity → ℕ → T → Entity
  unfolding new_record
  set_snapshot e now payload =
      let bytes = codec.serialize payload in
      record e { events = new_record "Snapshot" bytes 1 now ∷ []; version = 1; timestamp = now }

unfoldable pub digest_empty : Codec (Unit {0}) → Entity → ℕ → String → Entity
unfolding digest
digest_empty codec e now name = digest codec e now name tt

unfoldable pub load_from_history : Entity → List EventRecord → Entity
load_from_history e history = record e {
  events = history;
  version = length history;
  committed_version = length history;
}

-- `for event in &self.events { apply(event)?; }`, over what the closure captures.
module _ {S E : Type 0} (apply : EventRecord → S → Outcome E (Unit {0}) × S) where
  unfoldable pub apply_all : List EventRecord → S → Outcome E (Unit {0}) × S
  apply_all [] s = (ok tt, s)
  apply_all (event ∷ events) s =
      let (r, s') = apply event s in
      elim r [
        | ok _ ↦ apply_all events s'
        | err e ↦ (err e, s')
        | panic ↦ (panic, s')
        | hang ↦ (hang, s')
      ]

  -- The guard sets `replaying`, and clears it on every way out, an unwinding panic included.
  unfoldable pub rehydrate : Entity → S → Outcome E (Unit {0}) × Entity × S
  unfolding apply_all
  rehydrate e s = let (r, s') = apply_all e.events s in (r, record e { replaying = false }, s')
