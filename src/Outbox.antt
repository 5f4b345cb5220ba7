-- ===== src/Outbox.antt =====
-- src/outbox/message.rs and commit.rs, with what `#[digest(.., when = ..)]` and `aggregate!`
-- (sourced_rust_macros/src/lib.rs) make of them: a guarded method tests, records its event, and
-- then does its body. Times are nanoseconds since the epoch, without the platform's upper bound.
pub mod Machine
pub mod Recording
pub mod Replay
use Prim.Native.String.{◌++◌ as text_append}
use sourced_rust.Prelude.{
  ℕ, ◌+◌, ◌*◌, ◌/◌, ◌^◌, String, Bool, true, false, not, ◌&&◌, Option, none, some, List, [], ◌∷◌,
  str_eq, starts_with, wrap_u32, if◌then◌else◌, Outcome, ok, err, is_empty,
}
use sourced_rust.Prelude.HashMap
use sourced_rust.Prelude.HashMap.{HashMap}
use sourced_rust.Bitcode.{Bytes, Codec}
use sourced_rust.Entity.{EventRecord, Entity, new, set_id, digest, digest_empty}
use sourced_rust.Repository.{RepositoryError, Repository}
use sourced_rust.Aggregate.{Aggregate}

pub data OutboxMessageStatus : Type 0 where
  pending in_flight published failed : OutboxMessageStatus

pub record OutboxMessage : Type 0 where
  pub entity : Entity
  pub event_type : String
  pub payload : Bytes
  pub status : OutboxMessageStatus
  pub created_at : ℕ
  pub attempts : ℕ
  pub last_error : Option String
  pub worker_id : Option String
  pub leased_until : Option ℕ
  pub destination : Option String
  pub metadata : HashMap String

abbrev pub Created : Type 0
Created = String × String × Bytes × Option String × HashMap String

-- The crate's codecs for the tuples that the events carry, and the text of its decoding error.
pub record OutboxCodecs : Type 0 where
  pub created : Codec Created
  pub claimed : Codec (String × ℕ)
  pub text : Codec String
  pub unit : Codec (Unit {0})
  pub decode_error : String

-- `OutboxMessage::default`
unfoldable pub default_message : ℕ → OutboxMessage
unfolding new
default_message now = record {
  entity = new now;
  event_type = "";
  payload = [];
  status = pending;
  created_at = 0;
  attempts = 0;
  last_error = none;
  worker_id = none;
  leased_until = none;
  destination = none;
  metadata = [];
}

abbrev pub id_prefix : String
id_prefix = "outbox:"

unfoldable pub normalize_id : String → String
normalize_id id = if starts_with id id_prefix then id else text_append id_prefix id

abbrev pub is_pending : OutboxMessage → Bool
is_pending m = elim m.status [ pending ↦ true | _ ↦ false ]

abbrev pub is_in_flight : OutboxMessage → Bool
is_in_flight m = elim m.status [ in_flight ↦ true | _ ↦ false ]

abbrev pub is_published : OutboxMessage → Bool
is_published m = elim m.status [ published ↦ true | _ ↦ false ]

abbrev pub is_failed : OutboxMessage → Bool
is_failed m = elim m.status [ failed ↦ true | _ ↦ false ]

abbrev pub can_fail : OutboxMessage → Bool
can_fail m = not (is_published m) && not (is_failed m)

abbrev pub second : ℕ
second = 10 ^ 9

-- `if error.is_empty() { None } else { Some(error) }`
abbrev pub error_text : String → Option String
error_text error = if str_eq error "" then none else some error

module _ (codecs : OutboxCodecs) where
  unfoldable pub initialize :
      OutboxMessage → ℕ → String → String → Bytes → Option String → HashMap String → OutboxMessage
  unfolding normalize_id set_id digest
  initialize m now id event_type payload destination metadata = record m {
    entity =
        set_id
          (digest codecs.created m.entity now "MessageCreated"
            (id, event_type, payload, destination, metadata))
          (normalize_id id);
    event_type = event_type;
    payload = payload;
    destination = destination;
    metadata = metadata;
    status = pending;
    created_at = now;
  }

  unfoldable pub claim : OutboxMessage → ℕ → String → ℕ → OutboxMessage
  unfolding digest
  claim m now worker_id until_secs =
      if is_pending m
      then record m {
        entity = digest codecs.claimed m.entity now "MessageClaimed" (worker_id, until_secs);
        status = in_flight;
        attempts = wrap_u32 (m.attempts + 1);
        worker_id = some worker_id;
        leased_until = some (until_secs * second);
      }
      else m

  unfoldable pub claim_for : OutboxMessage → ℕ → String → ℕ → OutboxMessage
  unfolding claim
  claim_for m now worker_id lease = claim m now worker_id ((now + lease) / second)

  unfoldable pub complete : OutboxMessage → ℕ → OutboxMessage
  unfolding digest_empty
  complete m now =
      if is_in_flight m
      then record m {
        entity = digest_empty codecs.unit m.entity now "MessagePublished";
        status = published;
        worker_id = none;
        leased_until = none;
      }
      else m

  unfoldable pub release : OutboxMessage → ℕ → String → OutboxMessage
  unfolding digest
  release m now error =
      if is_in_flight m
      then record m {
        entity = digest codecs.text m.entity now "MessageReleased" error;
        status = pending;
        last_error = error_text error;
        worker_id = none;
        leased_until = none;
      }
      else m

  unfoldable pub fail : OutboxMessage → ℕ → String → OutboxMessage
  unfolding digest
  fail m now error =
      if can_fail m
      then record m {
        entity = digest codecs.text m.entity now "MessageFailed" error;
        status = failed;
        last_error = error_text error;
        worker_id = none;
        leased_until = none;
      }
      else m

  -- `OutboxMessage::create` and `create_to`, and `create_with_metadata`.
  unfoldable pub create : ℕ → String → String → Bytes → OutboxMessage
  unfolding default_message initialize
  create now id event_type payload =
      initialize (default_message now) now id event_type payload none []

  unfoldable pub create_to : ℕ → String → String → String → Bytes → OutboxMessage
  unfolding default_message initialize
  create_to now id event_type destination payload =
      initialize (default_message now) now id event_type payload (some destination) []

  unfoldable pub create_with_metadata : ℕ → String → String → Bytes → HashMap String → OutboxMessage
  unfolding default_message initialize
  create_with_metadata now id event_type payload metadata =
      initialize (default_message now) now id event_type payload none metadata

  -- `let (..) = event.decode().map_err(|e| e.to_string())?;` and the call of the method.
  abbrev pub decoded :
      {T : Type 0} → Codec T → EventRecord → (T → OutboxMessage) → Outcome String OutboxMessage
  decoded codec event method = elim (codec.deserialize event.payload) [
    | none ↦ err codecs.decode_error
    | some args ↦ ok (method args)
  ]

  -- The `match event.event_name.as_str()` that `aggregate!` makes.
  unfoldable pub replay_event : ℕ → EventRecord → OutboxMessage → Outcome String OutboxMessage
  unfolding initialize claim complete release fail
  replay_event now event m =
      if str_eq event.event_name "MessageCreated"
      then decoded codecs.created event (λ (id, event_type, payload, destination, metadata).
        initialize m now id event_type payload destination metadata)
      else if str_eq event.event_name "MessageClaimed"
      then decoded codecs.claimed event
          (λ (worker_id, until_secs). claim m now worker_id until_secs)
      else if str_eq event.event_name "MessagePublished"
      then ok (complete m now)
      else if str_eq event.event_name "MessageReleased"
      then decoded codecs.text event (λ error. release m now error)
      else if str_eq event.event_name "MessageFailed"
      then decoded codecs.text event (λ error. fail m now error)
      else err (text_append "Unknown event: " event.event_name)

  -- `impl Aggregate for OutboxMessage`
  unfoldable pub outbox_aggregate : Aggregate OutboxMessage
  unfolding default_message replay_event
  outbox_aggregate = record {
    new_empty = default_message;
    entity = λ m. m.entity;
    set_entity = λ m e. record m { entity = e };
    replay_event = replay_event;
    upcasters = [];
  }

unfoldable pub set_meta : OutboxMessage → String → String → OutboxMessage
set_meta m key value = record m { metadata = HashMap.insert key value m.metadata }

-- `OutboxCommit::commit`: one commit of the aggregate's entity and the message's.
unfoldable pub commit_with_outbox :
    {S A : Type 0}
    → Repository S
    → Aggregate A
    → S
    → A
    → OutboxMessage
    → Outcome RepositoryError (Unit {0}) × S × A × OutboxMessage
commit_with_outbox repo agg s a m =
    let (r, s', es) = repo.commit s (agg.entity a ∷ m.entity ∷ []) in
    elim es [
      | e ∷ e' ∷ rest ↦ (r, s', agg.set_entity a e, record m { entity = e' })
      | _ ↦ (r, s', a, m)
    ]
