-- ===== src/Outbox/Machine.antt =====
-- src/outbox/message.rs: the statuses of a message as a step relation.
use sourced_rust.Prelude.{
  ℕ, ◌+◌, ◌≡◌, refl, String, Bool, true, false, Option, none, some, List, [], ◌∷◌, length, is_some,
  wrap_u32, arith, length-append, if_cases,
}
use sourced_rust.Bitcode.{Bytes, Codec}
use sourced_rust.Entity.{Entity, digest, digest_empty, push_event, stamp, new_record, set_id, new}
use sourced_rust.Outbox.{
  OutboxMessage, OutboxMessageStatus, pending, in_flight, published, failed, OutboxCodecs, claim,
  complete, release, fail, is_in_flight, create, initialize, default_message,
}

-- The guarded methods, as data.
pub data OutboxCommand : Type 0 where
  claims : String → ℕ → OutboxCommand
  completes : OutboxCommand
  releases : String → OutboxCommand
  fails : String → OutboxCommand

module _ (codecs : OutboxCodecs) where
  unfoldable pub outbox_step : OutboxMessage → ℕ → OutboxCommand → OutboxMessage
  outbox_step m now (claims worker_id until_secs) = claim codecs m now worker_id until_secs
  outbox_step m now completes = complete codecs m now
  outbox_step m now (releases error) = release codecs m now error
  outbox_step m now (fails error) = fail codecs m now error

  unfoldable pub outbox_run : OutboxMessage → List (ℕ × OutboxCommand) → OutboxMessage
  outbox_run m [] = m
  outbox_run m ((now, c) ∷ cs) = outbox_run (outbox_step m now c) cs

-- The life of a message, apart from its data: nothing leaves `published` and `failed`, a message is
-- claimed only while it is pending, and it is completed or released only in flight.
pub record Life : Type 0 where
  pub status : OutboxMessageStatus
  pub recorded : ℕ
  pub claims : ℕ

abbrev pub next_status : OutboxMessageStatus → OutboxCommand → Option OutboxMessageStatus
next_status pending (claims w t) = some in_flight
next_status pending (fails e) = some failed
next_status in_flight completes = some published
next_status in_flight (releases e) = some pending
next_status in_flight (fails e) = some failed
next_status _ _ = none

abbrev is_claim : OutboxCommand → ℕ
is_claim (claims w t) = 1
is_claim _ = 0

pub life_step : Life → OutboxCommand → Life
life_step l c = elim (next_status l.status c) [
  | none ↦ l
  | some s ↦ record { status = s; recorded = l.recorded + 1; claims = l.claims + is_claim c }
]

pub life_run : Life → List OutboxCommand → Life
life_run l [] = l
life_run l (c ∷ cs) = life_run (life_step l c) cs

abbrev holds_lease : OutboxMessageStatus → Bool
holds_lease in_flight = true
holds_lease _ = false

-- A message that lives a life: a lease and a worker are there just while it is in flight.
pub record Lives (m : OutboxMessage) (l : Life) : Type 0 where
  pub status : m.status ≡ l.status
  pub recorded : length m.entity.events ≡ l.recorded
  pub attempts : m.attempts ≡ wrap_u32 l.claims
  pub worker : is_some m.worker_id ≡ holds_lease l.status
  pub leased : is_some m.leased_until ≡ holds_lease l.status
  pub records : m.entity.replaying ≡ false

digest-length :
    {T : Type 0} (codec : Codec T) (e : Entity) (now : ℕ) (name : String) (payload : T)
    → e.replaying ≡ false
    → (length (digest codec e now name payload).events ≡ length e.events + 1)
      × ((digest codec e now name payload).replaying ≡ false)
unfolding digest push_event
digest-length codec e now name payload h =
    let r = stamp e (new_record name (codec.serialize payload) (length e.events + 1) now) in
    ground (arith, h, length-append e.events (r ∷ []))

module _ (codecs : OutboxCodecs) (m : OutboxMessage) (now : ℕ) where
  claim-Lives :
      (l : Life) (w : String) (t : ℕ)
      → Lives m l
      → Lives (claim codecs m now w t) (life_step l (claims w t))
  unfolding life_step claim
  claim-Lives l w t h =
      let d = digest-length codecs.claimed m.entity now "MessageClaimed" (w, t) h.records in
      record {
        status = ground (arith, h.status);
        recorded = ground (arith, h.status, h.recorded, d);
        attempts = ground (arith, h.status, h.attempts);
        worker = ground (arith, h.status, h.worker);
        leased = ground (arith, h.status, h.leased);
        records = ground (arith, h.status, h.records, d);
      }

  complete-Lives : (l : Life) → Lives m l → Lives (complete codecs m now) (life_step l completes)
  unfolding life_step complete digest_empty
  complete-Lives l h =
      let d = digest-length codecs.unit m.entity now "MessagePublished" tt h.records in
      record {
        status = ground (arith, h.status);
        recorded = ground (arith, h.status, h.recorded, d);
        attempts = ground (arith, h.status, h.attempts);
        worker =
            if_cases
              (λ (x : OutboxMessage).
                is_some x.worker_id ≡ holds_lease (life_step l completes).status)
              (is_in_flight m) _ _ (λ p. ground (arith, h.status, p))
              (λ p. ground (arith, h.status, p, h.worker));
        leased =
            if_cases
              (λ (x : OutboxMessage).
                is_some x.leased_until ≡ holds_lease (life_step l completes).status)
              (is_in_flight m) _ _ (λ p. ground (arith, h.status, p))
              (λ p. ground (arith, h.status, p, h.leased));
        records = ground (arith, h.status, h.records, d);
      }

  release-Lives :
      (l : Life) (e : String)
      → Lives m l
      → Lives (release codecs m now e) (life_step l (releases e))
  unfolding life_step release
  release-Lives l e h =
      let d = digest-length codecs.text m.entity now "MessageReleased" e h.records in
      record {
        status = ground (arith, h.status);
        recorded = ground (arith, h.status, h.recorded, d);
        attempts = ground (arith, h.status, h.attempts);
        worker =
            if_cases
              (λ (x : OutboxMessage).
                is_some x.worker_id ≡ holds_lease (life_step l (releases e)).status)
              (is_in_flight m) _ _ (λ p. ground (arith, h.status, p))
              (λ p. ground (arith, h.status, p, h.worker));
        leased =
            if_cases
              (λ (x : OutboxMessage).
                is_some x.leased_until ≡ holds_lease (life_step l (releases e)).status)
              (is_in_flight m) _ _ (λ p. ground (arith, h.status, p))
              (λ p. ground (arith, h.status, p, h.leased));
        records = ground (arith, h.status, h.records, d);
      }

  fail-Lives :
      (l : Life) (e : String) → Lives m l → Lives (fail codecs m now e) (life_step l (fails e))
  unfolding life_step fail
  fail-Lives l e h =
      let d = digest-length codecs.text m.entity now "MessageFailed" e h.records in
      record {
        status = ground (arith, h.status);
        recorded = ground (arith, h.status, h.recorded, d);
        attempts = ground (arith, h.status, h.attempts);
        worker = ground (arith, h.status, h.worker);
        leased = ground (arith, h.status, h.leased);
        records = ground (arith, h.status, h.records, d);
      }

  outbox_step-Lives :
      (l : Life) (c : OutboxCommand)
      → Lives m l
      → Lives (outbox_step codecs m now c) (life_step l c)
  unfolding outbox_step
  outbox_step-Lives l (claims w t) h = claim-Lives l w t h
  outbox_step-Lives l completes h = complete-Lives l h
  outbox_step-Lives l (releases e) h = release-Lives l e h
  outbox_step-Lives l (fails e) h = fail-Lives l e h

abbrev pub commands : List (ℕ × OutboxCommand) → List OutboxCommand
commands [] = []
commands ((now, c) ∷ cs) = c ∷ commands cs

-- A message that is not replaying refines the life of its status: after any calls of the guarded
-- methods its status is the one that the table of moves gives (so nothing leaves `published` and
-- `failed`), it recorded one event for each call that moved it and none for the others, it counted
-- its claims modulo 2^32, and it has a worker and a lease just while it is in flight.
pub outbox_run-Lives :
    (codecs : OutboxCodecs) (m : OutboxMessage) (l : Life) (cs : List (ℕ × OutboxCommand))
    → Lives m l
    → Lives (outbox_run codecs m cs) (life_run l (commands cs))
unfolding outbox_run life_run
outbox_run-Lives codecs m l [] h = h
outbox_run-Lives codecs m l ((now, c) ∷ cs) h =
    outbox_run-Lives codecs (outbox_step codecs m now c) (life_step l c) cs
      (outbox_step-Lives codecs m now l c h)

-- A new message lives a life that begins with one event, pending and unclaimed.
pub create-Lives :
    (codecs : OutboxCodecs) (now : ℕ) (id event_type : String) (payload : Bytes)
    → Lives
        (create codecs now id event_type payload)
        (record { status = pending; recorded = 1; claims = 0 })
unfolding create initialize default_message new set_id
create-Lives codecs now id event_type payload =
    let d =
      digest-length codecs.created (new now) now "MessageCreated"
        (id, event_type, payload, none, []) refl in
    record {
      status = refl;
      recorded = d.0;
      attempts = refl;
      worker = refl;
      leased = refl;
      records = d.1;
    }
