-- ===== src/Outbox/Recording.antt =====
-- src/outbox/message.rs: the event that a guarded method records, and its replay.
use sourced_rust.Prelude.{
  ℕ, ◌+◌, ◌≡◌, refl, ◌∙◌, ap, ◌⊎◌, inl, inr, String, true, false, [], ◌∷◌, ◌++◌, length, arith,
  Bool-cases, ok, if_false, if_true,
}
use sourced_rust.Bitcode.{Codec, IsLossless}
use sourced_rust.Entity.{Entity, EventRecord, digest, digest_empty, push_event, stamp, new_record}
use sourced_rust.Outbox.{
  OutboxMessage, OutboxCodecs, claim, complete, release, fail, is_pending, is_in_flight, can_fail,
  replay_event, decoded,
}
use sourced_rust.Outbox.Machine.{OutboxCommand, claims, completes, releases, fails, outbox_step}

-- What the crate's codecs promise.
pub record AreLossless (codecs : OutboxCodecs) : Type 0 where
  pub created : IsLossless codecs.created
  pub claimed : IsLossless codecs.claimed
  pub text : IsLossless codecs.text

-- The message as a replay at `now` on the entity `e` makes it.
abbrev pub seen : OutboxMessage → Entity → ℕ → OutboxMessage
seen m e now = record m { entity = e; created_at = now }

-- The record that `digest` pushes.
abbrev pub pushed : {T : Type 0} → Codec T → Entity → ℕ → String → T → EventRecord
pushed codec e now name payload =
    stamp e (new_record name (codec.serialize payload) (length e.events + 1) now)

pub pushed_lem :
    {T : Type 0} (codec : Codec T) (e : Entity) (now : ℕ) (name : String) (payload : T)
    → ((pushed codec e now name payload).event_name ≡ name)
      × ((pushed codec e now name payload).payload ≡ codec.serialize payload)
unfolding stamp new_record
pushed_lem codec e now name payload = ground arith

pub digest-records :
    {T : Type 0} (codec : Codec T) (e : Entity) (now : ℕ) (name : String) (payload : T)
    → e.replaying ≡ false
    → ((digest codec e now name payload).events ≡ e.events ++ pushed codec e now name payload ∷ [])
      × ((digest codec e now name payload).replaying ≡ false)
      × ((digest codec e now name payload).id ≡ e.id)
unfolding digest push_event
digest-records codec e now name payload h = rw h (refl, refl, refl)

pub digest-replaying :
    {T : Type 0} (codec : Codec T) (e : Entity) (now : ℕ) (name : String) (payload : T)
    → e.replaying ≡ true
    → digest codec e now name payload ≡ e
unfolding digest
digest-replaying codec e now name payload h = rw h refl

module _ (codecs : OutboxCodecs) (m : OutboxMessage) where
  claim-seen :
      (e : Entity) (now then : ℕ) (w : String) (t : ℕ)
      → e.replaying ≡ true
      → claim codecs (seen m e then) then w t ≡ seen (claim codecs m now w t) e then
  unfolding claim
  claim-seen e now then w t h = elim (Bool-cases (is_pending m)) [
    | inl p ↦ rw (p, digest-replaying codecs.claimed e then "MessageClaimed" (w, t) h) refl
    | inr p ↦ rw p refl
  ]

  complete-seen :
      (e : Entity) (now then : ℕ)
      → e.replaying ≡ true
      → complete codecs (seen m e then) then ≡ seen (complete codecs m now) e then
  unfolding complete digest_empty
  complete-seen e now then h = elim (Bool-cases (is_in_flight m)) [
    | inl p ↦ rw (p, digest-replaying codecs.unit e then "MessagePublished" tt h) refl
    | inr p ↦ rw p refl
  ]

  release-seen :
      (e : Entity) (now then : ℕ) (error : String)
      → e.replaying ≡ true
      → release codecs (seen m e then) then error ≡ seen (release codecs m now error) e then
  unfolding release
  release-seen e now then error h = elim (Bool-cases (is_in_flight m)) [
    | inl p ↦ rw (p, digest-replaying codecs.text e then "MessageReleased" error h) refl
    | inr p ↦ rw p refl
  ]

  fail-seen :
      (e : Entity) (now then : ℕ) (error : String)
      → e.replaying ≡ true
      → fail codecs (seen m e then) then error ≡ seen (fail codecs m now error) e then
  unfolding fail
  fail-seen e now then error h = elim (Bool-cases (can_fail m)) [
    | inl p ↦ rw (p, digest-replaying codecs.text e then "MessageFailed" error h) refl
    | inr p ↦ rw p refl
  ]

-- A call recorded nothing and changed nothing, or recorded one event whose replay does the same.
pub record Recorded (codecs : OutboxCodecs) (m m' : OutboxMessage) (r : EventRecord) : Type 0 where
  pub events : m'.entity.events ≡ m.entity.events ++ r ∷ []
  pub records : m'.entity.replaying ≡ false
  pub id : m'.entity.id ≡ m.entity.id
  pub replays :
      (e : Entity) (then : ℕ)
      → e.replaying ≡ true
      → replay_event codecs then r (seen m e then) ≡ ok (seen m' e then)

-- A method that pushed one event, which replays as the method did.
digested :
    {T : Type 0} (codecs : OutboxCodecs) (codec : Codec T) (m m' : OutboxMessage) (now : ℕ)
    (name : String) (payload : T)
    → m.entity.replaying ≡ false
    → m'.entity ≡ digest codec m.entity now name payload
    → ((r : EventRecord)
        → r.event_name ≡ name
        → r.payload ≡ codec.serialize payload
        → (e : Entity) (then : ℕ) → e.replaying ≡ true
        → replay_event codecs then r (seen m e then) ≡ ok (seen m' e then))
    → (r : EventRecord) × Recorded codecs m m' r
digested codecs codec m m' now name payload h entity replays =
    let r = pushed codec m.entity now name payload in
    let (named, bytes) = pushed_lem codec m.entity now name payload in
    let (events, records, id) = digest-records codec m.entity now name payload h in
    (
      r,
      record {
        events = ap (λ e. e.events) entity ∙ events;
        records = ap (λ e. e.replaying) entity ∙ records;
        id = ap (λ e. e.id) entity ∙ id;
        replays = replays r named bytes;
      },
    )

abbrev pub Does : OutboxCodecs → OutboxMessage → OutboxMessage → Type 0
Does codecs m m' = (m' ≡ m) ⊎ ((r : EventRecord) × Recorded codecs m m' r)

module _ (codecs : OutboxCodecs) (lossless : AreLossless codecs) (m : OutboxMessage) (now : ℕ)
    (h : m.entity.replaying ≡ false) where
  claim-Does : (w : String) (t : ℕ) → Does codecs m (claim codecs m now w t)
  unfolding claim replay_event
  claim-Does w t = elim (Bool-cases (is_pending m)) [
    | inr p ↦ inl (if_false (is_pending m) _ m p)
    | inl p ↦ inr (
        digested codecs codecs.claimed m (claim codecs m now w t) now "MessageClaimed" (w, t) h
          (ap (λ x. x.entity) (if_true (is_pending m) _ m p))
          λ r named bytes e then k.
            rw (named, bytes, lossless.claimed (w, t), decoded)
              (ap ok (claim-seen codecs m e now then w t k)))
  ]

  complete-Does : Does codecs m (complete codecs m now)
  unfolding complete replay_event digest_empty
  complete-Does = elim (Bool-cases (is_in_flight m)) [
    | inr p ↦ inl (if_false (is_in_flight m) _ m p)
    | inl p ↦ inr (
        digested codecs codecs.unit m (complete codecs m now) now "MessagePublished" tt h
          (ap (λ x. x.entity) (if_true (is_in_flight m) _ m p))
          λ r named bytes e then k. rw (named) (ap ok (complete-seen codecs m e now then k)))
  ]

  release-Does : (error : String) → Does codecs m (release codecs m now error)
  unfolding release replay_event
  release-Does error = elim (Bool-cases (is_in_flight m)) [
    | inr p ↦ inl (if_false (is_in_flight m) _ m p)
    | inl p ↦ inr (
        digested codecs codecs.text m (release codecs m now error) now "MessageReleased" error h
          (ap (λ x. x.entity) (if_true (is_in_flight m) _ m p))
          λ r named bytes e then k.
            rw (named, bytes, lossless.text error, decoded)
              (ap ok (release-seen codecs m e now then error k)))
  ]

  fail-Does : (error : String) → Does codecs m (fail codecs m now error)
  unfolding fail replay_event
  fail-Does error = elim (Bool-cases (can_fail m)) [
    | inr p ↦ inl (if_false (can_fail m) _ m p)
    | inl p ↦ inr (
        digested codecs codecs.text m (fail codecs m now error) now "MessageFailed" error h
          (ap (λ x. x.entity) (if_true (can_fail m) _ m p))
          λ r named bytes e then k.
            rw (named, bytes, lossless.text error, decoded)
              (ap ok (fail-seen codecs m e now then error k)))
  ]

  pub outbox_step-Does : (c : OutboxCommand) → Does codecs m (outbox_step codecs m now c)
  unfolding outbox_step
  outbox_step-Does (claims w t) = claim-Does w t
  outbox_step-Does completes = complete-Does
  outbox_step-Does (releases error) = release-Does error
  outbox_step-Does (fails error) = fail-Does error
