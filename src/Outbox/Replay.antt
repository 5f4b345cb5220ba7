-- ===== src/Outbox/Replay.antt =====
-- src/outbox/message.rs: what `hydrate` makes of the events that a message recorded.
use sourced_rust.Prelude.{
  ℕ, ◌≡◌, refl, sym, subst, ◌∙◌, ap, inl, inr, String, true, false, Option, List, [], ◌∷◌, ok,
}
use sourced_rust.Prelude.HashMap.{HashMap}
use sourced_rust.Bitcode.{Bytes}
use sourced_rust.Entity.{
  Entity, EventRecord, digest, push_event, set_id, set_replaying, load_from_history, new,
}
use sourced_rust.Aggregate.{replay_all, replay_flagged, current_events, hydrate}
use sourced_rust.HashMapRepo.{load}
use sourced_rust.Aggregate.Replaying.{replay_all-snoc}
use sourced_rust.Outbox.{
  OutboxMessage, OutboxCodecs, initialize, default_message, Created, normalize_id, replay_event,
  decoded, outbox_aggregate,
}
use sourced_rust.Outbox.Machine.{OutboxCommand, outbox_step, outbox_run}
use sourced_rust.Outbox.Recording.{
  AreLossless, seen, pushed, pushed_lem, digest-replaying, outbox_step-Does,
}

-- The replay of a message's events, on an entity with its identifier, makes the message again.
abbrev pub Replays : OutboxCodecs → Entity → ℕ → OutboxMessage → Type 0
Replays codecs e then m =
    (m.entity.replaying ≡ false)
    × (replay_all (outbox_aggregate codecs) then m.entity.events (seen (default_message then) e 0)
        ≡ ok (seen m e then))

module _ (codecs : OutboxCodecs) (lossless : AreLossless codecs) (e : Entity) (then : ℕ)
    (k : e.replaying ≡ true) where
  pub step-Replays :
      (m : OutboxMessage) (now : ℕ) (c : OutboxCommand)
      → Replays codecs e then m
      → Replays codecs e then (outbox_step codecs m now c)
  unfolding outbox_aggregate
  step-Replays m now c h = elim (outbox_step-Does codecs lossless m now h.0 c) [
    | inl idle ↦ subst (Replays codecs e then) (sym idle) h
    | inr (r, rec) ↦ (
      rec.records,
      rw rec.events (
          replay_all-snoc (outbox_aggregate codecs) then m.entity.events r _ _ _ h.1
            (rec.replays e then k)),
    )
  ]

  run-Replays :
      (m : OutboxMessage) (cs : List (ℕ × OutboxCommand))
      → Replays codecs e then m
      → Replays codecs e then (outbox_run codecs m cs)
  unfolding outbox_run
  run-Replays m [] h = h
  run-Replays m ((now, c) ∷ cs) h =
      run-Replays (outbox_step codecs m now c) cs (step-Replays m now c h)

pub hydrate-Replays :
    (codecs : OutboxCodecs) (m : OutboxMessage) (fuel then : ℕ)
    → Replays codecs (set_replaying (load then m.entity.id m.entity.events) true) then m
    → hydrate (outbox_aggregate codecs) fuel then (load then m.entity.id m.entity.events)
      ≡ ok (seen m (load then m.entity.id m.entity.events) then)
unfolding hydrate replay_flagged current_events outbox_aggregate load load_from_history set_id
    set_replaying new default_message
hydrate-Replays codecs m fuel then h = rw h.1 refl

outbox_run-id :
    (codecs : OutboxCodecs) (lossless : AreLossless codecs) (m : OutboxMessage)
    (cs : List (ℕ × OutboxCommand))
    → m.entity.replaying ≡ false
    → (outbox_run codecs m cs).entity.id ≡ m.entity.id
unfolding outbox_run
outbox_run-id codecs lossless m [] h = refl
outbox_run-id codecs lossless m ((now, c) ∷ cs) h =
    elim (outbox_step-Does codecs lossless m now h c) [
      | inl idle ↦
          outbox_run-id codecs lossless (outbox_step codecs m now c) cs (rw idle h)
          ∙ ap (λ x. x.entity.id) idle
      | inr (r, rec) ↦
          outbox_run-id codecs lossless (outbox_step codecs m now c) cs rec.records ∙ rec.id
    ]

module _ (codecs : OutboxCodecs) (lossless : AreLossless codecs) (now : ℕ) (id event_type : String)
    (payload : Bytes) (destination : Option String) (metadata : HashMap String) where
  abbrev pub fresh : OutboxMessage
  fresh = initialize codecs (default_message now) now id event_type payload destination metadata

  abbrev pub args : Created
  args = (id, event_type, payload, destination, metadata)

  initialize-seen :
      (e : Entity) (then : ℕ)
      → e.replaying ≡ true
      → e.id ≡ normalize_id id
      → initialize codecs
          (seen (default_message then) e 0)
          then
          id
          event_type
          payload
          destination
          metadata
        ≡ seen fresh e then
  unfolding initialize default_message set_id
  initialize-seen e then k i =
      ap (λ x. record (seen fresh e then) { entity = x })
        (ap (λ x. set_id x (normalize_id id))
            (digest-replaying codecs.created e then "MessageCreated" args k)
          ∙ ap (set_id e) (sym i))

  initialize-replay :
      (e : Entity) (then : ℕ) (r : EventRecord)
      → e.replaying ≡ true
      → e.id ≡ normalize_id id
      → r.event_name ≡ "MessageCreated"
      → r.payload ≡ codecs.created.serialize args
      → replay_event codecs then r (seen (default_message then) e 0) ≡ ok (seen fresh e then)
  unfolding replay_event
  initialize-replay e then r k i named bytes =
      rw (named, bytes, lossless.created args, decoded) (ap ok (initialize-seen e then k i))

  pub initialize-Replays :
      (e : Entity) (then : ℕ)
      → e.replaying ≡ true
      → e.id ≡ normalize_id id
      → Replays codecs e then fresh
  unfolding initialize outbox_aggregate replay_all default_message new set_id digest push_event
  initialize-Replays e then k i =
      let r = pushed codecs.created (new now) now "MessageCreated" args in
      let (named, bytes) = pushed_lem codecs.created (new now) now "MessageCreated" args in
      let start = seen (default_message then) e 0 in
      (
        refl,
        replay_all-snoc (outbox_aggregate codecs) then [] r start start (seen fresh e then) refl
            (initialize-replay e then r k i named bytes),
      )

  fresh_records : fresh.entity.replaying ≡ false
  unfolding initialize set_id digest push_event default_message new
  fresh_records = refl

  initialize-id : fresh.entity.id ≡ normalize_id id
  unfolding initialize set_id
  initialize-id = refl

  -- If the codecs lose nothing, then a message that was made by `initialize` on a default message and
  -- went through any calls of its guarded methods is found again by hydrating an entity with its
  -- identifier and its events: every field is the same, but for `created_at`, which is the time of
  -- the hydration, and the entity, which is the loaded one.
  pub hydrate-outbox_run :
      (m : OutboxMessage) (cs : List (ℕ × OutboxCommand)) (fuel then : ℕ)
      → m ≡ outbox_run codecs fresh cs
      → hydrate (outbox_aggregate codecs) fuel then (load then m.entity.id m.entity.events)
        ≡ ok (seen m (load then m.entity.id m.entity.events) then)
  unfolding load load_from_history set_id set_replaying
  hydrate-outbox_run m cs fuel then h =
      let e = set_replaying (load then m.entity.id m.entity.events) true in
      let named =
        ap (λ x. x.entity.id) h
        ∙ outbox_run-id codecs lossless fresh cs fresh_records
        ∙ initialize-id in
      hydrate-Replays codecs m fuel then (
        subst (Replays codecs e then) (sym h)
          (run-Replays codecs lossless e then refl fresh cs (initialize-Replays e then refl named)))
