-- ===== src/OutboxWorker/Taking.antt =====
-- src/outbox_worker/repository_ext.rs: a message that the loop claims, and one pass of the loop.
use sourced_rust.Prelude.{
  ℕ, ◌+◌, ◌/◌, ◌≡◌, refl, ap, sym, ◌∙◌, subst, inl, inr, String, true, false, some, none, List, [],
  ◌∷◌, leb, starts_with, if_true, if_false, Outcome, ok, ◌>>=◌, arith,
}
use sourced_rust.Entity.{EventRecord, set_id, new, load_from_history}
use sourced_rust.Repository.{RepositoryError}
use sourced_rust.HashMapRepo.{Storage, load}
use sourced_rust.Outbox.{
  OutboxMessage, in_flight, OutboxCodecs, claim, claim_for, second, is_pending, is_in_flight,
  id_prefix,
}
use sourced_rust.Outbox.Machine.{claims, outbox_step}
use sourced_rust.Outbox.Recording.{AreLossless, digest-records}
use sourced_rust.Outbox.Replay.{step-Replays}
use sourced_rust.OutboxWorker.Contents.{content}
use sourced_rust.OutboxWorker.Readable.{IsReadable, IsOutboxStore, found, load_message-found}
use sourced_rust.OutboxWorker.{committed, claim_loop}
use sourced_rust.Prelude.HashMap
use sourced_rust.Prelude.HashMap.{IsMap}
use sourced_rust.OutboxWorker.Entries.{Flown, Differ, Flown-cons}

-- A message that a worker holds.
abbrev pub IsHeld : String → OutboxMessage → Type 0
IsHeld worker m = (m.status ≡ in_flight) × (m.worker_id ≡ some worker)

module _ (codecs : OutboxCodecs) (lossless : AreLossless codecs) (now lease : ℕ)
    (worker : String) where
  -- The claimed message, as the loop makes it.
  abbrev pub taken :
      {id : String} {events : List EventRecord} → IsReadable codecs id events → OutboxMessage
  taken r = claim_for codecs (found codecs r now) now worker lease

  pub taken-IsHeld :
      {id : String} {events : List EventRecord} (r : IsReadable codecs id events)
      → is_pending r.message ≡ true
      → (IsHeld worker (taken r)) × ((taken r).entity.id ≡ id)
  unfolding claim_for claim load load_from_history set_id new
  taken-IsHeld {id} {events} r p =
      let m = found codecs r now in
      let until = (now + lease) / second in
      let go = if_true (is_pending m) _ m p in
      (
        (ap (λ x. x.status) go, ap (λ x. x.worker_id) go),
        ap (λ x. x.entity.id) go
            ∙ (digest-records codecs.claimed m.entity now "MessageClaimed" (worker, until) refl).2
            ∙ r.same_id,
      )

  pub taken-content :
      {id : String} {events : List EventRecord} (r : IsReadable codecs id events)
      → is_pending r.message ≡ true
      → content (taken r) ≡ content r.message
  unfolding claim_for claim load load_from_history set_id new
  taken-content {id} {events} r p =
      let m = found codecs r now in
      let go = if_true (is_pending m) _ m p in
      ap content go
      ∙ ap
          (λ i. record {
            id = i;
            event_type = m.event_type;
            payload = m.payload;
            destination = m.destination;
            metadata = m.metadata;
          })
          (digest-records codecs.claimed m.entity now "MessageClaimed"
            (worker, (now + lease) / second) refl).2

  unfoldable pub taken_readable :
      {id : String} {events : List EventRecord} (r : IsReadable codecs id events)
      → is_pending r.message ≡ true
      → IsReadable codecs id (taken r).entity.events
  unfolding claim_for outbox_step load set_id load_from_history new
  taken_readable r p = record {
    message = taken r;
    same_id = (taken-IsHeld r p).1;
    same_events = refl;
    replays = λ e later k i.
        step-Replays codecs lossless e later k (found codecs r now) now
          (claims worker ((now + lease) / second)) (refl, (r.replays e later k i).1);
  }

  pub taken-flags :
      {id : String} {events : List EventRecord} (r : IsReadable codecs id events)
      → is_pending r.message ≡ true
      → (is_pending (taken r) ≡ false)
        × (is_in_flight (taken r) ≡ true)
        × (is_in_flight r.message ≡ false)
  taken-flags r p = ground (arith, p, (taken-IsHeld r p).0.0)

  pub taken-Flown :
      (id : String) (events : List EventRecord) (prefix : starts_with id id_prefix ≡ true)
      (r : IsReadable codecs id events) (p : is_pending r.message ≡ true) (storage : Storage)
      (h : IsOutboxStore codecs storage) (ms : List OutboxMessage)
      → HashMap.get id storage ≡ none
      → Flown codecs storage h ms
      → Flown codecs
          ((id, (taken r).entity.events) ∷ storage)
          (inr (prefix, taken_readable r p), h)
          (committed codecs (taken r) ∷ ms)
  unfolding taken_readable claim_loop
  taken-Flown id events prefix r p storage h ms e f =
      let (g, d) =
        Flown-cons codecs id (taken r).entity.events storage (inr (prefix, taken_readable r p), h)
          ms e f in
      (
        inl (refl, (taken-IsHeld r p).0.0),
        subst (λ i. Differ codecs i ms) (sym (taken-IsHeld r p).1) d,
        g,
      )

  module _ (max n : ℕ) (id : String) (events : List EventRecord) (storage : Storage)
      (prefix : starts_with id id_prefix ≡ true) (r : IsReadable codecs id events) where
    abbrev whole : Outcome RepositoryError (List OutboxMessage) × Storage
    whole = claim_loop codecs now worker lease max n ((id, events) ∷ storage)

    abbrev rest : ℕ → Outcome RepositoryError (List OutboxMessage) × Storage
    rest k = claim_loop codecs now worker lease max k storage

    pub last_one :
        is_pending r.message ≡ true
        → leb max (n + 1) ≡ true
        → whole ≡ (ok (committed codecs (taken r) ∷ []), (id, (taken r).entity.events) ∷ storage)
    unfolding claim_loop
    last_one p l =
        rw (prefix, load_message-found codecs now id events r, claim_loop)
          (if_true _ _ _ p ∙ if_true _ _ _ l)

    pub one_more :
        is_pending r.message ≡ true
        → leb max (n + 1) ≡ false
        → whole ≡ (
          (rest (n + 1)).0 >>= λ ms. ok (committed codecs (taken r) ∷ ms),
          (id, (taken r).entity.events) ∷ (rest (n + 1)).1,
        )
    unfolding claim_loop
    one_more p l =
        rw (prefix, load_message-found codecs now id events r, claim_loop)
          (if_true _ _ _ p ∙ if_false _ _ _ l)

    pub stops :
        is_pending r.message ≡ false → leb max n ≡ true → whole ≡ (ok [], (id, events) ∷ storage)
    unfolding claim_loop
    stops p l =
        rw (prefix, load_message-found codecs now id events r, claim_loop)
          (if_false _ _ _ p ∙ if_true _ _ _ l)

    pub goes_on :
        is_pending r.message ≡ false
        → leb max n ≡ false
        → whole ≡ ((rest n).0, (id, events) ∷ (rest n).1)
    unfolding claim_loop
    goes_on p l =
        rw (prefix, load_message-found codecs now id events r, claim_loop)
          (if_false _ _ _ p ∙ if_false _ _ _ l)
