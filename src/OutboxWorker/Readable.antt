-- ===== src/OutboxWorker/Readable.antt =====
-- src/outbox_worker/repository_ext.rs: maps whose outbox entries can be read, and what a query finds.
use sourced_rust.Prelude.{
  ℕ, ◌+◌, ◌≡◌, refl, ap, sym, ◌∙◌, ◌⊎◌, inl, inr, String, Bool, true, false, List, [], ◌∷◌, length,
  map, starts_with, if◌then◌else◌, if_true, if_false, ok, ◌>>=◌, arith,
}
use sourced_rust.Entity.{
  Entity, EventRecord, with_id, set_id, new, load_from_history, set_replaying,
}
use sourced_rust.HashMapRepo.{Storage, HashMapRepository, read_storage, load}
use sourced_rust.Outbox.{
  OutboxMessage, OutboxMessageStatus, pending, in_flight, published, failed, OutboxCodecs,
  id_prefix,
}
use sourced_rust.Outbox.Recording.{seen}
use sourced_rust.Outbox.Replay.{Replays, hydrate-Replays}
use sourced_rust.OutboxWorker.Contents.{Content, content}
use sourced_rust.OutboxWorker.{has_status, load_message, status_loop, outbox_messages_by_status}

length-kept :
    (b : Bool) (m : OutboxMessage) (xs : List OutboxMessage) (n : ℕ)
    → length xs ≡ n
    → length (if b then m ∷ xs else xs) ≡ (if b then n + 1 else n)
length-kept b m xs n h = ground (arith, h)

content-kept :
    (b : Bool) (m : OutboxMessage) (xs : List OutboxMessage) (cs : List Content)
    → map content xs ≡ cs
    → map content (if b then m ∷ xs else xs) ≡ (if b then content m ∷ cs else cs)
content-kept true m xs cs h = ap (λ ds. content m ∷ ds) h
content-kept false m xs cs h = h

has_status-seen :
    (s : OutboxMessageStatus) (m : OutboxMessage) (e : Entity) (now : ℕ)
    → has_status s (seen m e now) ≡ has_status s m
has_status-seen pending m e now = refl
has_status-seen in_flight m e now = refl
has_status-seen published m e now = refl
has_status-seen failed m e now = refl

module _ (codecs : OutboxCodecs) where
  -- Events that the replay makes a message of, at any time and on any entity with the identifier.
  pub record IsReadable (id : String) (events : List EventRecord) : Type 0 where
    pub message : OutboxMessage
    pub same_id : message.entity.id ≡ id
    pub same_events : message.entity.events ≡ events
    pub replays :
        (e : Entity) (later : ℕ) → e.replaying ≡ true → e.id ≡ id → Replays codecs e later message

  -- A map whose entries under the prefix are readable messages.
  abbrev pub IsOutboxStore : Storage → Type 0
  IsOutboxStore [] = Unit
  IsOutboxStore ((id, events) ∷ storage) =
      ((starts_with id id_prefix ≡ false)
        ⊎ ((starts_with id id_prefix ≡ true) × IsReadable id events))
      × IsOutboxStore storage

  -- How many messages have the status.
  abbrev pub tally : OutboxMessageStatus → (storage : Storage) → IsOutboxStore storage → ℕ
  tally s [] h = 0
  tally s ((id, events) ∷ storage) (inl other, h) = tally s storage h
  tally s ((id, events) ∷ storage) (inr (prefix, r), h) =
      if has_status s r.message then tally s storage h + 1 else tally s storage h

  -- What the messages with the status carry, in the order of the map.
  abbrev pub contents :
      OutboxMessageStatus → (storage : Storage) → IsOutboxStore storage → List Content
  contents s [] h = []
  contents s ((id, events) ∷ storage) (inl other, h) = contents s storage h
  contents s ((id, events) ∷ storage) (inr (prefix, r), h) =
      if has_status s r.message
      then content r.message ∷ contents s storage h
      else contents s storage h

  -- The message as a load at `now` finds it.
  abbrev pub found :
      {id : String} {events : List EventRecord} → IsReadable id events → ℕ → OutboxMessage
  found {id} {events} r now =
      seen r.message (load now r.message.entity.id r.message.entity.events) now

  pub load_message-found :
      (now : ℕ) (id : String) (events : List EventRecord) (r : IsReadable id events)
      → load_message codecs now id events ≡ ok (found r now)
  unfolding load_message load with_id set_id new load_from_history set_replaying
  load_message-found now id events r =
      ap (λ i. load_message codecs now i events) (sym r.same_id)
      ∙ ap (load_message codecs now r.message.entity.id) (sym r.same_events)
      ∙ hydrate-Replays codecs r.message 0 now (
          r.replays (set_replaying (load now r.message.entity.id r.message.entity.events) true) now
            refl r.same_id)

  -- `outbox_messages_by_status` succeeds and finds as many messages as there are.
  status_loop-tally :
      (now : ℕ) (s : OutboxMessageStatus) (storage : Storage) (h : IsOutboxStore storage)
      → (xs : List OutboxMessage) × (status_loop codecs now s storage ≡ ok xs)
        × (length xs ≡ tally s storage h)
        × (map content xs ≡ contents s storage h)
  unfolding status_loop load
  status_loop-tally now s [] h = ([], refl, refl, refl)
  status_loop-tally now s ((id, events) ∷ storage) (inl other, h) =
      let (xs, eq, n, c) = status_loop-tally now s storage h in
      (xs, if_false _ _ _ other ∙ eq, n, c)
  status_loop-tally now s ((id, events) ∷ storage) (inr (prefix, r), h) =
      let (xs, eq, n, c) = status_loop-tally now s storage h in
      let m = found r now in
      (
        if has_status s m then m ∷ xs else xs,
        if_true _ _ _ prefix
            ∙ ap
                (λ o. o >>= λ x. status_loop codecs now s storage >>= λ ms.
                  ok (if has_status s x then x ∷ ms else ms))
                (load_message-found now id events r)
            ∙ ap (λ o. o >>= λ ms. ok (if has_status s m then m ∷ ms else ms)) eq,
        ap (λ b. length (if b then m ∷ xs else xs)) (has_status-seen s r.message _ now)
            ∙ length-kept (has_status s r.message) m xs (tally s storage h) n,
        ap (λ b. map content (if b then m ∷ xs else xs)) (has_status-seen s r.message _ now)
            ∙ content-kept (has_status s r.message) m xs (contents s storage h) c,
      )

  -- The query on a repository whose lock is not poisoned.
  pub outbox_messages_by_status-tally :
      (repo : HashMapRepository) (at : ℕ) (s : OutboxMessageStatus)
      → repo.event_store.poisoned ≡ false
      → (h : IsOutboxStore repo.event_store.value)
      → (xs : List OutboxMessage) × (outbox_messages_by_status codecs repo at s ≡ ok xs)
        × (length xs ≡ tally s repo.event_store.value h)
        × (map content xs ≡ contents s repo.event_store.value h)
  unfolding outbox_messages_by_status read_storage
  outbox_messages_by_status-tally repo at s o h =
      let (xs, eq, n, c) = status_loop-tally at s repo.event_store.value h in
      (
        xs,
        ap (λ x. x >>= status_loop codecs at s) (if_false repo.event_store.poisoned _ _ o) ∙ eq,
        n,
        c,
      )
