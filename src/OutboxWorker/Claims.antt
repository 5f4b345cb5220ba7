-- ===== src/OutboxWorker/Claims.antt =====
-- src/outbox_worker/repository_ext.rs: what the loop that claims messages does to a readable map, and
-- the entries that it passes.
use sourced_rust.Prelude.{
  ℕ, ◌+◌, ◌≤◌, ◌<◌, ◌≡◌, sym, subst, inl, String, false, none, List, ◌∷◌, length, starts_with,
  if_false, Outcome, ok, arith, All,
}
use sourced_rust.Entity.{EventRecord}
use sourced_rust.Repository.{RepositoryError}
use sourced_rust.HashMapRepo.{Storage}
use sourced_rust.Outbox.{OutboxMessage, pending, in_flight, published, OutboxCodecs, id_prefix}
use sourced_rust.OutboxWorker.Readable.{IsOutboxStore, tally, contents}
use sourced_rust.OutboxWorker.{claim_loop}
use sourced_rust.Prelude.HashMap
use sourced_rust.Prelude.HashMap.{IsMap}
use sourced_rust.OutboxWorker.Entries.{Flown, Flown-cons}
use sourced_rust.OutboxWorker.Tracking.{Queued, Aloft, Kept, Kept-cons}
use sourced_rust.OutboxWorker.Taking.{IsHeld}

-- What a claim does to a readable map: `n` messages were claimed before.
pub record Claims (codecs : OutboxCodecs) (worker : String) (max n : ℕ) (storage : Storage)
    (h : IsOutboxStore codecs storage)
    (result : Outcome RepositoryError (List OutboxMessage) × Storage) : Type 0 where
  pub messages : List OutboxMessage
  pub succeeds : result.0 ≡ ok messages
  pub held : All (IsHeld worker) messages
  pub readable : IsOutboxStore codecs result.1
  pub pendings :
      tally codecs pending storage h ≡ tally codecs pending result.1 readable + length messages
  pub in_flights :
      tally codecs in_flight result.1 readable ≡ tally codecs in_flight storage h + length messages
  pub bounded : n < max → n + length messages ≤ max
  pub publisheds : tally codecs published result.1 readable ≡ tally codecs published storage h
  pub drained : n + length messages < max → tally codecs pending result.1 readable ≡ 0
  pub unlisted : (k : String) → HashMap.get k storage ≡ none → HashMap.get k result.1 ≡ none
  pub flying : IsMap storage → Flown codecs result.1 readable messages × IsMap result.1
  pub queued : Queued codecs storage h result.1 readable messages
  pub aloft : Aloft codecs storage h result.1 readable messages
  pub same_published :
      contents codecs published result.1 readable ≡ contents codecs published storage h
  pub kept : Kept storage result.1 messages

module _ (codecs : OutboxCodecs) (now lease : ℕ) (worker : String) where
  abbrev pub claiming : ℕ → ℕ → Storage → Outcome RepositoryError (List OutboxMessage) × Storage
  claiming max n storage = claim_loop codecs now worker lease max n storage

  abbrev pub ClaimsFrom : ℕ → ℕ → (storage : Storage) → IsOutboxStore codecs storage → Type 0
  ClaimsFrom max n storage h = Claims codecs worker max n storage h (claiming max n storage)

  -- An entry of another kind.
  pub skip_entry :
      (max n : ℕ) (id : String) (events : List EventRecord) (storage : Storage)
      (other : starts_with id id_prefix ≡ false) (h : IsOutboxStore codecs storage)
      → ClaimsFrom max n storage h
      → ClaimsFrom max n ((id, events) ∷ storage) (inl other, h)
  unfolding claim_loop HashMap.get
  skip_entry max n id events storage other h c =
      subst (Claims codecs worker max n ((id, events) ∷ storage) (inl other, h))
        (sym (if_false (starts_with id id_prefix) _ _ other))
        (record {
          messages = c.messages;
          succeeds = c.succeeds;
          held = c.held;
          readable = (inl other, c.readable);
          pendings = c.pendings;
          in_flights = c.in_flights;
          bounded = c.bounded;
          publisheds = c.publisheds;
          drained = c.drained;
          unlisted = λ k e. ground (arith, e, c.unlisted k);
          flying = λ d.
              let gone = c.unlisted id d.0 in
              (
                (Flown-cons codecs id events c_storage (inl other, c.readable) c.messages gone
                    (c.flying d.1).0).0,
                (gone, (c.flying d.1).1),
              );
          queued = c.queued;
          aloft = c.aloft;
          same_published = c.same_published;
          kept = Kept-cons id events storage c_storage c.messages c.kept;
        })
    where
      c_storage : Storage
      c_storage = (claiming max n storage).1
