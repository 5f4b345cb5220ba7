-- ===== src/OutboxWorker/Moves.antt =====
-- src/outbox_worker/repository_ext.rs: a claim against the queries by status, before and after it.
use mathlib.Core.List.{Perm}
use sourced_rust.Prelude.{
  Outcome, map, ◌++◌, sym, subst, ℕ, ◌≤◌, ◌<◌, ◌≡◌, refl, ap, ◌∙◌, String, true, false, List,
  length, if_false, ok, panic, arith, All,
}
use sourced_rust.HashMapRepo.{HashMapRepository}
use sourced_rust.Outbox.{OutboxMessage, pending, in_flight, OutboxCodecs}
use sourced_rust.Outbox.Recording.{AreLossless}
use sourced_rust.OutboxWorker.Readable.{IsOutboxStore, outbox_messages_by_status-tally}
use sourced_rust.OutboxWorker.{
  with_storage, claim_outbox_messages, outbox_messages_by_status, claim_loop,
}
use sourced_rust.OutboxWorker.Taking.{IsHeld}
use sourced_rust.OutboxWorker.Contents.{content}
use sourced_rust.OutboxWorker.Tracking.{Kept}
use sourced_rust.Repository.{RepositoryError}
use sourced_rust.OutboxWorker.Claiming.{claim_loop-Claims}

pub claim_result :
    (codecs : OutboxCodecs) (repo : HashMapRepository) (now : ℕ) (worker : String) (max lease : ℕ)
    (lossless : AreLossless codecs)
    → repo.event_store.poisoned ≡ false
    → (h : IsOutboxStore codecs repo.event_store.value)
    → claim_outbox_messages codecs repo now worker max lease ≡ (
      ok
          (claim_loop-Claims codecs lossless now lease worker max 0 repo.event_store.value
            h).messages,
      with_storage codecs repo
          (claim_loop codecs now worker lease max 0 repo.event_store.value).1
          false,
    )
unfolding claim_outbox_messages
claim_result codecs repo now worker max lease lossless o h =
    let storage' = (claim_loop codecs now worker lease max 0 repo.event_store.value).1 in
    if_false repo.event_store.poisoned _ _ o
    ∙ ap (λ r. (r, with_storage codecs repo storage' (elim r [ panic ↦ true | _ ↦ false ])))
        (claim_loop-Claims codecs lossless now lease worker max 0 repo.event_store.value h).succeeds

-- What a claim leaves, by the answers to the queries by status before and after it.
pub record Moved (codecs : OutboxCodecs) (repo : HashMapRepository) (earlier later : ℕ)
    (worker : String) (max : ℕ)
    (x : Outcome RepositoryError (List OutboxMessage) × HashMapRepository) : Type 0 where
  pub messages : List OutboxMessage
  pub succeeds : x.0 ≡ ok messages
  pub held : All (IsHeld worker) messages
  pub readable : IsOutboxStore codecs x.1.event_store.value
  pub bounded : 0 < max → length messages ≤ max
  pub before : List OutboxMessage
  pub after : List OutboxMessage
  pub pending_before : outbox_messages_by_status codecs repo earlier pending ≡ ok before
  pub pending_after : outbox_messages_by_status codecs x.1 later pending ≡ ok after
  pub left : map content before ≡ map content messages ++ map content after
  pub flying : List OutboxMessage
  pub flying' : List OutboxMessage
  pub flying_before : outbox_messages_by_status codecs repo earlier in_flight ≡ ok flying
  pub flying_after : outbox_messages_by_status codecs x.1 later in_flight ≡ ok flying'
  pub arrived : Perm (map content flying') (map content messages ++ map content flying)
  pub kept : Kept repo.event_store.value x.1.event_store.value messages

-- On an open repository whose outbox entries are readable messages, with codecs that lose nothing,
-- a claim succeeds and leaves the entries readable. Each message that it returns is in flight and held
-- by the worker, and there are no more of them than `max` if that is positive. By identifier, event type,
-- payload, destination and metadata they are the first of the messages that were found pending, and those
-- found pending after the claim are the others, in the same order; those found in flight after it are
-- those found in flight before it and the messages returned, in some order. This is so whenever the
-- queries are made. Every entry of the store but those of the messages returned is as it was.
pub claim_outbox_messages-moves :
    (codecs : OutboxCodecs) (repo : HashMapRepository) (now earlier later : ℕ) (worker : String)
    (max lease : ℕ)
    → AreLossless codecs
    → repo.event_store.poisoned ≡ false
    → IsOutboxStore codecs repo.event_store.value
    → Moved codecs repo earlier later worker max
        (claim_outbox_messages codecs repo now worker max lease)
claim_outbox_messages-moves codecs repo now earlier later worker max lease lossless o h =
    let c = claim_loop-Claims codecs lossless now lease worker max 0 repo.event_store.value h in
    let repo' =
      with_storage codecs repo (claim_loop codecs now worker lease max 0 repo.event_store.value).1
        false in
    let (before, eq₁, n₁, c₁) = outbox_messages_by_status-tally codecs repo earlier pending o h in
    let (after, eq₂, n₂, c₂) =
      outbox_messages_by_status-tally codecs repo' later pending refl c.readable in
    let (flying, eq₃, n₃, c₃) = outbox_messages_by_status-tally codecs repo earlier in_flight o h in
    let (flying', eq₄, n₄, c₄) =
      outbox_messages_by_status-tally codecs repo' later in_flight refl c.readable in
    subst (Moved codecs repo earlier later worker max)
      (sym (claim_result codecs repo now worker max lease lossless o h))
      (record {
        messages = c.messages;
        succeeds = refl;
        held = c.held;
        readable = c.readable;
        bounded = λ b. omega (arith, c.bounded b);
        before = before;
        after = after;
        pending_before = eq₁;
        pending_after = eq₂;
        left = c₁ ∙ c.queued ∙ ap (λ cs. map content c.messages ++ cs) (sym c₂);
        flying = flying;
        flying' = flying';
        flying_before = eq₃;
        flying_after = eq₄;
        arrived = rw (c₄, c₃) c.aloft;
        kept = c.kept;
      })
