-- ===== src/OutboxWorker/Turns.antt =====
-- src/outbox_worker/thread.rs: a turn of the thread, and the thread on a bus that takes everything.
use mathlib.Core.List.{Perm}
use sourced_rust.Prelude.{
  map, ◌++◌, subst, sym, ℕ, ◌+◌, ◌*◌, ◌≤◌, ◌<◌, ◌≡◌, refl, ap, ◌∙◌, Bool, false, String, Option,
  some, none, List, [], ◌∷◌, length, Outcome, ok, err, panic, hang, arith,
}
use sourced_rust.Prelude.HashMap.{IsMap}
use sourced_rust.Repository.{RepositoryError}
use sourced_rust.HashMapRepo.{HashMapRepository}
use sourced_rust.Bus.{Bus}
use sourced_rust.Outbox.{OutboxMessage, pending, in_flight, published, OutboxCodecs, second}
use sourced_rust.Outbox.Recording.{AreLossless}
use sourced_rust.OutboxWorker.{claim_outbox_messages, claim_loop, with_storage}
use sourced_rust.OutboxWorker.Thread.{WorkerStats, publish_each, poll}
use sourced_rust.OutboxWorker.Readable.{IsOutboxStore, tally, contents}
use sourced_rust.OutboxWorker.Contents.{Content, content, ask, ask_each, accepted, refused}
use sourced_rust.OutboxWorker.Claiming.{claim_loop-Claims}
use sourced_rust.OutboxWorker.Moves.{claim_result}
use sourced_rust.OutboxWorker.Settling.{Replies}
use sourced_rust.OutboxWorker.Delivering.{publish_each-SettlesAll}

-- What a turn leaves: the messages that its claim returns are asked of the bus one after the other, and
-- none is left in flight by it.
pub record Turned (codecs : OutboxCodecs) {P : Type 0} (bus : Bus P) (routed : Bool)
    (repo : HashMapRepository) (now : ℕ) (worker : String)
    (h : IsOutboxStore codecs repo.event_store.value) (p : P) (stats : WorkerStats)
    (x : Option (HashMapRepository × P × WorkerStats)) : Type 0 where
  pub messages : List OutboxMessage
  pub claimed : (claim_outbox_messages codecs repo now worker 100 (60 * second)).0 ≡ ok messages
  pub few : length messages ≤ 100
  pub repo' : HashMapRepository
  pub result :
      let (sent, refused, q) = ask_each bus routed p (map content messages) in
      x
      ≡ some (
        repo',
        q,
        record {
          messages_published = stats.messages_published + sent;
          messages_failed = stats.messages_failed + refused;
          polls = stats.polls + 1;
        },
      )
  pub each :
      let (sent, refused, q) = ask_each bus routed p (map content messages) in
      sent + refused ≡ length messages
  pub unlocked : repo'.event_store.poisoned ≡ false
  pub distinct : IsMap repo'.event_store.value
  pub readable : IsOutboxStore codecs repo'.event_store.value
  pub in_flights :
      tally codecs in_flight repo'.event_store.value readable
      ≡ tally codecs in_flight repo.event_store.value h
  pub publisheds :
      tally codecs published repo'.event_store.value readable
      ≡ tally codecs published repo.event_store.value h
        + (ask_each bus routed p (map content messages)).0
  pub pendings :
      tally codecs pending repo'.event_store.value readable
        + (ask_each bus routed p (map content messages)).0
      ≡ tally codecs pending repo.event_store.value h
  pub drained :
      length messages < 100
      → tally codecs pending repo'.event_store.value readable
        ≡ (ask_each bus routed p (map content messages)).1
  pub rest : List Content
  pub taken_first : contents codecs pending repo.event_store.value h ≡ map content messages ++ rest
  pub arrived : Perm (contents codecs published repo'.event_store.value readable) (
      accepted bus routed p (map content messages)
      ++ contents codecs published repo.event_store.value h)
  pub resumed :
      Perm
        (contents codecs pending repo'.event_store.value readable)
        (refused bus routed p (map content messages) ++ rest)
  pub waiting :
      (ask_each bus routed p (map content messages)).1 ≡ 0
      → contents codecs pending repo.event_store.value h
        ≡ map content messages ++ contents codecs pending repo'.event_store.value readable

module _ (codecs : OutboxCodecs) (lossless : AreLossless codecs) {P : Type 0} (bus : Bus P)
    (replies : Replies bus) (routed : Bool) where
  ask_each-length :
      (p : P) (ms : List OutboxMessage)
      → let (sent, refused, q) = ask_each bus routed p (map content ms) in
        sent + refused ≡ length ms
  ask_each-length p [] = refl
  ask_each-length p (m ∷ ms) =
      let y = ask bus routed p (content m) in ground (arith, ask_each-length y.1 ms)

  -- What a turn does behind the claim.
  abbrev after_claim :
      ℕ
      → P
      → WorkerStats
      → Outcome RepositoryError (List OutboxMessage) × HashMapRepository
      → Option (HashMapRepository × P × WorkerStats)
  after_claim now p polled (r, repo') = elim r [
    | ok ms ↦ publish_each codecs bus routed repo' now p polled ms
    | err _ ↦ some (repo', p, polled)
    | panic ↦ none
    | hang ↦ none
  ]

  -- On an open repository with at most one entry for an identifier, whose outbox entries are readable
  -- messages, with codecs that lose nothing and a bus that answers each call, a turn of the thread returns.
  -- Its messages are those that `claim_outbox_messages` returns for 100 and a lease of a minute, 100 at
  -- most, and the first of those that were pending. The bus is left as by one call for each of them, in
  -- their order, with the identifier, the event type, the payload and the metadata of the message: `send`
  -- to its destination if the thread routes and the message has one, `publish` otherwise. By what they
  -- carry, the published messages are those that were and those whose call succeeded; the pending ones are
  -- those whose call failed and those that the claim left, each in some order, and those that the claim
  -- left in the same order if no call failed. As many are in flight as before, and if the turn claimed fewer
  -- than 100 then as many are pending as calls that failed. The statistics count both kinds of calls, and
  -- the turn as a poll.
  pub poll-Turned :
      (repo : HashMapRepository) (now : ℕ) (worker : String) (p : P) (stats : WorkerStats)
      → repo.event_store.poisoned ≡ false
      → IsMap repo.event_store.value
      → (h : IsOutboxStore codecs repo.event_store.value)
      → Turned codecs bus routed repo now worker h p stats
          (poll codecs bus routed repo now worker p stats)
  unfolding poll
  poll-Turned repo now worker p stats o d h =
      let storage = repo.event_store.value in
      let c = claim_loop-Claims codecs lossless now (60 * second) worker 100 0 storage h in
      let repo₁ =
        with_storage codecs repo (claim_loop codecs now worker (60 * second) 100 0 storage).1
          false in
      let polled = record stats { polls = stats.polls + 1 } in
      let s =
        publish_each-SettlesAll codecs lossless bus replies routed now repo₁ c.readable p polled
          c.messages refl (c.flying d).1 (c.flying d).0 in
      let each = ask_each-length p c.messages in
      record {
        messages = c.messages;
        claimed =
            ap (λ y. y.0) (claim_result codecs repo now worker 100 (60 * second) lossless o h);
        few = omega (arith, c.bounded (omega arith));
        repo' = s.repo;
        result =
            ap (after_claim now p polled)
              (claim_result codecs repo now worker 100 (60 * second) lossless o h)
            ∙ s.result;
        each = each;
        unlocked = s.counts.unlocked;
        distinct = s.counts.distinct;
        readable = s.counts.readable;
        in_flights = omega (arith, s.counts.in_flights, c.in_flights, each);
        publisheds = omega (arith, s.counts.publisheds, c.publisheds);
        pendings = omega (arith, s.counts.pendings, c.pendings, each);
        drained = λ b. omega (arith, s.counts.pendings, c.drained (omega (arith, b)));
        rest = contents codecs pending repo₁.event_store.value c.readable;
        taken_first = c.queued;
        arrived =
            subst
              (λ cs.
                Perm (contents codecs published s.repo.event_store.value s.counts.readable)
                  (accepted bus routed p (map content c.messages) ++ cs))
              c.same_published s.counts.arrived;
        resumed = s.counts.resumed;
        waiting =
            λ z. c.queued ∙ ap (λ cs. map content c.messages ++ cs) (sym (s.counts.waiting z));
      }
