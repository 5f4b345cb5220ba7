-- ===== src/OutboxWorker/Draining.antt =====
-- src/outbox_worker/thread.rs: the thread on a bus that takes every message.
use mathlib.Core.List.{Perm}
use sourced_rust.Prelude.{
  subst, map, ◌++◌, append-nil, ℕ, ◌+◌, ◌*◌, ◌≤◌, ◌≡◌, refl, ap, sym, ◌∙◌, String, Bool, Option,
  some, List, [], ◌∷◌, length, false, Outcome, ok, err, panic, hang, arith,
}
use sourced_rust.Prelude.HashMap.{IsMap}
use sourced_rust.Repository.{RepositoryError}
use sourced_rust.HashMapRepo.{HashMapRepository}
use sourced_rust.Bus.{Bus}
use sourced_rust.Outbox.{OutboxMessage, pending, in_flight, published, OutboxCodecs}
use sourced_rust.Outbox.Recording.{AreLossless}
use sourced_rust.OutboxWorker.{outbox_messages_by_status}
use sourced_rust.OutboxWorker.Drains.{Takes, same_stats, worker_thread-Drains}
use sourced_rust.OutboxWorker.Thread.{WorkerStats, worker_thread}
use sourced_rust.OutboxWorker.Readable.{
  IsOutboxStore, tally, contents, outbox_messages_by_status-tally,
}
use sourced_rust.OutboxWorker.Contents.{content, ask_each}

-- What some turns of the thread leave, where `waiting` was pending before: the bus with one call for each
-- of these messages, and the answers to the queries by status.
pub record Publishes (codecs : OutboxCodecs) {P : Type 0} (bus : Bus P) (routed : Bool) (p : P)
    (repo : HashMapRepository) (turns : ℕ) (stats : WorkerStats) (earlier later : ℕ)
    (waiting : List OutboxMessage) (x : Option (HashMapRepository × P × WorkerStats)) : Type 0 where
  pub repo' : HashMapRepository
  pub result :
      x
      ≡ some (
        repo',
        (ask_each bus routed p (map content waiting)).2,
        record {
          messages_published = stats.messages_published + length waiting;
          messages_failed = stats.messages_failed;
          polls = stats.polls + turns;
        },
      )
  pub none_pending : outbox_messages_by_status codecs repo' later pending ≡ ok []
  pub sent : List OutboxMessage
  pub sent' : List OutboxMessage
  pub sent_before : outbox_messages_by_status codecs repo earlier published ≡ ok sent
  pub sent_after : outbox_messages_by_status codecs repo' later published ≡ ok sent'
  pub all_sent : Perm (map content sent') (map content waiting ++ map content sent)
  pub flying : List OutboxMessage
  pub flying' : List OutboxMessage
  pub flying_before : outbox_messages_by_status codecs repo earlier in_flight ≡ ok flying
  pub flying_after : outbox_messages_by_status codecs repo' later in_flight ≡ ok flying'
  pub same_flying : length flying' ≡ length flying

module _ (codecs : OutboxCodecs) (lossless : AreLossless codecs) {P : Type 0} (bus : Bus P)
    (takes : Takes bus) (routed : Bool) (worker : String) where
  -- On an open repository with at most one entry for an identifier, whose outbox entries are readable
  -- messages, with codecs that lose nothing and a bus that takes every event, a thread with a turn for each
  -- 100 of the pending messages returns. The bus is left as by exactly one call for each of them, in the
  -- order in which they were found, with the identifier, the event type, the payload and the metadata of the
  -- message: `send` to its destination if the thread routes and the message has one, `publish` otherwise.
  -- None is pending any more, the published messages are by what they carry those that were and those that
  -- were pending, in some order, and as many are in flight as before, whenever the queries are made; the
  -- statistics count each of them as published once, no failure, and the turns.
  pub worker_thread-Publishes :
      (repo : HashMapRepository) (nows : List ℕ) (p : P) (stats : WorkerStats) (earlier later : ℕ)
      (waiting : List OutboxMessage)
      → repo.event_store.poisoned ≡ false
      → IsMap repo.event_store.value
      → IsOutboxStore codecs repo.event_store.value
      → outbox_messages_by_status codecs repo earlier pending ≡ ok waiting
      → length waiting ≤ 100 * length nows
      → Publishes codecs bus routed p repo
          (length nows)
          stats
          earlier
          later
          waiting
          (worker_thread codecs bus routed repo nows worker p stats)
  worker_thread-Publishes repo nows p stats earlier later waiting o d h asked enough =
      let x =
        worker_thread-Drains codecs lossless bus takes routed worker repo nows p stats o d h in
      let (xs, eq₀, n₀, c₀) = outbox_messages_by_status-tally codecs repo earlier pending o h in
      let (ys, eq₁, n₁, c₁) =
        outbox_messages_by_status-tally codecs x.repo' later pending x.unlocked x.readable in
      let (sent, eq₂, n₂, c₂) = outbox_messages_by_status-tally codecs repo earlier published o h in
      let (sent', eq₃, n₃, c₃) =
        outbox_messages_by_status-tally codecs x.repo' later published x.unlocked x.readable in
      let (flying, eq₄, n₄, c₄) =
        outbox_messages_by_status-tally codecs repo earlier in_flight o h in
      let (flying', eq₅, n₅, c₅) =
        outbox_messages_by_status-tally codecs x.repo' later in_flight x.unlocked x.readable in
      let same : length waiting ≡ tally codecs pending repo.event_store.value h =
        ap (λ r. length (listed r)) (sym asked ∙ eq₀) ∙ n₀ in
      let sames : map content waiting ≡ contents codecs pending repo.event_store.value h =
        ap (λ r. map content (listed r)) (sym asked ∙ eq₀) ∙ c₀ in
      let gone = x.drained (omega (arith, same, enough)) in
      let no_one : ys ≡ [] = length-zero ys (omega (arith, n₁, gone)) in
      let all_delivered : x.delivered ≡ map content waiting = sym (
        sames
        ∙ x.order
        ∙ ap (λ cs. x.delivered ++ cs) (sym c₁ ∙ ap (map content) no_one)
        ∙ append-nil x.delivered) in
      record {
        repo' = x.repo';
        result =
            x.result
            ∙ ap
                (λ cs. some (
                  x.repo',
                  (ask_each bus routed p cs).2,
                  record {
                    messages_published = stats.messages_published + x.count;
                    messages_failed = stats.messages_failed;
                    polls = stats.polls + length nows;
                  },
                ))
                all_delivered
            ∙ same_stats x.repo' _ (omega (arith, same, gone, x.pendings)) refl refl;
        none_pending = eq₁ ∙ ap ok no_one;
        sent = sent;
        sent' = sent';
        sent_before = eq₂;
        sent_after = eq₃;
        all_sent =
            subst (λ cs. Perm cs (map content waiting ++ map content sent)) (sym c₃)
              (subst
                (λ cs.
                  Perm (contents codecs published x.repo'.event_store.value x.readable)
                    (map content waiting ++ cs))
                (sym c₂)
                (subst
                  (λ cs.
                    Perm (contents codecs published x.repo'.event_store.value x.readable)
                      (cs ++ contents codecs published repo.event_store.value h))
                  all_delivered x.arrived));
        flying = flying;
        flying' = flying';
        flying_before = eq₄;
        flying_after = eq₅;
        same_flying = omega (arith, n₄, n₅, x.in_flights);
      }
    where
      listed : Outcome RepositoryError (List OutboxMessage) → List OutboxMessage
      listed (ok xs) = xs
      listed (err e) = []
      listed panic = []
      listed hang = []

      length-zero : (xs : List OutboxMessage) → length xs ≡ 0 → xs ≡ []
      length-zero [] e = refl
      length-zero (m ∷ xs) e = absurd (omega (arith, e))
