-- ===== src/Tests/Workers.antt =====
-- Inputs for src/outbox_worker/: a publisher that refuses one event type, and a map with two messages.
use sourced_rust.Prelude.{
  map, ℕ, ◌≤◌, ◌≡◌, refl, inl, inr, some, none, List, [], ◌∷◌, length, drop, ok, str_eq, unlocked,
  ◌+◌, true, false, err, arith, if◌then◌else◌,
}
use sourced_rust.Outbox.{OutboxMessage, pending, create, initialize, default_message, normalize_id}
use sourced_rust.Entity.{set_id}
use sourced_rust.Outbox.Replay.{fresh, initialize-Replays}
use sourced_rust.OutboxWorker.Worker.{OutboxPublisher, OutboxWorker, process_batch}
use sourced_rust.OutboxWorker.Processing.{
  Settles, process_message-Settles, IsBalanced, process_batch-IsBalanced,
}
use sourced_rust.Prelude.HashMap
use sourced_rust.Prelude.HashMap.{IsMap}
use sourced_rust.Bus.{Bus, rejected}
use sourced_rust.Bus.InMemoryQueue.{new_shared}
use sourced_rust.Bus.InMemoryQueue.Traits.{in_memory_bus}
use sourced_rust.OutboxWorker.Thread.{WorkerStats, poll, worker_thread}
use sourced_rust.OutboxWorker.Turns.{Turned, poll-Turned}
use sourced_rust.OutboxWorker.Drains.{in_memory_bus-Takes}
use sourced_rust.OutboxWorker.Contents.{content}
use sourced_rust.OutboxWorker.Draining.{Publishes, worker_thread-Publishes}
use sourced_rust.OutboxWorker.Readable.{
  IsOutboxStore, tally, contents, outbox_messages_by_status-tally,
}
use sourced_rust.OutboxWorker.Moves.{Moved, claim_outbox_messages-moves}
use sourced_rust.OutboxWorker.{claim_outbox_messages, outbox_messages_by_status}
use sourced_rust.HashMapRepo.{HashMapRepository, new_repository}
use sourced_rust.Tests.Codecs.{outbox_codecs, outbox_codecs-AreLossless}

-- Counts its calls.
abbrev publisher : OutboxPublisher ℕ
publisher = record {
  publish = λ n event_type payload metadata.
      (if str_eq event_type "Broken" then some "refused" else none, n + 1);
}

abbrev worker : OutboxWorker ℕ
worker = record { publisher = 0; worker_id = "w"; batch_size = 1; lease = 60; max_attempts = 3 }

abbrev good : OutboxMessage
good = create outbox_codecs 10 "m1" "Created" (7 ∷ [])

abbrev bad : OutboxMessage
bad = create outbox_codecs 10 "m2" "Broken" []

process_message-Settles_example : Settles outbox_codecs publisher worker 20 bad
process_message-Settles_example = process_message-Settles outbox_codecs publisher worker 20 bad

process_batch-IsBalanced_example :
    let (d, w', ms') = process_batch outbox_codecs publisher worker 20 (bad ∷ good ∷ []) in
    IsBalanced d × (d.claimed ≤ 1) × (length ms' ≡ 2) × (drop 1 ms' ≡ good ∷ [])
process_batch-IsBalanced_example =
    process_batch-IsBalanced outbox_codecs publisher worker 20 (bad ∷ good ∷ [])

abbrev stored : OutboxMessage
stored = fresh outbox_codecs outbox_codecs-AreLossless 10 "m1" "Created" (7 ∷ []) none []

-- A repository with a message beside another entity.
abbrev mailbox : HashMapRepository
mailbox = record new_repository {
  event_store = unlocked (("todo-1", []) ∷ ("outbox:m1", stored.entity.events) ∷ []);
}

mailbox-IsOutboxStore : IsOutboxStore outbox_codecs mailbox.event_store.value
unfolding initialize normalize_id set_id
mailbox-IsOutboxStore = (
  inl refl,
  (
    inr (
      refl,
      record {
        message = stored;
        same_id = refl;
        same_events = refl;
        replays = λ e later k i.
            initialize-Replays outbox_codecs outbox_codecs-AreLossless 10 "m1" "Created" (7 ∷ [])
              none [] e later k i;
      },
    ),
    tt,
  ),
)

claim_outbox_messages-moves_example :
    Moved outbox_codecs mailbox 19 21 "w" 5
      (claim_outbox_messages outbox_codecs mailbox 20 "w" 5 60)
claim_outbox_messages-moves_example =
    claim_outbox_messages-moves outbox_codecs mailbox 20 19 21 "w" 5 60 outbox_codecs-AreLossless
      refl mailbox-IsOutboxStore

abbrev no_stats : WorkerStats
no_stats = record { messages_published = 0; messages_failed = 0; polls = 0 }

mailbox-IsMap : IsMap mailbox.event_store.value
unfolding HashMap.get
mailbox-IsMap = (refl, (refl, tt))

-- Refuses every event that is published.
abbrev refusing : Bus ℕ
refusing = record { publish = λ n e. (err (rejected "full"), n + 1); send = λ n name e. (ok tt, n) }

poll-Turned_example :
    Turned outbox_codecs refusing true mailbox 20 "w" mailbox-IsOutboxStore 0 no_stats
      (poll outbox_codecs refusing true mailbox 20 "w" 0 no_stats)
poll-Turned_example =
    poll-Turned outbox_codecs outbox_codecs-AreLossless refusing
      (record { publishes = λ p e. refl; sends = λ p name e. refl }) true mailbox 20 "w" 0 no_stats
      refl mailbox-IsMap mailbox-IsOutboxStore

-- What is pending in the mailbox.
abbrev waiting :
    (xs : List OutboxMessage) × (outbox_messages_by_status outbox_codecs mailbox 19 pending ≡ ok xs)
    × (length xs ≡ tally outbox_codecs pending mailbox.event_store.value mailbox-IsOutboxStore)
    × (map content xs
        ≡ contents outbox_codecs pending mailbox.event_store.value mailbox-IsOutboxStore)
waiting =
    outbox_messages_by_status-tally outbox_codecs mailbox 19 pending refl mailbox-IsOutboxStore

one_waits : length waiting.0 ≤ 100
unfolding initialize default_message new_repository mailbox-IsOutboxStore
one_waits = omega (arith, waiting.2)

worker_thread-Publishes_example :
    Publishes outbox_codecs in_memory_bus false new_shared mailbox 1 no_stats 19 21 waiting.0
      (worker_thread outbox_codecs in_memory_bus false mailbox (20 ∷ []) "w" new_shared no_stats)
worker_thread-Publishes_example =
    worker_thread-Publishes outbox_codecs outbox_codecs-AreLossless in_memory_bus
      in_memory_bus-Takes false "w" mailbox (20 ∷ []) new_shared no_stats 19 21 waiting.0 refl
      mailbox-IsMap mailbox-IsOutboxStore waiting.1 one_waits
