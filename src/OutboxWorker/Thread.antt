-- ===== src/OutboxWorker/Thread.antt =====
-- src/outbox_worker/thread.rs: the worker's thread, which publishes what it claims. Its turns, until it
-- sees the signal to stop, are the list of the readings of the clock, one for each turn.
use sourced_rust.Prelude.{
  ℕ, ◌+◌, ◌*◌, String, Bool, Option, none, some, List, [], ◌∷◌, if◌then◌else◌, Outcome, ok, err,
  panic, hang, is_ok,
}
use sourced_rust.Prelude.HashMap.{HashMap}
use sourced_rust.HashMapRepo.{HashMapRepository}
use sourced_rust.Outbox.{OutboxMessage, OutboxCodecs, second}
use sourced_rust.Bus.{Event, new_event, with_metadata, PublishError, Bus}
use sourced_rust.OutboxWorker.{
  claim_outbox_messages, complete_outbox_message, release_outbox_message,
}

pub record WorkerStats : Type 0 where
  pub messages_published : ℕ
  pub messages_failed : ℕ
  pub polls : ℕ

-- `for (k, v) in &msg.metadata { event = event.with_metadata(k, v); }`
unfoldable pub add_metadata : Event → HashMap String → Event
add_metadata event [] = event
add_metadata event ((k, v) ∷ m) = add_metadata (with_metadata event k v) m

unfoldable pub event_of : OutboxMessage → Event
event_of m = add_metadata (new_event m.entity.id m.event_type m.payload) m.metadata

module _ (codecs : OutboxCodecs) {P : Type 0} (bus : Bus P) where
  -- `publisher.publish(event)`, and in the routed thread `publisher.send(dest, event)` where the
  -- message has a destination.
  unfoldable pub deliver : Bool → P → OutboxMessage → Outcome PublishError (Unit {0}) × P
  unfolding event_of
  deliver routed p m = elim m.destination [
    | none ↦ bus.publish p (event_of m)
    | some dest ↦ if routed then bus.send p dest (event_of m) else bus.publish p (event_of m)
  ]

  -- One claimed message. A publisher that panics or waits for ever takes the thread along; `none`
  -- is such an end.
  unfoldable pub publish_claimed :
      Bool
      → HashMapRepository
      → ℕ
      → P
      → WorkerStats
      → OutboxMessage
      → Option (HashMapRepository × P × WorkerStats)
  unfolding deliver complete_outbox_message release_outbox_message
  publish_claimed routed repo now p stats m =
      let (r, p') = deliver routed p m in
      elim r [
        | ok _ ↦
            let (c, repo') = complete_outbox_message codecs repo now m.entity.id in
            some (
              repo',
              p',
              if is_ok c
                  then record stats { messages_published = stats.messages_published + 1 }
                  else stats,
            )
        | err _ ↦
            let (c, repo') = release_outbox_message codecs repo now m.entity.id "publish failed" in
            some (repo', p', record stats { messages_failed = stats.messages_failed + 1 })
        | panic ↦ none
        | hang ↦ none
      ]

  unfoldable pub publish_each :
      Bool
      → HashMapRepository
      → ℕ
      → P
      → WorkerStats
      → List OutboxMessage
      → Option (HashMapRepository × P × WorkerStats)
  unfolding publish_claimed
  publish_each routed repo now p stats [] = some (repo, p, stats)
  publish_each routed repo now p stats (m ∷ ms) = elim (publish_claimed routed repo now p stats m) [
    | none ↦ none
    | some (repo', p', stats') ↦ publish_each routed repo' now p' stats' ms
  ]

  unfoldable pub poll :
      Bool
      → HashMapRepository
      → ℕ
      → String
      → P
      → WorkerStats
      → Option (HashMapRepository × P × WorkerStats)
  unfolding claim_outbox_messages publish_each
  poll routed repo now worker_id p stats =
      let polled = record stats { polls = stats.polls + 1 } in
      let (r, repo') = claim_outbox_messages codecs repo now worker_id 100 (60 * second) in
      elim r [
        | ok ms ↦ publish_each routed repo' now p polled ms
        | err _ ↦ some (repo', p, polled)
        | panic ↦ none
        | hang ↦ none
      ]

  -- The turns of the thread. `spawn` is the thread that does not route, `spawn_routed` the one that does.
  unfoldable pub worker_thread :
      Bool
      → HashMapRepository
      → List ℕ
      → String
      → P
      → WorkerStats
      → Option (HashMapRepository × P × WorkerStats)
  unfolding poll
  worker_thread routed repo [] worker_id p stats = some (repo, p, stats)
  worker_thread routed repo (now ∷ nows) worker_id p stats =
      elim (poll routed repo now worker_id p stats) [
        | none ↦ none
        | some (repo', p', stats') ↦ worker_thread routed repo' nows worker_id p' stats'
      ]
