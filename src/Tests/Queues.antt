-- ===== src/Tests/Queues.antt =====
-- Inputs for src/bus/in_memory_queue.rs: subscribers, receivers and listeners.
use sourced_rust.Prelude.{◌≡◌, refl, arith, All, String, some, List, [], ◌∷◌}
use sourced_rust.Prelude.HashMap
use sourced_rust.Bus.{Event, new_event}
use sourced_rust.Bus.InMemoryQueue.{Shared, new_subscriber, recv, poll}
use sourced_rust.Bus.InMemoryQueue.Receiving.{Received, recv-Received}
use sourced_rust.Bus.InMemoryQueue.Subscribers.{
  Action, publishes, publishes_batch, subscribes, polls, act_all, no_subscribers, IsDelivered,
  every_subscriber,
}
use sourced_rust.Bus.InMemoryQueue.Moving.{AllWithin}
use sourced_rust.Bus.InMemoryQueue.Listeners.{Call, sends, listens}

abbrev created : Event
created = new_event "evt-1" "OrderCreated" (1 ∷ [])

abbrev failed : Event
failed = new_event "evt-2" "PaymentFailed" []

abbrev queue : Shared
queue = record {
  log = failed ∷ failed ∷ [];
  queues = ("orders", record { messages = created ∷ []; position = 1 }) ∷ [];
}

-- The receiver skips two events, and the one that it waits for arrives in its sleep.
abbrev rounds : List (List (List Event))
rounds = [] ∷ [] ∷ ((created ∷ []) ∷ []) ∷ []

recv_run : (recv ("OrderCreated" ∷ []) rounds queue new_subscriber).0 ≡ some created
unfolding recv poll new_event
recv_run = refl

recv-Received_example :
    Received
      ("OrderCreated" ∷ [])
      queue
      new_subscriber
      (recv ("OrderCreated" ∷ []) rounds queue new_subscriber)
recv-Received_example =
    recv-Received ("OrderCreated" ∷ []) rounds queue new_subscriber (omega arith)

abbrev actions : List Action
actions =
    subscribes
    ∷ publishes created
    ∷ polls 0 []
    ∷ subscribes
    ∷ publishes_batch (failed ∷ created ∷ [])
    ∷ polls 0 []
    ∷ polls 1 ((failed ∷ []) ∷ [])
    ∷ []

every_subscriber_example :
    let w = act_all no_subscribers actions in All (IsDelivered w.shared.log) w.subscribers
every_subscriber_example = every_subscriber actions

-- The only message of the queue was taken, and another one arrives in the sleep.
abbrev waits : List (List (String × Event))
waits = (("orders", failed) ∷ []) ∷ []

queue-AllWithin : AllWithin queue
unfolding HashMap.get
queue-AllWithin k = ground arith

abbrev calls : List Call
calls =
    sends "orders" created
    ∷ listens "orders" []
    ∷ sends "payments" failed
    ∷ listens "orders" waits
    ∷ listens "payments" []
    ∷ sends "orders" created
    ∷ []
