-- ===== src/Microsvc/Threads.antt =====
-- src/microsvc/service.rs: the threads that take events from a bus to a service. A thread runs its
-- loop until it sees the signal to stop; the number of turns before that is an argument.
use sourced_rust.Prelude.{
  ℕ, zero, suc, ◌+◌, String, Option, none, some, Outcome, ok, err, panic, hang,
}
use sourced_rust.Bus.{Event, PublishError}
use sourced_rust.Microsvc.{Json, Service, dispatch_event}

pub record TransportStats : Type 0 where
  pub handled : ℕ
  pub failed : ℕ
  pub polls : ℕ

abbrev pub default_stats : TransportStats
default_stats = record { handled = 0; failed = 0; polls = 0 }

-- The traits `Listener` and `Subscriber`, over the state of the bus behind the handle.
pub record Listener (P : Type 0) : Type 0 where
  pub listen : P → String → Outcome PublishError (Option Event) × P

pub record Subscriber (P : Type 0) : Type 0 where
  pub poll : P → Outcome PublishError (Option Event) × P
  pub ack : P → String → Outcome PublishError (Unit {0}) × P
  pub nack : P → String → String → Outcome PublishError (Unit {0}) × P

-- What a turn leaves: the statistics, or a panic or a wait that ends the thread.
abbrev pub Turn : Type 0 → Type 0 → Type 0
Turn P S = Outcome ⊥ TransportStats × P × S

-- The answers of `ack` and `nack` are dropped, but a panic or a wait in them ends the thread.
abbrev pub and_then :
    {P S : Type 0} → TransportStats → S → Outcome PublishError (Unit {0}) × P → Turn P S
and_then stats s (r, p) = elim r [
  | ok _ ↦ (ok stats, p, s)
  | err _ ↦ (ok stats, p, s)
  | panic ↦ (panic, p, s)
  | hang ↦ (hang, p, s)
]

module _ {V : Type 0} (json : Json V) {S : Type 0} (service : Service V S) {P : Type 0} where
  -- The event of a turn of `listen`.
  unfoldable pub handle_event : TransportStats → P → S → Event → Turn P S
  unfolding dispatch_event
  handle_event stats p s e =
      let (r, s') = dispatch_event json service s e in
      elim r [
        | ok _ ↦ (ok (record stats { handled = stats.handled + 1 }), p, s')
        | err _ ↦ (ok (record stats { failed = stats.failed + 1 }), p, s')
        | panic ↦ (panic, p, s')
        | hang ↦ (hang, p, s')
      ]

  unfoldable pub listen_turn : Listener P → String → TransportStats → P → S → Turn P S
  unfolding handle_event
  listen_turn listener queue_name stats p s =
      let polled = record stats { polls = stats.polls + 1 } in
      let (r, p') = listener.listen p queue_name in
      elim r [
        | ok found ↦ elim found [ none ↦ (ok polled, p', s) | some e ↦ handle_event polled p' s e ]
        | err _ ↦ (ok polled, p', s)
        | panic ↦ (panic, p', s)
        | hang ↦ (hang, p', s)
      ]

  unfoldable pub listen_thread : ℕ → Listener P → String → TransportStats → P → S → Turn P S
  unfolding listen_turn
  listen_thread zero listener queue_name stats p s = (ok stats, p, s)
  listen_thread (suc turns) listener queue_name stats p s =
      let (r, p', s') = listen_turn listener queue_name stats p s in
      elim r [
        | ok stats' ↦ listen_thread turns listener queue_name stats' p' s'
        | err e ↦ absurd e
        | panic ↦ (panic, p', s')
        | hang ↦ (hang, p', s')
      ]

  -- The event of a turn of `subscribe`.
  unfoldable pub handle_and_ack : Subscriber P → TransportStats → P → S → Event → Turn P S
  unfolding dispatch_event
  handle_and_ack subscriber stats p s e =
      let (r, s') = dispatch_event json service s e in
      elim r [
        | ok _ ↦ and_then (record stats { handled = stats.handled + 1 }) s' (subscriber.ack p e.id)
        | err _ ↦
            and_then (record stats { failed = stats.failed + 1 }) s'
              (subscriber.nack p e.id "handler error")
        | panic ↦ (panic, p, s')
        | hang ↦ (hang, p, s')
      ]

  unfoldable pub subscribe_turn : Subscriber P → TransportStats → P → S → Turn P S
  unfolding handle_and_ack
  subscribe_turn subscriber stats p s =
      let polled = record stats { polls = stats.polls + 1 } in
      let (r, p') = subscriber.poll p in
      elim r [
        | ok found ↦ elim found [
          | none ↦ (ok polled, p', s)
          | some e ↦ handle_and_ack subscriber polled p' s e
        ]
        | err _ ↦ (ok polled, p', s)
        | panic ↦ (panic, p', s)
        | hang ↦ (hang, p', s)
      ]

  unfoldable pub subscribe_thread : ℕ → Subscriber P → TransportStats → P → S → Turn P S
  unfolding subscribe_turn
  subscribe_thread zero subscriber stats p s = (ok stats, p, s)
  subscribe_thread (suc turns) subscriber stats p s =
      let (r, p', s') = subscribe_turn subscriber stats p s in
      elim r [
        | ok stats' ↦ subscribe_thread turns subscriber stats' p' s'
        | err e ↦ absurd e
        | panic ↦ (panic, p', s')
        | hang ↦ (hang, p', s')
      ]

-- `TransportHandle::stop`: a thread that panicked gives the default.
unfoldable pub stop : Outcome ⊥ TransportStats → Outcome ⊥ TransportStats
stop (ok stats) = ok stats
stop (err e) = absurd e
stop panic = ok default_stats
stop hang = hang
