-- ===== src/Bus/InMemoryQueue.antt =====
-- src/bus/in_memory_queue.rs: the log that every subscriber reads at its own pace, and the named queues
-- that listeners share. No lock here is poisoned, for nothing panics under one. A call with a timeout
-- runs its loop until the deadline: the list that it takes has, for each sleep, what others add
-- meanwhile, and the deadline has passed at its end.
pub mod FanOut
pub mod Receiving
pub mod Subscribers
pub mod Moving
pub mod Competing
pub mod Listeners
pub mod Traits
use sourced_rust.Prelude.{
  ℕ, ◌+◌, Bool, true, false, not, ◌||◌, if◌then◌else◌, String, str_eq, Option, none, some, List, [],
  ◌∷◌, ◌++◌, map, filter, head?, get_elem?, length, is_empty,
}
use sourced_rust.Prelude.HashMap
use sourced_rust.Prelude.HashMap.{HashMap}
use sourced_rust.Bus.{Event}

pub record PointToPointQueue : Type 0 where
  pub messages : List Event
  pub position : ℕ

-- What the clones and the subscribers of one queue share.
pub record Shared : Type 0 where
  pub log : List Event
  pub queues : HashMap PointToPointQueue

-- What a subscriber has of its own.
pub record Handle : Type 0 where
  pub position : ℕ
  pub acked : List String

abbrev pub new_shared : Shared
new_shared = record { log = []; queues = [] }

abbrev pub new_subscriber : Handle
new_subscriber = record { position = 0; acked = [] }

unfoldable pub event_types : Shared → List String
event_types s = map (λ (e : Event). e.event_type) s.log

unfoldable pub find_all_by_type : Shared → String → List Event
find_all_by_type s t = filter (λ (e : Event). str_eq e.event_type t) s.log

-- The event that the iterator finds first.
unfoldable pub find_by_type : Shared → String → Option Event
find_by_type s t = first s.log
  where
    first : List Event → Option Event
    first [] = none
    first (e ∷ es) = if str_eq e.event_type t then some e else first es

abbrev pub reset_position : Handle → Handle
reset_position h = record h { position = 0 }

-- `clear`: the log, and the position and the acknowledgements of the one handle it is called on.
unfoldable pub clear : Shared → Handle → Shared × Handle
clear s h = (record s { log = [] }, record { position = 0; acked = [] })

unfoldable pub publish : Shared → Event → Shared
publish s e = record s { log = s.log ++ e ∷ [] }

unfoldable pub publish_batch : Shared → List Event → Shared
publish_batch s es = record s { log = s.log ++ es }

-- One pass of the loop of `poll`.
unfoldable pub poll_once : Shared → Handle → Option Event × Handle
poll_once s h = elim (get_elem? s.log h.position) [
  | none ↦ (none, h)
  | some e ↦ (some e, record h { position = h.position + 1 })
]

unfoldable pub poll : List (List Event) → Shared → Handle → Option Event × Shared × Handle
unfolding poll_once publish_batch
poll [] s h = let (found, h') = poll_once s h in (found, s, h')
poll (es ∷ rest) s h =
    let (found, h') = poll_once s h in
    let later = poll rest (publish_batch s es) h in
    elim found [ none ↦ later | some e ↦ (some e, s, h') ]

unfoldable pub ack : Handle → String → Handle
ack h id = record h { acked = h.acked ++ id ∷ [] }

-- `HashSet::contains`
abbrev pub has_type : List String → Event → Bool
has_type [] e = false
has_type (t ∷ ts) e = str_eq t e.event_type || has_type ts e

-- `EventReceiver::recv`: for each turn of its loop before the deadline, the sleeps of its `poll`.
unfoldable pub recv :
    List String → List (List (List Event)) → Shared → Handle → Option Event × Shared × Handle
unfolding poll
recv types [] s h = (none, s, h)
recv types (waits ∷ rest) s h =
    let (found, s', h') = poll waits s h in
    let later = recv types rest s' h' in
    elim found [
      | none ↦ (none, s', h')
      | some e ↦ if has_type types e then (some e, s', h') else later
    ]

-- `self.recv(0)`: the deadline has passed before the first turn.
unfoldable pub try_recv : List String → Shared → Handle → Option Event × Shared × Handle
unfolding recv
try_recv types s h = recv types [] s h

-- `queues.entry(queue).or_default()`
abbrev pub queue_of : Shared → String → PointToPointQueue
queue_of s queue = elim (HashMap.get queue s.queues) [
  | none ↦ record { messages = []; position = 0 }
  | some q ↦ q
]

unfoldable pub send : Shared → String → Event → Shared
send s queue e =
    let q = queue_of s queue in
    record s {
      queues = HashMap.insert queue (record q { messages = q.messages ++ e ∷ [] }) s.queues;
    }

-- One pass of the loop of `listen`.
unfoldable pub listen_once : Shared → String → Option Event × Shared
listen_once s queue = elim (HashMap.get queue s.queues) [
  | none ↦ (none, s)
  | some q ↦ elim (get_elem? q.messages q.position) [
    | none ↦ (none, s)
    | some e ↦ (
      some e,
      record s { queues = HashMap.insert queue (record q { position = q.position + 1 }) s.queues },
    )
  ]
]

unfoldable pub send_each : Shared → List (String × Event) → Shared
unfolding send
send_each s [] = s
send_each s ((queue, e) ∷ rest) = send_each (send s queue e) rest

unfoldable pub listen : List (List (String × Event)) → Shared → String → Option Event × Shared
unfolding listen_once send_each
listen [] s queue = listen_once s queue
listen (sent ∷ rest) s queue =
    let (found, s') = listen_once s queue in
    let later = listen rest (send_each s sent) queue in
    elim found [ none ↦ later | some e ↦ (some e, s') ]
