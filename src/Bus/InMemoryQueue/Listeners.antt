-- ===== src/Bus/InMemoryQueue/Listeners.antt =====
-- src/bus/in_memory_queue.rs: several listeners of the named queues, whose calls interleave with each
-- other and with what is sent.
use sourced_rust.Prelude.{
  if◌then◌else◌, String, str_eq, Option, none, some, List, [], ◌∷◌, ◌++◌, drop, ◌≡◌,
}
use sourced_rust.Prelude.HashMap
use sourced_rust.Bus.{Event}
use sourced_rust.Bus.InMemoryQueue.{Shared, new_shared, queue_of, send, listen}
use sourced_rust.Bus.InMemoryQueue.Moving.{AllWithin}

-- The queues, and what all the listeners received, with the name of the queue.
pub record Listening : Type 0 where
  pub shared : Shared
  pub received : List (String × Event)

pub data Call : Type 0 where
  sends : String → Event → Call
  -- A listener calls `listen`, and meanwhile these messages are sent.
  listens : String → List (List (String × Event)) → Call

abbrev pub named : String → Option Event → List (String × Event)
named j none = []
named j (some e) = (j, e) ∷ []

unfoldable pub call : Listening → Call → Listening
unfolding send listen
call l (sends j e) = record l { shared = send l.shared j e }
call l (listens j waits) =
    let (found, s') = listen waits l.shared j in
    record { shared = s'; received = l.received ++ named j found }

unfoldable pub call_all : Listening → List Call → Listening
unfolding call
call_all l [] = l
call_all l (c ∷ cs) = call_all (call l c) cs

abbrev pub no_listeners : Listening
no_listeners = record { shared = new_shared; received = [] }

abbrev pub messages_of : String → List (String × Event) → List Event
messages_of k [] = []
messages_of k ((j, e) ∷ es) = let rest = messages_of k es in if str_eq j k then e ∷ rest else rest

-- Of each queue the listeners received what was sent to it before its position.
abbrev IsServed : Listening → Type 0
IsServed l =
    AllWithin l.shared
    × ((k : String)
        → let q = queue_of l.shared k in
          messages_of k l.received ++ drop q.position q.messages ≡ q.messages)
