-- ===== src/Bus/InMemoryQueue/Moving.antt =====
-- src/bus/in_memory_queue.rs: how sending and taking move the queues.
use sourced_rust.Prelude.{
  suc, ◌+◌, ◌≤◌, Bool, true, false, if◌then◌else◌, String, str_eq, eq_iff, Option, some, List, [],
  ◌∷◌, ◌++◌, get_elem?, length, drop, ◌≡◌, refl, sym, ap, subst, ◌∙◌, arith, length-append,
  drop-append, append_assoc, append-nil, Bool-cases, inl, inr,
}
use sourced_rust.Prelude.HashMap
use sourced_rust.Prelude.HashMap.{get-insert}
use sourced_rust.Bus.{Event}
use sourced_rust.Bus.InMemoryQueue.{Shared, PointToPointQueue, queue_of, send, send_each}
use sourced_rust.Bus.InMemoryQueue.FanOut.{option_list, drop-get_elem}

-- From a queue the next messages `taken` were taken, while others arrived.
pub record Moved (q : PointToPointQueue) (taken : List Event) (q' : PointToPointQueue)
    : Type 0 where
  pub arrived : List Event
  pub messages : q'.messages ≡ q.messages ++ arrived
  pub unread : drop q.position q'.messages ≡ taken ++ drop q'.position q'.messages
  pub within : q'.position ≤ length q'.messages

abbrev pub IsWithin : PointToPointQueue → Type 0
IsWithin q = q.position ≤ length q.messages

pub stays-Moved : (q : PointToPointQueue) → IsWithin q → Moved q [] q
stays-Moved q le = record {
  arrived = [];
  messages = sym (append-nil q.messages);
  unread = refl;
  within = le;
}

pub Moved-append :
    (q q₁ q₂ : PointToPointQueue) (first second : List Event)
    → IsWithin q
    → Moved q first q₁
    → Moved q₁ second q₂
    → Moved q (first ++ second) q₂
Moved-append q q₁ q₂ first second le a b = record {
  arrived = a.arrived ++ b.arrived;
  messages =
      b.messages
      ∙ ap (λ l. l ++ b.arrived) a.messages
      ∙ append_assoc q.messages a.arrived b.arrived;
  unread =
      ap (drop q.position) b.messages
      ∙ drop-append q.position q₁.messages b.arrived
          (omega (arith, le, ap length a.messages, length-append q.messages a.arrived))
      ∙ ap (λ l. l ++ b.arrived) a.unread
      ∙ append_assoc first (drop q₁.position q₁.messages) b.arrived
      ∙ ap (λ l. first ++ l)
          (sym (drop-append q₁.position q₁.messages b.arrived a.within)
            ∙ ap (drop q₁.position) (sym b.messages)
            ∙ b.unread)
      ∙ sym (append_assoc first second (drop q₂.position q₂.messages));
  within = b.within;
}

pub Moved-trans :
    (q q₁ q₂ : PointToPointQueue) (taken : List Event)
    → IsWithin q
    → Moved q [] q₁
    → Moved q₁ taken q₂
    → Moved q taken q₂
Moved-trans q q₁ q₂ taken le a b = Moved-append q q₁ q₂ [] taken le a b

-- What a call on the queue `j` took of the queue `k`.
abbrev pub taken_of : String → String → Option Event → List Event
taken_of j k found = if str_eq j k then option_list found else []

abbrev pub AllWithin : Shared → Type 0
AllWithin s = (k : String) → IsWithin (queue_of s k)

abbrev pub AllMoved : Shared → String → Option Event × Shared → Type 0
AllMoved s j x = (k : String) → Moved (queue_of s k) (taken_of j k x.0) (queue_of x.1 k)

queue_of-insert :
    (s : Shared) (j k : String) (q : PointToPointQueue)
    → queue_of (record s { queues = HashMap.insert j q s.queues }) k
      ≡ (if str_eq j k then q else queue_of s k)
queue_of-insert s j k q = ground (arith, get-insert j k q s.queues)

abbrev push : PointToPointQueue → Event → PointToPointQueue
push q e = record q { messages = q.messages ++ e ∷ [] }

abbrev pub advance : PointToPointQueue → PointToPointQueue
advance q = record q { position = q.position + 1 }

push-Moved : (q : PointToPointQueue) (e : Event) → IsWithin q → Moved q [] (push q e)
push-Moved q e le = record {
  arrived = e ∷ [];
  messages = refl;
  unread = refl;
  within = omega (arith, le, length-append q.messages (e ∷ []));
}

pub advance-Moved :
    (q : PointToPointQueue) (e : Event)
    → get_elem? q.messages q.position ≡ some e
    → Moved q (e ∷ []) (advance q)
advance-Moved q e eq = record {
  arrived = [];
  messages = sym (append-nil q.messages);
  unread = (drop-get_elem q.messages q.position e eq).0 ∙ ap (λ n. e ∷ drop n q.messages) next;
  within = omega (arith, (drop-get_elem q.messages q.position e eq).1);
}
  where
    next : suc q.position ≡ q.position + 1
    next = omega arith

-- A new queue under `j`, seen at `k`.
pub insert-Moved :
    (s : Shared) (j k : String) (q' : PointToPointQueue) (taken : List Event)
    → AllWithin s
    → Moved (queue_of s j) taken q'
    → Moved
        (queue_of s k)
        (if str_eq j k then taken else [])
        (queue_of (record s { queues = HashMap.insert j q' s.queues }) k)
insert-Moved s j k q' taken w m =
    subst (Moved (queue_of s k) (if str_eq j k then taken else [])) (sym (queue_of-insert s j k q'))
      (elim (Bool-cases (str_eq j k)) [
        | inl same ↦ rw same (subst (λ i. Moved (queue_of s i) taken q') ((eq_iff j k).0 same) m)
        | inr differs ↦ rw differs (stays-Moved (queue_of s k) (w k))
      ])

pub send-Moved :
    (s : Shared) (j : String) (e : Event) (k : String)
    → AllWithin s
    → Moved (queue_of s k) [] (queue_of (send s j e) k)
unfolding send
send-Moved s j e k w =
    subst (λ l. Moved (queue_of s k) l (queue_of (send s j e) k)) (if_same (str_eq j k))
      (insert-Moved s j k (push (queue_of s j) e) [] w (push-Moved (queue_of s j) e (w j)))
  where
    if_same : (b : Bool) → ◌≡◌ {A = List Event} (if b then [] else []) []
    if_same true = refl
    if_same false = refl

pub send_each-Moved :
    (s : Shared) (sent : List (String × Event)) (k : String)
    → AllWithin s
    → Moved (queue_of s k) [] (queue_of (send_each s sent) k)
unfolding send_each
send_each-Moved s [] k w = stays-Moved (queue_of s k) (w k)
send_each-Moved s ((j, e) ∷ rest) k w =
    Moved-trans (queue_of s k) (queue_of (send s j e) k) _ [] (w k) (send-Moved s j e k w)
      (send_each-Moved (send s j e) rest k (λ i. (send-Moved s j e i w).within))
