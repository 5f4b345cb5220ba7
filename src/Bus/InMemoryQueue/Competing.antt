-- ===== src/Bus/InMemoryQueue/Competing.antt =====
-- src/bus/in_memory_queue.rs: what the listeners of a named queue receive together.
use sourced_rust.Prelude.{
  ◌≤◌, String, str_eq, Option, none, some, List, [], ◌∷◌, get_elem?, length, ◌≡◌, sym, ap, subst,
  arith, Option-cases, inl, inr, ◌⊎◌, if_cases,
}
use sourced_rust.Prelude.HashMap
use sourced_rust.Prelude.HashMap.{get-insert}
use sourced_rust.Bus.{Event}
use sourced_rust.Bus.InMemoryQueue.{
  Shared, PointToPointQueue, queue_of, send_each, listen_once, listen,
}
use sourced_rust.Bus.InMemoryQueue.FanOut.{get_elem-none}
use sourced_rust.Bus.InMemoryQueue.Moving.{
  Moved, AllWithin, AllMoved, advance, stays-Moved, Moved-trans, advance-Moved, insert-Moved,
  send_each-Moved,
}

queue_of-get :
    (s : Shared) (j : String) (q : PointToPointQueue)
    → HashMap.get j s.queues ≡ some q
    → queue_of s j ≡ q
queue_of-get s j q h = ground (arith, h)

listen_once-absent :
    (s : Shared) (j : String)
    → HashMap.get j s.queues ≡ none
    → (listen_once s j ≡ (none, s)) × (length (queue_of s j).messages ≤ (queue_of s j).position)
unfolding listen_once
listen_once-absent s j h = (ground (arith, h), ground (arith, h))

listen_once-empty :
    (s : Shared) (j : String) (q : PointToPointQueue)
    → HashMap.get j s.queues ≡ some q
    → get_elem? q.messages q.position ≡ none
    → listen_once s j ≡ (none, s)
unfolding listen_once
listen_once-empty s j q h k = ground (arith, h, k)

listen_once-next :
    (s : Shared) (j : String) (q : PointToPointQueue) (e : Event)
    → HashMap.get j s.queues ≡ some q
    → get_elem? q.messages q.position ≡ some e
    → listen_once s j ≡ (some e, record s { queues = HashMap.insert j (advance q) s.queues })
unfolding listen_once
listen_once-next s j q e h k = ground (arith, h, k)

-- One pass finds nothing, and leaves all as it is, or takes the next message.
listen_once-cases :
    (s : Shared) (j : String)
    → let q = queue_of s j in
      ((listen_once s j ≡ (none, s)) × (length q.messages ≤ q.position))
      ⊎ ((e : Event) × (get_elem? q.messages q.position ≡ some e)
          × (listen_once s j
              ≡ (some e, record s { queues = HashMap.insert j (advance q) s.queues })))
listen_once-cases s j = elim (Option-cases (HashMap.get j s.queues)) [
  | inl absent ↦ inl (listen_once-absent s j absent)
  | inr (q, found) ↦ elim (Option-cases (get_elem? q.messages q.position)) [
    | inl empty ↦ inl (
      listen_once-empty s j q found empty,
      rw (queue_of-get s j q found) (get_elem-none q.messages q.position empty),
    )
    | inr (e, next) ↦ inr (
      e,
      rw (queue_of-get s j q found) next,
      rw (queue_of-get s j q found) (listen_once-next s j q e found next),
    )
  ]
]

-- What a call of `listen` made of the queues: it took the next message of its queue, or none was
-- left in it.
pub record Listened (s : Shared) (j : String) (x : Option Event × Shared) : Type 0 where
  pub moved : AllMoved s j x
  pub empty : x.0 ≡ none → length (queue_of x.1 j).messages ≤ (queue_of x.1 j).position

none-Listened :
    (s : Shared) (j : String)
    → AllWithin s
    → length (queue_of s j).messages ≤ (queue_of s j).position
    → Listened s j (none, s)
none-Listened s j w le = record {
  moved = λ k.
      if_cases (λ l. Moved (queue_of s k) l (queue_of s k)) (str_eq j k) [] []
        (λ same. stays-Moved (queue_of s k) (w k)) (λ differs. stays-Moved (queue_of s k) (w k));
  empty = λ n. le;
}

some-Listened :
    (s : Shared) (j : String) (e : Event)
    → AllWithin s
    → get_elem? (queue_of s j).messages (queue_of s j).position ≡ some e
    → Listened s j
        (some e, record s { queues = HashMap.insert j (advance (queue_of s j)) s.queues })
some-Listened s j e w next = record {
  moved = λ k.
      insert-Moved s j k (advance (queue_of s j)) (e ∷ []) w (advance-Moved (queue_of s j) e next);
  empty = λ n. cc n;
}

-- What the loop of `listen` does behind a pass.
abbrev after_pass :
    List (String × Event)
    → List (List (String × Event))
    → Shared
    → String
    → Option Event × Shared
    → Option Event × Shared
after_pass sent rest s j (found, s') =
    let later = listen rest (send_each s sent) j in
    elim found [ none ↦ later | some e ↦ (some e, s') ]

-- `listen` takes the next unread message of its queue and nothing of the others, whatever is sent
-- while it sleeps, and it returns none only when every message of its queue has been taken; for
-- queues whose positions lie within their messages.
pub listen-Listened :
    (waits : List (List (String × Event))) (s : Shared) (j : String)
    → AllWithin s
    → Listened s j (listen waits s j)
unfolding listen
listen-Listened [] s j w = elim (listen_once-cases s j) [
  | inl (eq, le) ↦ subst (Listened s j) (sym eq) (none-Listened s j w le)
  | inr (e, next, eq) ↦ subst (Listened s j) (sym eq) (some-Listened s j e w next)
]
listen-Listened (sent ∷ rest) s j w =
    let later =
      listen-Listened rest (send_each s sent) j (λ k. (send_each-Moved s sent k w).within) in
    elim (listen_once-cases s j) [
      | inl (eq, le) ↦ subst (Listened s j) (sym (ap (after_pass sent rest s j) eq)) (record {
        moved = λ k.
            Moved-trans (queue_of s k) (queue_of (send_each s sent) k) _ _ (w k)
              (send_each-Moved s sent k w) (later.moved k);
        empty = later.empty;
      })
      | inr (e, next, eq) ↦
          subst (Listened s j) (sym (ap (after_pass sent rest s j) eq)) (some-Listened s j e w next)
    ]
