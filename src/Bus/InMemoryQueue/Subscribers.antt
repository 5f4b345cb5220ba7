-- ===== src/Bus/InMemoryQueue/Subscribers.antt =====
-- src/bus/in_memory_queue.rs: several subscribers of one log, whose polls interleave with each other and
-- with what is published.
use sourced_rust.Prelude.{
  ℕ, zero, suc, ◌≤◌, Option, List, [], ◌∷◌, ◌++◌, length, drop, All, ◌≡◌, refl, sym, ap, subst, ◌∙◌,
  arith, length-append, drop-append, append_assoc, append-nil,
}
use sourced_rust.Bus.{Event}
use sourced_rust.Bus.InMemoryQueue.{
  Shared, Handle, new_shared, new_subscriber, publish, publish_batch, poll,
}
use sourced_rust.Bus.InMemoryQueue.FanOut.{option_list, Polled, poll-Polled}

-- A subscriber, with all that its polls returned.
pub record Subscriber : Type 0 where
  pub handle : Handle
  pub received : List Event

pub record Subscribed : Type 0 where
  pub shared : Shared
  pub subscribers : List Subscriber

pub data Action : Type 0 where
  publishes : Event → Action
  publishes_batch : List Event → Action
  subscribes : Action
  -- The subscriber at this position polls, and meanwhile these events arrive.
  polls : ℕ → List (List Event) → Action

unfoldable pub poll_at : ℕ → List (List Event) → Shared → List Subscriber → Shared × List Subscriber
unfolding poll
poll_at n waits s [] = (s, [])
poll_at zero waits s (c ∷ cs) =
    let (found, s', h') = poll waits s c.handle in
    (s', record { handle = h'; received = c.received ++ option_list found } ∷ cs)
poll_at (suc n) waits s (c ∷ cs) = let (s', cs') = poll_at n waits s cs in (s', c ∷ cs')

unfoldable pub act : Subscribed → Action → Subscribed
unfolding publish publish_batch poll_at
act w (publishes e) = record w { shared = publish w.shared e }
act w (publishes_batch es) = record w { shared = publish_batch w.shared es }
act w subscribes = record w {
  subscribers = record { handle = new_subscriber; received = [] } ∷ w.subscribers;
}
act w (polls n waits) =
    let (s', cs) = poll_at n waits w.shared w.subscribers in
    record { shared = s'; subscribers = cs }

unfoldable pub act_all : Subscribed → List Action → Subscribed
unfolding act
act_all w [] = w
act_all w (a ∷ rest) = act_all (act w a) rest

abbrev pub no_subscribers : Subscribed
no_subscribers = record { shared = new_shared; subscribers = [] }

-- A subscriber received what stands in the log before its position.
pub record IsDelivered (log : List Event) (c : Subscriber) : Type 0 where
  pub within : c.handle.position ≤ length log
  pub delivered : c.received ++ drop c.handle.position log ≡ log

abbrev AreDelivered : List Event → List Subscriber → Type 0
AreDelivered log cs = All (IsDelivered log) cs

append-IsDelivered :
    (log es : List Event) (c : Subscriber) → IsDelivered log c → IsDelivered (log ++ es) c
append-IsDelivered log es c d = record {
  within = omega (arith, d.within, length-append log es);
  delivered =
      ap (λ l. c.received ++ l) (drop-append c.handle.position log es d.within)
      ∙ sym (append_assoc c.received (drop c.handle.position log) es)
      ∙ ap (λ l. l ++ es) d.delivered;
}

append-AreDelivered :
    (log es : List Event) (cs : List Subscriber) → AreDelivered log cs → AreDelivered (log ++ es) cs
append-AreDelivered log es [] d = tt
append-AreDelivered log es (c ∷ cs) d =
    (append-IsDelivered log es c d.0, append-AreDelivered log es cs d.1)

poll-IsDelivered :
    (s : Shared) (c : Subscriber) (x : Option Event × Shared × Handle)
    → IsDelivered s.log c
    → Polled s c.handle x
    → IsDelivered x.1.log (record { handle = x.2; received = c.received ++ option_list x.0 })
poll-IsDelivered s c x d p = record {
  within = p.within;
  delivered =
      append_assoc c.received (option_list x.0) (drop x.2.position x.1.log)
      ∙ ap (λ l. c.received ++ l) (sym p.unread)
      ∙ ap (λ l. c.received ++ drop c.handle.position l) p.log
      ∙ (append-IsDelivered s.log p.arrived c d).delivered
      ∙ sym p.log;
}

poll_at-AreDelivered :
    (n : ℕ) (waits : List (List Event)) (s : Shared) (cs : List Subscriber)
    → AreDelivered s.log cs
    → let (s', cs') = poll_at n waits s cs in
      (es : List Event) × (s'.log ≡ s.log ++ es) × AreDelivered s'.log cs'
unfolding poll_at
poll_at-AreDelivered n waits s [] d = ([], sym (append-nil s.log), tt)
poll_at-AreDelivered zero waits s (c ∷ cs) d =
    let p = poll-Polled waits s c.handle d.0.within in
    (
      p.arrived,
      p.log,
      (
        poll-IsDelivered s c (poll waits s c.handle) d.0 p,
        subst (λ l. AreDelivered l cs) (sym p.log) (append-AreDelivered s.log p.arrived cs d.1),
      ),
    )
poll_at-AreDelivered (suc n) waits s (c ∷ cs) d =
    let (es, log, rest) = poll_at-AreDelivered n waits s cs d.1 in
    (es, log, (subst (λ l. IsDelivered l c) (sym log) (append-IsDelivered s.log es c d.0), rest))

act-AreDelivered :
    (w : Subscribed) (a : Action)
    → AreDelivered w.shared.log w.subscribers
    → AreDelivered (act w a).shared.log (act w a).subscribers
unfolding act publish publish_batch
act-AreDelivered w (publishes e) d = append-AreDelivered w.shared.log (e ∷ []) w.subscribers d
act-AreDelivered w (publishes_batch es) d = append-AreDelivered w.shared.log es w.subscribers d
act-AreDelivered w subscribes d = (record { within = omega arith; delivered = refl }, d)
act-AreDelivered w (polls n waits) d = (poll_at-AreDelivered n waits w.shared w.subscribers d).2

act_all-AreDelivered :
    (w : Subscribed) (actions : List Action)
    → AreDelivered w.shared.log w.subscribers
    → AreDelivered (act_all w actions).shared.log (act_all w actions).subscribers
unfolding act_all
act_all-AreDelivered w [] d = d
act_all-AreDelivered w (a ∷ rest) d = act_all-AreDelivered (act w a) rest (act-AreDelivered w a d)

-- Fan-out: however publishing, subscribing and polling interleave, each subscriber received, in the
-- order of the log, each event before its position once, whenever it subscribed and whatever the
-- others polled; what it has not received yet is the rest of the log.
pub every_subscriber :
    (actions : List Action)
    → let w = act_all no_subscribers actions in All (IsDelivered w.shared.log) w.subscribers
every_subscriber actions = act_all-AreDelivered no_subscribers actions tt
