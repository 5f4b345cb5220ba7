-- ===== src/Microsvc/Draining.antt =====
-- src/microsvc/service.rs with src/bus/in_memory_queue.rs: a thread that takes the commands of a named
-- queue to a service.
use sourced_rust.Prelude.{
  ℕ, zero, suc, ◌+◌, ◌≤◌, Bool, true, false, String, str_eq, if◌then◌else◌, Option, none, some,
  List, [], ◌∷◌, ◌++◌, length, Outcome, ok, err, panic, hang, ◌≡◌, refl, sym, ap, subst, ◌∙◌, arith,
  length-append,
}
use sourced_rust.Bus.{Event}
use sourced_rust.Bus.InMemoryQueue.{Shared, queue_of, listen}
use sourced_rust.Bus.InMemoryQueue.Moving.{Moved, Moved-append, AllWithin, taken_of, stays-Moved}
use sourced_rust.Bus.InMemoryQueue.Competing.{listen-Listened}
use sourced_rust.Microsvc.{Json, HandlerError, Service, dispatch_event}
use sourced_rust.Microsvc.Threads.{TransportStats, Turn, handle_event, listen_turn, listen_thread}
use sourced_rust.Microsvc.Serving.{
  Waiting, next_waits, later_waits, queue_listener, is_answer, Answers, tally, serve, after,
  no_poll, meets,
}

module _ {V : Type 0} (json : Json V) {S : Type 0} (service : Service V S) where
  -- What some turns of the thread made: the events `taken` left their queue, in order, and each was
  -- dispatched once.
  pub record Served (name : String) (turns : ℕ) (stats : TransportStats) (p : Waiting) (s : S)
      (x : Turn Waiting S) : Type 0 where
    pub taken : List Event
    pub moved :
        (k : String)
        → Moved (queue_of p.shared k) (if str_eq name k then taken else []) (queue_of x.1.shared k)
    pub result :
        let (h, f, s') = serve json service taken (stats.handled, stats.failed, s) in
        (x.0 ≡ ok (record { handled = h; failed = f; polls = stats.polls + turns })) × (x.2 ≡ s')
    pub few : length taken ≤ turns

  -- What a turn does behind the answer of `listen`.
  abbrev after_listen :
      TransportStats
      → S
      → List (List (List (String × Event)))
      → Option Event × Shared
      → Turn Waiting S
  after_listen polled s arrivals (found, s') =
      let p' : Waiting = record { shared = s'; arrivals = arrivals } in
      elim found [ none ↦ (ok polled, p', s) | some e ↦ handle_event json service polled p' s e ]

  -- What a turn does behind the answer of the handler.
  abbrev after_dispatch : TransportStats → Waiting → Outcome HandlerError V × S → Turn Waiting S
  after_dispatch stats p (r, s') = elim r [
    | ok _ ↦ (ok (record stats { handled = stats.handled + 1 }), p, s')
    | err _ ↦ (ok (record stats { failed = stats.failed + 1 }), p, s')
    | panic ↦ (panic, p, s')
    | hang ↦ (hang, p, s')
  ]

  after_dispatch-tally :
      (stats : TransportStats) (p : Waiting) (y : Outcome HandlerError V × S)
      → is_answer y.0 ≡ true
      → let x = after_dispatch stats p y in
        let (h, f, s') = tally json service stats.handled stats.failed y in
        (x.0 ≡ ok (record { handled = h; failed = f; polls = stats.polls }))
        × (x.1 ≡ p)
        × (x.2 ≡ s')
  after_dispatch-tally stats p (ok v, s') a = (refl, refl, refl)
  after_dispatch-tally stats p (err e, s') a = (refl, refl, refl)
  after_dispatch-tally stats p (panic, s') a = cc
  after_dispatch-tally stats p (hang, s') a = cc

  after_listen-Served :
      (name : String) (stats : TransportStats) (p : Waiting) (s : S)
      (arrivals : List (List (List (String × Event)))) (x : Option Event × Shared)
      → Answers json service
      → ((k : String) → Moved (queue_of p.shared k) (taken_of name k x.0) (queue_of x.1 k))
      → Served name 1 stats p s
          (after_listen (record stats { polls = stats.polls + 1 }) s arrivals x)
  unfolding handle_event
  after_listen-Served name stats p s arrivals (none, s') a m = record {
    taken = [];
    moved = m;
    result = (refl, refl);
    few = omega arith;
  }
  after_listen-Served name stats p s arrivals (some e, s') a m =
      let (r, p', t) =
        after_dispatch-tally (record stats { polls = stats.polls + 1 })
          (record { shared = s'; arrivals = arrivals }) (dispatch_event json service s e) (a s e) in
      record {
        taken = e ∷ [];
        moved = λ k.
            subst
              (λ (q : Waiting).
                Moved (queue_of p.shared k) (if str_eq name k then e ∷ [] else [])
                  (queue_of q.shared k))
              (sym p') (m k);
        result = (r, t);
        few = omega arith;
      }

  listen_turn-Served :
      (name : String) (stats : TransportStats) (p : Waiting) (s : S)
      → Answers json service
      → AllWithin p.shared
      → Served name 1 stats p s (listen_turn json service queue_listener name stats p s)
  unfolding listen_turn
  listen_turn-Served name stats p s a w =
      after_listen-Served name stats p s (later_waits p.arrivals)
        (listen (next_waits p.arrivals) p.shared name) a
        (listen-Listened (next_waits p.arrivals) p.shared name w).moved

  if_append :
      (b : Bool) (es fs : List Event)
      → ◌≡◌ {A = List Event}
          ((if b then es else []) ++ (if b then fs else []))
          (if b then es ++ fs else [])
  if_append true es fs = refl
  if_append false es fs = refl

  if_none : (b : Bool) → ◌≡◌ {A = List Event} [] (if b then [] else [])
  if_none true = refl
  if_none false = refl

  -- The turns behind a first one.
  abbrev after_turn : ℕ → String → Turn Waiting S → Turn Waiting S
  after_turn turns name (r, p', s') = elim r [
    | ok stats' ↦ listen_thread json service turns queue_listener name stats' p' s'
    | err e ↦ absurd e
    | panic ↦ (panic, p', s')
    | hang ↦ (hang, p', s')
  ]

  Served-trans :
      (name : String) (turns : ℕ) (stats stats' : TransportStats) (p p' : Waiting) (s s' : S)
      (x : Turn Waiting S)
      → AllWithin p.shared
      → Served name 1 stats p s (ok stats', p', s')
      → Served name turns stats' p' s' x
      → Served name (suc turns) stats p s x
  Served-trans name turns stats stats' p p' s s' x w a b = record {
    taken = a.taken ++ b.taken;
    moved = λ k.
        subst (λ l. Moved (queue_of p.shared k) l (queue_of x.1.shared k))
          (if_append (str_eq name k) a.taken b.taken)
          (Moved-append (queue_of p.shared k) (queue_of p'.shared k) (queue_of x.1.shared k) _ _
            (w k) (a.moved k) (b.moved k));
    result =
        let (m, k) = meets json service stats stats' turns s s' a.taken b.taken a.result in
        (b.result.0 ∙ m, b.result.1 ∙ k);
    few = omega (arith, a.few, b.few, length-append a.taken b.taken);
  }

  after_turn-Served :
      (name : String) (turns : ℕ) (stats : TransportStats) (p : Waiting) (s : S)
      → AllWithin p.shared
      → ((stats' : TransportStats) (p' : Waiting) (s' : S)
          → AllWithin p'.shared
          → Served name turns stats' p' s'
              (listen_thread json service turns queue_listener name stats' p' s'))
      → (x : Turn Waiting S) → Served name 1 stats p s x
      → Served name (suc turns) stats p s (after_turn turns name x)
  after_turn-Served name turns stats p s w rest (ok stats', p', s') a =
      Served-trans name turns stats stats' p p' s s' _ w a
        (rest stats' p' s' (λ k. (a.moved k).within))
  after_turn-Served name turns stats p s w rest (err e, p', s') a = absurd e
  after_turn-Served name turns stats p s w rest (panic, p', s') a = cc a.result.0
  after_turn-Served name turns stats p s w rest (hang, p', s') a = cc a.result.0

  listen_none-Served :
      (name : String) (stats : TransportStats) (p : Waiting) (s : S)
      → AllWithin p.shared
      → Served name 0 stats p s (ok stats, p, s)
  listen_none-Served name stats p s w = record {
    taken = [];
    moved = λ k.
        subst (λ l. Moved (queue_of p.shared k) l (queue_of p.shared k)) (if_none (str_eq name k))
          (stays-Moved (queue_of p.shared k) (w k));
    result = (ap (after json service (stats.handled, stats.failed, s)) (no_poll stats.polls), refl);
    few = omega arith;
  }

  -- Where no queue is behind its messages and the service answers every event, the thread that listens to
  -- `name` goes through each of its turns: the events it takes are the next ones of that queue, in their
  -- order, one in a turn at most, whatever others send in between, and no other queue loses one; each is
  -- dispatched once; and the statistics and the repository are those of serving these events one after the
  -- other, an answered error counted as failed and every turn as a poll.
  pub listen_thread-Served :
      (name : String) (turns : ℕ) (stats : TransportStats) (p : Waiting) (s : S)
      → Answers json service
      → AllWithin p.shared
      → Served name turns stats p s (listen_thread json service turns queue_listener name stats p s)
  unfolding listen_thread
  listen_thread-Served name zero stats p s a w = listen_none-Served name stats p s w
  listen_thread-Served name (suc turns) stats p s a w =
      after_turn-Served name turns stats p s w
        (λ stats' p' s'. listen_thread-Served name turns stats' p' s' a)
        (listen_turn json service queue_listener name stats p s)
        (listen_turn-Served name stats p s a w)
