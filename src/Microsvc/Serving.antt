-- ===== src/Microsvc/Serving.antt =====
-- src/microsvc/service.rs with src/bus/in_memory_queue.rs: what a thread
-- that listens is to leave: the events served one after the other.
use sourced_rust.Prelude.{
  ℕ, suc, ◌+◌, Bool, true, false, String, if◌then◌else◌, List, [], ◌∷◌, ◌++◌, Outcome, ok, err,
  panic, hang, is_ok, ◌≡◌, refl, ap, arith,
}
use sourced_rust.Bus.{Event}
use sourced_rust.Bus.InMemoryQueue.{Shared, listen}
use sourced_rust.Microsvc.{Json, HandlerError, Service, dispatch_event}
use sourced_rust.Microsvc.Threads.{TransportStats, default_stats, Listener}

-- The queues, and what others send during the sleeps of the calls to come.
pub record Waiting : Type 0 where
  pub shared : Shared
  pub arrivals : List (List (List (String × Event)))

-- The sleeps of the next call, and those of the calls behind it.
abbrev pub next_waits : List (List (List (String × Event))) → List (List (String × Event))
next_waits [] = []
next_waits (waits ∷ rest) = waits

abbrev pub later_waits : List (List (List (String × Event))) → List (List (List (String × Event)))
later_waits [] = []
later_waits (waits ∷ rest) = rest

abbrev pub queue_listener : Listener Waiting
queue_listener = record {
  listen = λ p name.
      let (found, s') = listen (next_waits p.arrivals) p.shared name in
      (ok found, record { shared = s'; arrivals = later_waits p.arrivals });
}

abbrev pub is_answer : {E A : Type 0} → Outcome E A → Bool
is_answer (ok a) = true
is_answer (err e) = true
is_answer panic = false
is_answer hang = false

pub no_poll : (m : ℕ) → m ≡ m + 0
no_poll m = omega arith

next_poll : (m turns : ℕ) → m + 1 + turns ≡ m + suc turns
next_poll m turns = omega arith

abbrev pub stats_of : Outcome ⊥ TransportStats → TransportStats
stats_of (ok stats) = stats
stats_of (err e) = absurd e
stats_of panic = default_stats
stats_of hang = default_stats

module _ {V : Type 0} (json : Json V) {S : Type 0} (service : Service V S) where
  -- Every event is answered, well or with an error: no handler panics or waits for ever.
  abbrev pub Answers : Type 0
  Answers = (s : S) (e : Event) → is_answer (dispatch_event json service s e).0 ≡ true

  -- The events handled, the events failed, and the repository, after one more event.
  abbrev pub tally : ℕ → ℕ → Outcome HandlerError V × S → ℕ × ℕ × S
  tally h f (r, s') = if is_ok r then (h + 1, f, s') else (h, f + 1, s')

  abbrev pub one : ℕ × ℕ × S → Event → ℕ × ℕ × S
  one (h, f, s) e = tally h f (dispatch_event json service s e)

  abbrev pub serve : List Event → ℕ × ℕ × S → ℕ × ℕ × S
  serve [] t = t
  serve (e ∷ es) t = serve es (one t e)

  serve-append : (es fs : List Event) (t : ℕ × ℕ × S) → serve (es ++ fs) t ≡ serve fs (serve es t)
  serve-append [] fs t = refl
  serve-append (e ∷ es) fs t = serve-append es fs (one t e)

  abbrev pub after : ℕ × ℕ × S → ℕ → Outcome ⊥ TransportStats
  after (h, f, s) m = ok (record { handled = h; failed = f; polls = m })

  -- The statistics that a first part of the turns left are those the second part starts from.
  pub meets :
      (stats stats' : TransportStats) (turns : ℕ) (s s' : S) (es fs : List Event)
      → let (h, f, r) = serve es (stats.handled, stats.failed, s) in
        (◌≡◌ {A = Outcome ⊥ TransportStats}
            (ok stats')
            (ok (record { handled = h; failed = f; polls = stats.polls + 1 })))
          × (s' ≡ r)
        → let (h, f, r) = serve fs (stats'.handled, stats'.failed, s') in
          let (h', f', r') = serve (es ++ fs) (stats.handled, stats.failed, s) in
          (◌≡◌ {A = Outcome ⊥ TransportStats}
            (ok (record { handled = h; failed = f; polls = stats'.polls + turns }))
            (ok (record { handled = h'; failed = f'; polls = stats.polls + suc turns })))
          × (r ≡ r')
  meets stats stats' turns s s' es fs (a, b) =
      let h = ap (λ r. (stats_of r).handled) a in
      let f = ap (λ r. (stats_of r).failed) a in
      let n = ap (λ r. (stats_of r).polls) a in
      rw (serve-append es fs, h, f, n, b)
        (
          ap (λ m. after (serve fs (serve es (stats.handled, stats.failed, s))) m)
              (next_poll stats.polls turns),
          refl,
        )
