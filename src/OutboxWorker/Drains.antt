-- ===== src/OutboxWorker/Drains.antt =====
-- src/outbox_worker/thread.rs: some turns of the thread on a bus that takes every message.
use mathlib.Core.List.{Perm}
use mathlib.Core.List.Perm
use sourced_rust.Prelude.{
  subst, map, ◌++◌, append_assoc, ℕ, ◌+◌, ◌*◌, ◌≤◌, ◌≡◌, refl, ap, sym, ◌∙◌, String, Bool, Option,
  some, none, List, [], ◌∷◌, length, false, ok, arith,
}
use sourced_rust.Prelude.HashMap.{IsMap}
use sourced_rust.HashMapRepo.{HashMapRepository}
use sourced_rust.Bus.{Event, Bus}
use sourced_rust.Bus.InMemoryQueue.Traits.{in_memory_bus}
use sourced_rust.Outbox.{pending, in_flight, published, OutboxCodecs}
use sourced_rust.Outbox.Recording.{AreLossless}
use sourced_rust.OutboxWorker.Thread.{WorkerStats, worker_thread}
use sourced_rust.OutboxWorker.Readable.{IsOutboxStore, tally, contents}
use sourced_rust.OutboxWorker.Settling.{Replies}
use sourced_rust.OutboxWorker.Contents.{
  Content, content, ask, ask_each, accepted, ask-each, ask_each-append,
}
use sourced_rust.OutboxWorker.Delivering.{gained, no_more}
use sourced_rust.OutboxWorker.Turns.{poll-Turned}

-- A bus that takes every event, as the in-memory queue does.
pub record Takes {P : Type 0} (bus : Bus P) : Type 0 where
  pub publishes : (p : P) (e : Event) → (bus.publish p e).0 ≡ ok tt
  pub sends : (p : P) (name : String) (e : Event) → (bus.send p name e).0 ≡ ok tt

pub Takes-Replies : {P : Type 0} (bus : Bus P) → Takes bus → Replies bus
Takes-Replies bus t = record {
  publishes = λ p e. rw (t.publishes p e) refl;
  sends = λ p name e. rw (t.sends p name e) refl;
}

pub in_memory_bus-Takes : Takes in_memory_bus
unfolding in_memory_bus
in_memory_bus-Takes = record { publishes = λ s e. refl; sends = λ s name e. refl }

module _ {P : Type 0} (bus : Bus P) (takes : Takes bus) (routed : Bool) where
  none_refused : (p : P) (cs : List Content) → (ask_each bus routed p cs).1 ≡ 0
  none_refused p [] = refl
  none_refused p (c ∷ cs) = ground (
    arith,
    ask-each bus routed (λ r. r ≡ ok tt) takes.publishes takes.sends p c,
    none_refused (ask bus routed p c).1 cs,
  )

  accepted-all : (p : P) (cs : List Content) → accepted bus routed p cs ≡ cs
  accepted-all p [] = refl
  accepted-all p (c ∷ cs) =
      let e = ask-each bus routed (λ r. r ≡ ok tt) takes.publishes takes.sends p c in
      rw (e, accepted-all (ask bus routed p c).1 cs) refl

-- What some turns leave: `count` messages went from pending to published, and the bus was asked for what
-- was first in the queue, once for each and in order.
pub record Drains (codecs : OutboxCodecs) {P : Type 0} (bus : Bus P) (routed : Bool) (p : P)
    (repo : HashMapRepository) (h : IsOutboxStore codecs repo.event_store.value) (turns : ℕ)
    (stats : WorkerStats) (x : Option (HashMapRepository × P × WorkerStats)) : Type 0 where
  pub count : ℕ
  pub repo' : HashMapRepository
  pub delivered : List Content
  pub result :
      x
      ≡ some (
        repo',
        (ask_each bus routed p delivered).2,
        record {
          messages_published = stats.messages_published + count;
          messages_failed = stats.messages_failed;
          polls = stats.polls + turns;
        },
      )
  pub unlocked : repo'.event_store.poisoned ≡ false
  pub readable : IsOutboxStore codecs repo'.event_store.value
  pub in_flights :
      tally codecs in_flight repo'.event_store.value readable
      ≡ tally codecs in_flight repo.event_store.value h
  pub publisheds :
      tally codecs published repo'.event_store.value readable
      ≡ tally codecs published repo.event_store.value h + count
  pub pendings :
      tally codecs pending repo'.event_store.value readable + count
      ≡ tally codecs pending repo.event_store.value h
  pub drained :
      tally codecs pending repo.event_store.value h ≤ 100 * turns
      → tally codecs pending repo'.event_store.value readable ≡ 0
  pub arrived :
      Perm
        (contents codecs published repo'.event_store.value readable)
        (delivered ++ contents codecs published repo.event_store.value h)
  pub order :
      contents codecs pending repo.event_store.value h
      ≡ delivered ++ contents codecs pending repo'.event_store.value readable

pub same_stats :
    {P : Type 0} {a a' b b' c c' : ℕ} (repo : HashMapRepository) (p : P)
    → a ≡ a'
    → b ≡ b'
    → c ≡ c'
    → ◌≡◌ {A = Option (HashMapRepository × P × WorkerStats)}
        (some (repo, p, record { messages_published = a; messages_failed = b; polls = c }))
        (some (repo, p, record { messages_published = a'; messages_failed = b'; polls = c' }))
same_stats repo p x y z = rw (x, y, z) refl

module _ (codecs : OutboxCodecs) (lossless : AreLossless codecs) {P : Type 0} (bus : Bus P)
    (takes : Takes bus) (routed : Bool) (worker : String) where
  abbrev after_turn :
      List ℕ
      → Option (HashMapRepository × P × WorkerStats)
      → Option (HashMapRepository × P × WorkerStats)
  after_turn nows x = elim x [
    | none ↦ none
    | some (repo', p', stats') ↦ worker_thread codecs bus routed repo' nows worker p' stats'
  ]

  pub worker_thread-Drains :
      (repo : HashMapRepository) (nows : List ℕ) (p : P) (stats : WorkerStats)
      → repo.event_store.poisoned ≡ false
      → IsMap repo.event_store.value
      → (h : IsOutboxStore codecs repo.event_store.value)
      → Drains codecs bus routed p repo h
          (length nows)
          stats
          (worker_thread codecs bus routed repo nows worker p stats)
  unfolding worker_thread
  worker_thread-Drains repo [] p stats o d h = record {
    count = 0;
    repo' = repo;
    delivered = [];
    result = rw (no_more stats.messages_published, no_more stats.polls);
    unlocked = o;
    readable = h;
    in_flights = refl;
    publisheds = omega arith;
    pendings = omega arith;
    drained = λ b. omega (arith, b);
    arrived = Perm.refl _;
    order = refl;
  }
  worker_thread-Drains repo (now ∷ nows) p stats o d h =
      let t =
        poll-Turned codecs lossless bus (Takes-Replies bus takes) routed repo now worker p stats o d
          h in
      let none_left = none_refused bus takes routed p (map content t.messages) in
      let (sent, refused, q) = ask_each bus routed p (map content t.messages) in
      let stats' : WorkerStats = record {
        messages_published = stats.messages_published + sent;
        messages_failed = stats.messages_failed + refused;
        polls = stats.polls + 1;
      } in
      let rest = worker_thread-Drains t.repo' nows q stats' t.unlocked t.distinct t.readable in
      record {
        count = sent + rest.count;
        repo' = rest.repo';
        delivered = map content t.messages ++ rest.delivered;
        result =
            ap (after_turn nows) t.result
            ∙ rest.result
            ∙ ap
                (λ y. some (
                  rest.repo',
                  y,
                  record {
                    messages_published = stats.messages_published + sent + rest.count;
                    messages_failed = stats.messages_failed + refused;
                    polls = stats.polls + 1 + length nows;
                  },
                ))
                (sym (ask_each-append bus routed p (map content t.messages) rest.delivered))
            ∙ same_stats rest.repo' _ (omega arith) (omega (arith, none_left)) (omega arith);
        unlocked = rest.unlocked;
        readable = rest.readable;
        in_flights = omega (arith, t.in_flights, rest.in_flights);
        publisheds = omega (arith, t.publisheds, rest.publisheds);
        pendings = omega (arith, t.pendings, rest.pendings);
        drained =
            λ b. rest.drained (ground (arith, b, t.pendings, t.drained, t.each, none_left, t.few));
        arrived = gained (map content t.messages) rest.delivered _ rest.arrived (
            subst
              (λ cs.
                Perm (contents codecs published t.repo'.event_store.value t.readable)
                  (cs ++ contents codecs published repo.event_store.value h))
              (accepted-all bus takes routed p (map content t.messages)) t.arrived);
        order =
            t.waiting none_left
            ∙ ap (λ cs. map content t.messages ++ cs) rest.order
            ∙ sym (append_assoc (map content t.messages) rest.delivered _);
      }
