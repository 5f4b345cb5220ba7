-- ===== src/OutboxWorker/Settling.antt =====
-- src/outbox_worker/thread.rs: what becomes of the messages that a turn of the thread claimed.
use mathlib.Core.List.{Perm}
use sourced_rust.Prelude.{
  ◌++◌, subst, ap, ℕ, ◌+◌, ◌≡◌, ◌∙◌, refl, Bool, true, false, String, Option, some, none, List,
  if◌then◌else◌, Outcome, ok, err, panic, hang, is_ok, not, arith,
}
use sourced_rust.Prelude.HashMap.{IsMap}
use sourced_rust.Repository.{RepositoryError}
use sourced_rust.HashMapRepo.{HashMapRepository, Storage}
use sourced_rust.Bus.{Event, Bus, PublishError}
use sourced_rust.Outbox.{OutboxMessage, pending, in_flight, published, OutboxCodecs}
use sourced_rust.Outbox.Recording.{AreLossless}
use sourced_rust.OutboxWorker.{has_status, complete_outbox_message, release_outbox_message}
use sourced_rust.OutboxWorker.Thread.{WorkerStats}
use sourced_rust.OutboxWorker.Readable.{IsOutboxStore, tally, contents}
use sourced_rust.OutboxWorker.Entries.{FliesAt, Differ, Flown, Flown-replaced}
use sourced_rust.OutboxWorker.Contents.{Content, content, count_if, only}
use sourced_rust.OutboxWorker.Finishing.{Finishes, complete-Finishes, release-Finishes}

abbrev pub is_answer : Outcome PublishError (Unit {0}) → Bool
is_answer (ok t) = true
is_answer (err e) = true
is_answer panic = false
is_answer hang = false

-- A bus that answers each call, well or with an error.
pub record Replies {P : Type 0} (bus : Bus P) : Type 0 where
  pub publishes : (p : P) (e : Event) → is_answer (bus.publish p e).0 ≡ true
  pub sends : (p : P) (name : String) (e : Event) → is_answer (bus.send p name e).0 ≡ true

-- The entries of a repository with `sent` more messages published and `refused` more pending, all of
-- which were in flight, and what they carry.
pub record Counts (codecs : OutboxCodecs) (storage : Storage) (h : IsOutboxStore codecs storage)
    (sent refused : ℕ) (taken returned : List Content) (repo : HashMapRepository) : Type 0 where
  pub unlocked : repo.event_store.poisoned ≡ false
  pub distinct : IsMap repo.event_store.value
  pub readable : IsOutboxStore codecs repo.event_store.value
  pub in_flights :
      tally codecs in_flight storage h
      ≡ tally codecs in_flight repo.event_store.value readable + (sent + refused)
  pub publisheds :
      tally codecs published repo.event_store.value readable
      ≡ tally codecs published storage h + sent
  pub pendings :
      tally codecs pending repo.event_store.value readable
      ≡ tally codecs pending storage h + refused
  pub arrived :
      Perm
        (contents codecs published repo.event_store.value readable)
        (taken ++ contents codecs published storage h)
  pub resumed :
      Perm
        (contents codecs pending repo.event_store.value readable)
        (returned ++ contents codecs pending storage h)
  pub waiting :
      refused ≡ 0
      → contents codecs pending repo.event_store.value readable ≡ contents codecs pending storage h

module _ (codecs : OutboxCodecs) (lossless : AreLossless codecs) (now : ℕ) (storage : Storage)
    (h : IsOutboxStore codecs storage) (carried : Content) where
  -- One message went, and the others still fly.
  pub record OneOf (taken : Bool) (repo : HashMapRepository) : Type 0 where
    pub counts :
        Counts codecs storage h
          (count_if taken)
          (count_if (not taken))
          (only taken carried)
          (only (not taken) carried)
          repo
    pub still :
        (ms : List OutboxMessage)
        → Differ codecs carried.id ms
        → Flown codecs storage h ms
        → Flown codecs repo.event_store.value counts.readable ms

  is_published-moved :
      (b : Bool) (m : OutboxMessage)
      → m.status ≡ (if b then published else pending)
      → has_status published m ≡ b
  is_published-moved true m e = rw e
  is_published-moved false m e = rw e

  is_pending-moved :
      (b : Bool) (m : OutboxMessage)
      → m.status ≡ (if b then published else pending)
      → has_status pending m ≡ not b
  is_pending-moved true m e = rw e
  is_pending-moved false m e = rw e

  -- What a list gains from a message that carries `carried`.
  gains :
      (b : Bool) (m : OutboxMessage) (has : Bool) (cs : List Content)
      → has ≡ b
      → content m ≡ carried
      → only has (content m) ++ cs ≡ only b carried ++ cs
  gains b m has cs e c = ap (λ a. only a (content m) ++ cs) e ∙ ap (λ d. only b d ++ cs) c

  pub finished-OneOf :
      (taken : Bool) (x : Outcome RepositoryError (Unit {0}) × HashMapRepository)
      → Finishes codecs lossless now storage h carried (if taken then published else pending) x
      → OneOf taken x.1
  finished-OneOf taken x f =
      let c = f.replaced in
      record {
        counts = record {
          unlocked = f.unlocked;
          distinct = f.distinct;
          readable = c.readable;
          in_flights = ground (arith, f.moved, c.counts in_flight);
          publisheds = ground (arith, f.moved, c.counts published);
          pendings = ground (arith, f.moved, c.counts pending);
          arrived =
              subst (Perm _)
                (gains taken f.message _ _ (is_published-moved taken f.message f.moved) f.carries)
                (c.listing published refl);
          resumed =
              subst (Perm _)
                (gains (not taken) f.message _ _ (is_pending-moved taken f.message f.moved)
                  f.carries)
                (c.listing pending refl);
          waiting = λ z. c.waiting (ground (arith, f.moved, z));
        };
        still =
            λ ms. Flown-replaced codecs storage h carried.id f.message x.1.event_store.value ms c;
      }

module _ (codecs : OutboxCodecs) (lossless : AreLossless codecs) {P : Type 0} (bus : Bus P)
    (replies : Replies bus) (routed : Bool) (now : ℕ) where
  -- What `publish_claimed` does behind the answer of the bus.
  abbrev pub after_deliver :
      HashMapRepository
      → WorkerStats
      → OutboxMessage
      → Outcome PublishError (Unit {0}) × P
      → Option (HashMapRepository × P × WorkerStats)
  after_deliver repo stats m (r, p') = elim r [
    | ok _ ↦
        let (c, repo') = complete_outbox_message codecs repo now m.entity.id in
        some (
          repo',
          p',
          if is_ok c
              then record stats { messages_published = stats.messages_published + 1 }
              else stats,
        )
    | err _ ↦
        let (c, repo') = release_outbox_message codecs repo now m.entity.id "publish failed" in
        some (repo', p', record stats { messages_failed = stats.messages_failed + 1 })
    | panic ↦ none
    | hang ↦ none
  ]

  -- One claimed message, for each answer of the bus.
  pub record SettlesOne (repo : HashMapRepository) (h : IsOutboxStore codecs repo.event_store.value)
      (stats : WorkerStats) (m : OutboxMessage) (y : Outcome PublishError (Unit {0}) × P)
      : Type 0 where
    pub repo' : HashMapRepository
    pub result :
        after_deliver repo stats m y
        ≡ some (
          repo',
          y.1,
          record stats {
            messages_published = stats.messages_published + count_if (is_ok y.0);
            messages_failed = stats.messages_failed + count_if (not (is_ok y.0));
          },
        )
    pub one : OneOf codecs lossless now repo.event_store.value h (content m) (is_ok y.0) repo'

  pub settles_one :
      (repo : HashMapRepository) (h : IsOutboxStore codecs repo.event_store.value)
      (stats : WorkerStats) (m : OutboxMessage) (y : Outcome PublishError (Unit {0}) × P)
      → repo.event_store.poisoned ≡ false
      → IsMap repo.event_store.value
      → FliesAt codecs repo.event_store.value h (content m)
      → is_answer y.0 ≡ true
      → SettlesOne repo h stats m y
  settles_one repo h stats m (ok t, p') o d f a =
      let x = complete-Finishes codecs lossless now repo (content m) o d h f in
      record {
        repo' = (complete_outbox_message codecs repo now m.entity.id).1;
        result = ground (arith, x.succeeds);
        one = finished-OneOf codecs lossless now repo.event_store.value h (content m) true _ x;
      }
  settles_one repo h stats m (err e, p') o d f a =
      let x = release-Finishes codecs lossless now repo (content m) o d h f "publish failed" in
      record {
        repo' = (release_outbox_message codecs repo now m.entity.id "publish failed").1;
        result = ground (arith, x.succeeds);
        one = finished-OneOf codecs lossless now repo.event_store.value h (content m) false _ x;
      }
  settles_one repo h stats m (panic, p') o d f a = cc a
  settles_one repo h stats m (hang, p') o d f a = cc a
