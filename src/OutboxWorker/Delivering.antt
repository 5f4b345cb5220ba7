-- ===== src/OutboxWorker/Delivering.antt =====
-- src/outbox_worker/thread.rs: the loop over the claimed messages, and a turn of the thread.
use mathlib.Core.List.{Perm, perm_append_comm}
use mathlib.Core.List.Perm
use sourced_rust.Prelude.{
  ◌++◌, append_assoc, map, subst, sym, ℕ, ◌+◌, ◌≡◌, refl, ap, ◌∙◌, Bool, true, false, Option, some,
  none, List, [], ◌∷◌, Outcome, is_ok, not, arith,
}
use sourced_rust.Prelude.HashMap.{IsMap}
use sourced_rust.HashMapRepo.{HashMapRepository, Storage}
use sourced_rust.Bus.{Bus, PublishError}
use sourced_rust.Outbox.{OutboxMessage, OutboxCodecs}
use sourced_rust.Outbox.Recording.{AreLossless}
use sourced_rust.OutboxWorker.Thread.{WorkerStats, publish_claimed, publish_each}
use sourced_rust.OutboxWorker.Readable.{IsOutboxStore}
use sourced_rust.OutboxWorker.Entries.{Flown}
use sourced_rust.OutboxWorker.Contents.{
  Content, content, count_if, only, ask, ask_each, accepted, refused, ask-each, deliver-ask,
}
use sourced_rust.OutboxWorker.Settling.{
  Replies, is_answer, Counts, SettlesOne, settles_one, after_deliver,
}

-- What the loop over the claimed messages leaves.
pub record SettlesAll (codecs : OutboxCodecs) (storage : Storage) (h : IsOutboxStore codecs storage)
    {P : Type 0} (stats : WorkerStats) (outcome : ℕ × ℕ × P) (taken returned : List Content)
    (x : Option (HashMapRepository × P × WorkerStats)) : Type 0 where
  pub repo : HashMapRepository
  pub result :
      let (sent, refused, q) = outcome in
      x
      ≡ some (
        repo,
        q,
        record stats {
          messages_published = stats.messages_published + sent;
          messages_failed = stats.messages_failed + refused;
        },
      )
  pub counts : Counts codecs storage h outcome.0 outcome.1 taken returned repo

pub no_more : (n : ℕ) → n + 0 ≡ n
no_more n = omega arith

shift : (n a c : ℕ) → n + a + c ≡ n + (c + a)
shift n a c = omega arith

-- Two gains one after the other.
pub gained :
    {A : Type 0} {l l₁ : List A} (xs ys l₂ : List A)
    → Perm l (ys ++ l₁)
    → Perm l₁ (xs ++ l₂)
    → Perm l ((xs ++ ys) ++ l₂)
gained xs ys l₂ later first = Perm.trans later (
    Perm.trans (Perm.append_left ys first) (
      subst (λ zs. Perm zs ((xs ++ ys) ++ l₂)) (append_assoc ys xs l₂)
        (Perm.append_right l₂ (perm_append_comm ys xs))))

module _ (codecs : OutboxCodecs) (lossless : AreLossless codecs) {P : Type 0} (bus : Bus P)
    (replies : Replies bus) (routed : Bool) (now : ℕ) where
  -- What the loop does behind its first message.
  abbrev after_one :
      List OutboxMessage
      → Option (HashMapRepository × P × WorkerStats)
      → Option (HashMapRepository × P × WorkerStats)
  after_one ms x = elim x [
    | none ↦ none
    | some (repo', p', stats') ↦ publish_each codecs bus routed repo' now p' stats' ms
  ]

  -- The statistics after one message.
  abbrev counting : WorkerStats → Outcome PublishError (Unit {0}) → WorkerStats
  counting stats r = record stats {
    messages_published = stats.messages_published + count_if (is_ok r);
    messages_failed = stats.messages_failed + count_if (not (is_ok r));
  }

  settles_more :
      (repo : HashMapRepository) (h : IsOutboxStore codecs repo.event_store.value)
      (stats : WorkerStats) (m : OutboxMessage) (ms : List OutboxMessage)
      (y : Outcome PublishError (Unit {0}) × P) (outcome : ℕ × ℕ × P)
      (taken returned : List Content)
      → (one : SettlesOne codecs lossless bus replies routed now repo h stats m y)
      → SettlesAll codecs one.repo'.event_store.value one.one.counts.readable
          (counting stats y.0)
          outcome
          taken
          returned
          (publish_each codecs bus routed one.repo' now y.1 (counting stats y.0) ms)
      → SettlesAll codecs repo.event_store.value h stats
          (outcome.0 + count_if (is_ok y.0), outcome.1 + count_if (not (is_ok y.0)), outcome.2)
          (only (is_ok y.0) (content m) ++ taken)
          (only (not (is_ok y.0)) (content m) ++ returned)
          (after_one ms (after_deliver codecs lossless bus replies routed now repo stats m y))
  settles_more repo h stats m ms y outcome taken returned one rest =
      let sent = count_if (is_ok y.0) in
      let refused = count_if (not (is_ok y.0)) in
      record {
        repo = rest.repo;
        result =
            ap (after_one ms) one.result
            ∙ rest.result
            ∙ rw (
              shift stats.messages_published sent outcome.0,
              shift stats.messages_failed refused outcome.1,
            );
        counts = record {
          unlocked = rest.counts.unlocked;
          distinct = rest.counts.distinct;
          readable = rest.counts.readable;
          in_flights = omega (arith, one.one.counts.in_flights, rest.counts.in_flights);
          publisheds = omega (arith, one.one.counts.publisheds, rest.counts.publisheds);
          pendings = omega (arith, one.one.counts.pendings, rest.counts.pendings);
          arrived =
              gained (only (is_ok y.0) (content m)) taken _ rest.counts.arrived
                one.one.counts.arrived;
          resumed =
              gained (only (not (is_ok y.0)) (content m)) returned _ rest.counts.resumed
                one.one.counts.resumed;
          waiting = λ z.
              rest.counts.waiting (omega (arith, z)) ∙ one.one.counts.waiting (omega (arith, z));
        };
      }

  pub publish_each-SettlesAll :
      (repo : HashMapRepository) (h : IsOutboxStore codecs repo.event_store.value) (p : P)
      (stats : WorkerStats) (ms : List OutboxMessage)
      → repo.event_store.poisoned ≡ false
      → IsMap repo.event_store.value
      → Flown codecs repo.event_store.value h ms
      → SettlesAll codecs repo.event_store.value h stats
          (ask_each bus routed p (map content ms))
          (accepted bus routed p (map content ms))
          (refused bus routed p (map content ms))
          (publish_each codecs bus routed repo now p stats ms)
  unfolding publish_each publish_claimed
  publish_each-SettlesAll repo h p stats [] o d f = record {
    repo = repo;
    result = rw (no_more stats.messages_published, no_more stats.messages_failed);
    counts = record {
      unlocked = o;
      distinct = d;
      readable = h;
      in_flights = omega arith;
      publisheds = omega arith;
      pendings = omega arith;
      arrived = Perm.refl _;
      resumed = Perm.refl _;
      waiting = λ z. refl;
    };
  }
  publish_each-SettlesAll repo h p stats (m ∷ ms) o d (fl, differ, f) =
      let y = ask bus routed p (content m) in
      let one = settles_one codecs lossless bus replies routed now repo h stats m y o d fl (
        ask-each bus routed (λ r. is_answer r ≡ true) replies.publishes replies.sends p
          (content m)) in
      let cs = map content ms in
      subst
        (λ z.
          SettlesAll codecs repo.event_store.value h stats (ask_each bus routed p (content m ∷ cs))
            (accepted bus routed p (content m ∷ cs)) (refused bus routed p (content m ∷ cs))
            (after_one ms (after_deliver codecs lossless bus replies routed now repo stats m z)))
        (sym (deliver-ask bus routed codecs p m))
        (settles_more repo h stats m ms y (ask_each bus routed y.1 cs) (accepted bus routed y.1 cs)
          (refused bus routed y.1 cs) one
          (publish_each-SettlesAll one.repo' one.one.counts.readable y.1 (counting stats y.0) ms
            one.one.counts.unlocked one.one.counts.distinct (one.one.still ms differ f)))
