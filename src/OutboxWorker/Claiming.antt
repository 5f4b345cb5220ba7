-- ===== src/OutboxWorker/Claiming.antt =====
-- src/outbox_worker/repository_ext.rs: the loop that claims messages, on a readable map.
use mathlib.Core.List.Perm
use sourced_rust.Prelude.{
  if◌then◌else◌, ℕ, ◌+◌, ◌≡◌, refl, ap, sym, subst, inl, inr, String, true, false, List, [], ◌∷◌,
  leb, starts_with, Bool-cases, Outcome, ok, ◌>>=◌, arith,
}
use sourced_rust.Entity.{EventRecord, mark_committed}
use sourced_rust.Repository.{RepositoryError}
use sourced_rust.HashMapRepo.{Storage}
use sourced_rust.Outbox.{OutboxMessage, OutboxCodecs, is_pending, is_published, id_prefix}
use sourced_rust.Outbox.Recording.{AreLossless}
use sourced_rust.OutboxWorker.Readable.{IsReadable, IsOutboxStore}
use sourced_rust.OutboxWorker.{committed, claim_loop}
use sourced_rust.Prelude.HashMap
use sourced_rust.Prelude.HashMap.{IsMap}
use sourced_rust.OutboxWorker.Entries.{Flown-cons}
use sourced_rust.OutboxWorker.Contents.{content}
use sourced_rust.OutboxWorker.Claims.{Claims, claiming, ClaimsFrom, skip_entry}
use sourced_rust.OutboxWorker.Tracking.{
  Kept-cons, Kept-taken, pass-Queued, pass-Aloft, take-Queued, take-Aloft, take-published,
}
use sourced_rust.OutboxWorker.Taking.{
  taken, taken-IsHeld, taken_readable, taken-flags, taken-Flown, last_one, one_more, stops, goes_on,
}

module _ (codecs : OutboxCodecs) (lossless : AreLossless codecs) (now lease : ℕ)
    (worker : String) where
  module _ (max n : ℕ) (id : String) (events : List EventRecord) (storage : Storage)
      (prefix : starts_with id id_prefix ≡ true) (r : IsReadable codecs id events)
      (h : IsOutboxStore codecs storage) where
    abbrev first : OutboxMessage
    first = taken codecs lossless now lease worker r

    abbrev Goal : Type 0
    Goal = ClaimsFrom codecs now lease worker max n ((id, events) ∷ storage) (inr (prefix, r), h)

    abbrev Into : Outcome RepositoryError (List OutboxMessage) × Storage → Type 0
    Into = Claims codecs worker max n ((id, events) ∷ storage) (inr (prefix, r), h)

    take_last : is_pending r.message ≡ true → leb max (n + 1) ≡ true → Goal
    unfolding taken_readable HashMap.get mark_committed
    take_last p l =
        let flags = taken-flags codecs lossless now lease worker r p in
        subst Into
          (sym (last_one codecs lossless now lease worker max n id events storage prefix r p l))
          (record {
            messages = committed codecs first ∷ [];
            succeeds = refl;
            held = ((taken-IsHeld codecs lossless now lease worker r p).0, tt);
            readable = (inr (prefix, taken_readable codecs lossless now lease worker r p), h);
            pendings = ground (arith, p, flags);
            in_flights = ground (arith, p, flags);
            bounded = λ b. omega (arith, b);
            publisheds = ground (arith, p, flags);
            drained = λ b. ground (arith, l, b);
            unlisted = λ k e. ground (arith, e);
            flying = λ d. (
              taken-Flown codecs lossless now lease worker id events prefix r p storage h [] d.0 tt,
              d,
            );
            queued =
                take-Queued codecs storage h storage h [] lossless now lease worker id events prefix
                  r p refl;
            aloft =
                take-Aloft codecs storage h storage h [] lossless now lease worker id events prefix
                  r p (Perm.refl _);
            same_published =
                take-published codecs storage h storage h [] lossless now lease worker id events
                  prefix r p refl;
            kept =
                Kept-taken id events storage storage [] (committed codecs first)
                  (taken-IsHeld codecs lossless now lease worker r p).1 (λ j n. refl);
          })

    take_more :
        is_pending r.message ≡ true
        → leb max (n + 1) ≡ false
        → ClaimsFrom codecs now lease worker max (n + 1) storage h
        → Goal
    unfolding taken_readable HashMap.get mark_committed
    take_more p l c =
        let flags = taken-flags codecs lossless now lease worker r p in
        subst Into
          (sym (one_more codecs lossless now lease worker max n id events storage prefix r p l))
          (record {
            messages = committed codecs first ∷ c.messages;
            succeeds = ap (λ o. o >>= λ ms. ok (committed codecs first ∷ ms)) c.succeeds;
            held = ((taken-IsHeld codecs lossless now lease worker r p).0, c.held);
            readable =
                (inr (prefix, taken_readable codecs lossless now lease worker r p), c.readable);
            pendings = ground (arith, p, flags, c.pendings);
            in_flights = ground (arith, p, flags, c.in_flights);
            bounded = λ b. ground (arith, l, c.bounded);
            publisheds = ground (arith, p, flags, c.publisheds);
            drained = λ b. ground (arith, flags, c.drained (omega (arith, b)));
            unlisted = λ k e. ground (arith, e, c.unlisted k);
            flying = λ d.
                let gone = c.unlisted id d.0 in
                (
                  taken-Flown codecs lossless now lease worker id events prefix r p
                      (claiming codecs now lease worker max (n + 1) storage).1 c.readable c.messages
                      gone (c.flying d.1).0,
                  (gone, (c.flying d.1).1),
                );
            queued =
                take-Queued codecs storage h
                  (claiming codecs now lease worker max (n + 1) storage).1 c.readable c.messages
                  lossless now lease worker id events prefix r p c.queued;
            aloft =
                take-Aloft codecs storage h (claiming codecs now lease worker max (n + 1) storage).1
                  c.readable c.messages lossless now lease worker id events prefix r p c.aloft;
            same_published =
                take-published codecs storage h
                  (claiming codecs now lease worker max (n + 1) storage).1 c.readable c.messages
                  lossless now lease worker id events prefix r p c.same_published;
            kept =
                Kept-taken id events storage
                  (claiming codecs now lease worker max (n + 1) storage).1 c.messages
                  (committed codecs first) (taken-IsHeld codecs lossless now lease worker r p).1
                  c.kept;
          })

    stop_here : is_pending r.message ≡ false → leb max n ≡ true → Goal
    stop_here p l =
        subst Into
          (sym (stops codecs lossless now lease worker max n id events storage prefix r p l))
          (record {
            messages = [];
            succeeds = refl;
            held = tt;
            readable = (inr (prefix, r), h);
            pendings = omega arith;
            in_flights = omega arith;
            bounded = λ b. omega (arith, b);
            publisheds = refl;
            drained = λ b. ground (arith, l, b);
            unlisted = λ k e. e;
            flying = λ d. (tt, d);
            queued = refl;
            aloft = Perm.refl _;
            same_published = refl;
            kept = λ j n. refl;
          })

    pass_by :
        is_pending r.message ≡ false
        → leb max n ≡ false
        → ClaimsFrom codecs now lease worker max n storage h
        → Goal
    unfolding HashMap.get
    pass_by p l c =
        subst Into
          (sym (goes_on codecs lossless now lease worker max n id events storage prefix r p l))
          (record {
            messages = c.messages;
            succeeds = c.succeeds;
            held = c.held;
            readable = (inr (prefix, r), c.readable);
            pendings = ground (arith, c.pendings);
            in_flights = ground (arith, c.in_flights);
            bounded = c.bounded;
            publisheds = ground (arith, c.publisheds);
            drained = λ b. ground (arith, p, c.drained b);
            unlisted = λ k e. ground (arith, e, c.unlisted k);
            flying = λ d.
                let gone = c.unlisted id d.0 in
                (
                  (Flown-cons codecs id events (claiming codecs now lease worker max n storage).1
                      (inr (prefix, r), c.readable) c.messages gone (c.flying d.1).0).0,
                  (gone, (c.flying d.1).1),
                );
            queued =
                pass-Queued codecs storage h (claiming codecs now lease worker max n storage).1
                  c.readable c.messages lossless now lease worker id events prefix r p c.queued;
            aloft =
                pass-Aloft codecs storage h (claiming codecs now lease worker max n storage).1
                  c.readable c.messages lossless now lease worker id events prefix r c.aloft;
            same_published =
                ap (λ cs. if is_published r.message then content r.message ∷ cs else cs)
                  c.same_published;
            kept =
                Kept-cons id events storage (claiming codecs now lease worker max n storage).1
                  c.messages c.kept;
          })

  pub claim_loop-Claims :
      (max n : ℕ) (storage : Storage) (h : IsOutboxStore codecs storage)
      → Claims codecs worker max n storage h (claim_loop codecs now worker lease max n storage)
  unfolding claim_loop
  claim_loop-Claims max n [] h = record {
    messages = [];
    succeeds = refl;
    held = tt;
    readable = tt;
    pendings = refl;
    in_flights = refl;
    bounded = λ b. omega (arith, b);
    publisheds = refl;
    drained = λ b. refl;
    unlisted = λ k e. e;
    flying = λ d. (tt, tt);
    queued = refl;
    aloft = Perm.refl _;
    same_published = refl;
    kept = λ j n. refl;
  }
  claim_loop-Claims max n ((id, events) ∷ storage) (inl other, h) =
      skip_entry codecs now lease worker max n id events storage other h
        (claim_loop-Claims max n storage h)
  claim_loop-Claims max n ((id, events) ∷ storage) (inr (prefix, r), h) =
      elim (Bool-cases (is_pending r.message)) [
        | inl p ↦ elim (Bool-cases (leb max (n + 1))) [
          | inl l ↦ take_last max n id events storage prefix r h p l
          | inr l ↦
              take_more max n id events storage prefix r h p l
                (claim_loop-Claims max (n + 1) storage h)
        ]
        | inr p ↦ elim (Bool-cases (leb max n)) [
          | inl l ↦ stop_here max n id events storage prefix r h p l
          | inr l ↦
              pass_by max n id events storage prefix r h p l (claim_loop-Claims max n storage h)
        ]
      ]
