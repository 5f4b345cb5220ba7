-- ===== src/OutboxWorker/Tracking.antt =====
-- src/outbox_worker/repository_ext.rs: what an entry adds to the messages by status and to the lookups, before
-- and after a pass of the claiming loop.
use mathlib.Core.List.{Perm, perm_middle}
use mathlib.Core.List.Perm
use sourced_rust.Prelude.{
  arith, ℕ, ◌≡◌, ap, sym, ◌∙◌, subst, inl, inr, String, true, false, List, ◌∷◌, ◌++◌, map,
  starts_with, str_eq, if_true, if_false, Bool-cases, All, some, if◌then◌else◌,
}
use sourced_rust.Prelude.HashMap
use sourced_rust.Entity.{EventRecord, mark_committed}
use sourced_rust.HashMapRepo.{Storage}
use sourced_rust.Outbox.{
  OutboxMessage, pending, in_flight, OutboxCodecs, is_pending, is_in_flight, is_published,
  published, id_prefix,
}
use sourced_rust.Outbox.Recording.{AreLossless}
use sourced_rust.OutboxWorker.{committed}
use sourced_rust.OutboxWorker.Contents.{content}
use sourced_rust.OutboxWorker.Readable.{IsReadable, IsOutboxStore, contents}
use sourced_rust.OutboxWorker.Taking.{taken, taken-content, taken_readable, taken-flags}

-- Every entry but those of the messages is the same in the two maps.
abbrev pub Kept : Storage → Storage → List OutboxMessage → Type 0
Kept storage storage' ms =
    (j : String)
    → All (λ (m : OutboxMessage). str_eq m.entity.id j ≡ false) ms
    → HashMap.get j storage' ≡ HashMap.get j storage

pub Kept-cons :
    (id : String) (events : List EventRecord) (storage storage' : Storage) (ms : List OutboxMessage)
    → Kept storage storage' ms
    → Kept ((id, events) ∷ storage) ((id, events) ∷ storage') ms
unfolding HashMap.get
Kept-cons id events storage storage' ms h j n =
    ap (λ o. if str_eq id j then some events else o) (h j n)

pub Kept-taken :
    (id : String) (events : List EventRecord) (storage storage' : Storage) (ms : List OutboxMessage)
    (m : OutboxMessage)
    → m.entity.id ≡ id
    → Kept storage storage' ms
    → Kept ((id, events) ∷ storage) ((id, m.entity.events) ∷ storage') (m ∷ ms)
unfolding HashMap.get
Kept-taken id events storage storage' ms m same h j (n, ns) =
    let differs = subst (λ i. str_eq i j ≡ false) same n in
    if_false (str_eq id j) _ _ differs ∙ h j ns ∙ sym (if_false (str_eq id j) _ _ differs)

aloft-published : (m : OutboxMessage) → is_in_flight m ≡ true → is_published m ≡ false
aloft-published m e = ground (arith, e)

-- The messages of one map are those of another and some more.
module _ (codecs : OutboxCodecs) (storage : Storage) (h : IsOutboxStore codecs storage)
    (storage' : Storage) (h' : IsOutboxStore codecs storage') (ms : List OutboxMessage) where
  abbrev pub Queued : Type 0
  Queued = contents codecs pending storage h ≡ map content ms ++ contents codecs pending storage' h'

  abbrev pub Aloft : Type 0
  Aloft =
      Perm (contents codecs in_flight storage' h')
        (map content ms ++ contents codecs in_flight storage h)

  module _ (lossless : AreLossless codecs) (now lease : ℕ) (worker id : String)
      (events : List EventRecord) (prefix : starts_with id id_prefix ≡ true)
      (r : IsReadable codecs id events) where
    pub pass-Queued :
        is_pending r.message ≡ false
        → Queued
        → contents codecs pending ((id, events) ∷ storage) (inr (prefix, r), h)
          ≡ map content ms
            ++ contents codecs pending ((id, events) ∷ storage') (inr (prefix, r), h')
    pass-Queued p q =
        if_false (is_pending r.message) _ _ p
        ∙ q
        ∙ ap (λ cs. map content ms ++ cs) (sym (if_false (is_pending r.message) _ _ p))

    pub pass-Aloft :
        Aloft
        → Perm (contents codecs in_flight ((id, events) ∷ storage') (inr (prefix, r), h')) (
            map content ms
            ++ contents codecs in_flight ((id, events) ∷ storage) (inr (prefix, r), h))
    pass-Aloft a = elim (Bool-cases (is_in_flight r.message)) [
      | inl t ↦ rw t (
          Perm.trans (Perm.cons (content r.message) a)
            (Perm.symm (perm_middle (map content ms) (contents codecs in_flight storage h))))
      | inr f ↦ rw f a
    ]

    module _ (p : is_pending r.message ≡ true) where
      abbrev first : OutboxMessage
      first = taken codecs lossless now lease worker r

      abbrev flags :
          (is_pending first ≡ false)
          × (is_in_flight first ≡ true)
          × (is_in_flight r.message ≡ false)
      flags = taken-flags codecs lossless now lease worker r p

      abbrev read : IsReadable codecs id first.entity.events
      read = taken_readable codecs lossless now lease worker r p

      pub take-Queued :
          Queued
          → contents codecs pending ((id, events) ∷ storage) (inr (prefix, r), h)
            ≡ map content (committed codecs first ∷ ms)
              ++ contents codecs pending
                  ((id, first.entity.events) ∷ storage')
                  (inr (prefix, read), h')
      unfolding taken_readable mark_committed
      take-Queued q =
          if_true (is_pending r.message) _ _ p
          ∙ ap (λ c. c ∷ contents codecs pending storage h)
              (sym (taken-content codecs lossless now lease worker r p))
          ∙ ap (λ cs. content first ∷ cs) q
          ∙ ap (λ cs. content first ∷ map content ms ++ cs)
              (sym (if_false (is_pending first) _ _ flags.0))

      pub take-Aloft :
          Aloft
          → Perm
              (contents codecs in_flight
                ((id, first.entity.events) ∷ storage')
                (inr (prefix, read), h'))
              (map content (committed codecs first ∷ ms)
                ++ contents codecs in_flight ((id, events) ∷ storage) (inr (prefix, r), h))
      unfolding taken_readable mark_committed
      take-Aloft a =
          subst
            (λ cs. Perm cs (
              map content (committed codecs first ∷ ms)
              ++ contents codecs in_flight ((id, events) ∷ storage) (inr (prefix, r), h)))
            (sym (if_true (is_in_flight first) _ _ flags.1))
            (subst
              (λ cs.
                Perm (content first ∷ contents codecs in_flight storage' h')
                  (map content (committed codecs first ∷ ms) ++ cs))
              (sym (if_false (is_in_flight r.message) _ _ flags.2)) (Perm.cons (content first) a))

      pub take-published :
          contents codecs published storage' h' ≡ contents codecs published storage h
          → contents codecs published
              ((id, first.entity.events) ∷ storage')
              (inr (prefix, read), h')
            ≡ contents codecs published ((id, events) ∷ storage) (inr (prefix, r), h)
      unfolding taken_readable
      take-published e =
          if_false (is_published first) _ _ (aloft-published first flags.1)
          ∙ e
          ∙ sym (if_false (is_published r.message) _ _ (ground (arith, p)))
