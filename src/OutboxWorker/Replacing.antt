-- ===== src/OutboxWorker/Replacing.antt =====
-- src/outbox_worker/repository_ext.rs: a readable map in which a message in flight is replaced under its key.
use mathlib.Core.List.{Perm, perm_middle}
use mathlib.Core.List.Perm
use sourced_rust.Prelude.{
  ◌++◌, ◌≡◌, sym, ap, ◌∙◌, subst, inl, inr, Bool, true, false, List, [], ◌∷◌, str_eq, eq_iff,
  starts_with, if◌then◌else◌, if_true, if_false, arith,
}
use sourced_rust.Prelude.HashMap
use sourced_rust.Entity.{EventRecord}
use sourced_rust.HashMapRepo.{Storage}
use sourced_rust.Outbox.{
  OutboxMessage, OutboxMessageStatus, pending, in_flight, published, failed, OutboxCodecs,
  id_prefix,
}
use sourced_rust.OutboxWorker.{has_status}
use sourced_rust.OutboxWorker.Contents.{Content, content, only}
use sourced_rust.OutboxWorker.Readable.{IsReadable, IsOutboxStore, contents}
use sourced_rust.OutboxWorker.Entries.{is_flight, FliesAt, Replaced}

module _ (codecs : OutboxCodecs) where
  has_status-flight :
      (s : OutboxMessageStatus) (m : OutboxMessage)
      → m.status ≡ in_flight
      → has_status s m ≡ is_flight s
  has_status-flight pending m e = rw e
  has_status-flight in_flight m e = rw e
  has_status-flight published m e = rw e
  has_status-flight failed m e = rw e

  listing-cons :
      (a b : Bool) (x y : Content) (cs cs' : List Content)
      → Perm cs' (only b y ++ cs)
      → Perm (if a then x ∷ cs' else cs') (only b y ++ (if a then x ∷ cs else cs))
  listing-cons true true x y cs cs' h = Perm.trans (Perm.cons x h) (perm_middle (x ∷ []) cs)
  listing-cons true false x y cs cs' h = Perm.cons x h
  listing-cons false true x y cs cs' h = h
  listing-cons false false x y cs cs' h = h

  only-if :
      (b : Bool) (y : Content) (cs : List Content)
      → Perm (if b then y ∷ cs else cs) (only b y ++ cs)
  only-if true y cs = Perm.refl _
  only-if false y cs = Perm.refl _

  module _ (c : Content) (events' : List EventRecord) (r' : IsReadable codecs c.id events') where
    pub insert-Replaced :
        (storage : Storage) (h : IsOutboxStore codecs storage)
        → FliesAt codecs storage h c
        → Replaced codecs storage h c.id r'.message (HashMap.insert c.id events' storage)
    unfolding HashMap.insert
    insert-Replaced [] h f = absurd f
    insert-Replaced ((k, events) ∷ storage) (inl other, h) (d, f) =
        let x = insert-Replaced storage h f in
        subst (Replaced codecs ((k, events) ∷ storage) (inl other, h) c.id r'.message)
          (sym (if_false (str_eq k c.id) _ _ d))
          (record {
            readable = (inl other, x.readable);
            counts = x.counts;
            others = λ j e y. (y.0, x.others j e y.1);
            listing = x.listing;
            waiting = x.waiting;
          })
    insert-Replaced ((k, events) ∷ storage) (inr (prefix, r), h) (inl (carries, flies)) =
        let same : k ≡ c.id = sym r.same_id ∙ ap (λ x. x.id) carries in
        subst (Replaced codecs ((k, events) ∷ storage) (inr (prefix, r), h) c.id r'.message)
          (sym (if_true (str_eq k c.id) _ _ ((eq_iff k c.id).1 same)))
          (record {
            readable = (inr (subst (λ i. starts_with i id_prefix ≡ true) same prefix, r'), h);
            counts = λ s. ground (arith, has_status-flight s r.message flies);
            others = λ j e x. elim x [
              | inl (there, flies') ↦
                  cc (e, (eq_iff c.id j.id).1 (ap (λ x. x.id) (sym carries) ∙ ap (λ x. x.id) there))
              | inr (d, y) ↦ inr (e, y)
            ];
            listing = λ s n.
                subst
                  (λ cs.
                    Perm
                      (if has_status s r'.message
                        then content r'.message ∷ contents codecs s storage h
                        else contents codecs s storage h)
                      (only (has_status s r'.message) (content r'.message) ++ cs))
                  (sym (
                    if_false (has_status s r.message) _ _
                      (has_status-flight s r.message flies ∙ n)))
                  (only-if (has_status s r'.message) (content r'.message)
                    (contents codecs s storage h));
            waiting = λ w.
                if_false (has_status pending r'.message) _ _ w
                ∙ sym (
                    if_false (has_status pending r.message) _ _
                      (has_status-flight pending r.message flies));
          })
    insert-Replaced ((k, events) ∷ storage) (inr (prefix, r), h) (inr (d, f)) =
        let x = insert-Replaced storage h f in
        subst (Replaced codecs ((k, events) ∷ storage) (inr (prefix, r), h) c.id r'.message)
          (sym (if_false (str_eq k c.id) _ _ d))
          (record {
            readable = (inr (prefix, r), x.readable);
            counts = λ s. ground (arith, x.counts s);
            others = λ j e y. elim y [ inl p ↦ inl p | inr (d', z) ↦ inr (d', x.others j e z) ];
            listing = λ s n.
                listing-cons (has_status s r.message) (has_status s r'.message) (content r.message)
                  (content r'.message) (contents codecs s storage h) _ (x.listing s n);
            waiting = λ w.
                ap (λ cs. if has_status pending r.message then content r.message ∷ cs else cs)
                  (x.waiting w);
          })
