-- ===== src/OutboxWorker/Entries.antt =====
-- src/outbox_worker/repository_ext.rs: one entry of a readable map, and the map with another message
-- under its key.
use mathlib.Core.List.{Perm}
use sourced_rust.Prelude.{
  ◌++◌, ◌+◌, ◌≡◌, refl, sym, ◌∙◌, subst, ◌⊎◌, inl, inr, String, Bool, true, false, none, some, List,
  All, Bool-cases, [], ◌∷◌, str_eq, eq_iff, starts_with, if_true, if_false,
}
use sourced_rust.Prelude.HashMap
use sourced_rust.Entity.{EventRecord}
use sourced_rust.HashMapRepo.{Storage}
use sourced_rust.Outbox.{
  OutboxMessage, OutboxMessageStatus, pending, in_flight, OutboxCodecs, id_prefix,
}
use sourced_rust.OutboxWorker.{has_status}
use sourced_rust.OutboxWorker.Contents.{Content, content, count_if, only}
use sourced_rust.OutboxWorker.Readable.{IsReadable, IsOutboxStore, tally, contents}

abbrev pub is_flight : OutboxMessageStatus → Bool
is_flight in_flight = true
is_flight _ = false

module _ (codecs : OutboxCodecs) where
  -- The first entry under the identifier is a message in flight with the content.
  abbrev pub FliesAt : (storage : Storage) → IsOutboxStore codecs storage → Content → Type 0
  FliesAt [] h c = ⊥
  FliesAt ((k, events) ∷ storage) (inl other, h) c = (str_eq k c.id ≡ false) × FliesAt storage h c
  FliesAt ((k, events) ∷ storage) (inr (prefix, r), h) c =
      ((content r.message ≡ c) × (r.message.status ≡ in_flight))
      ⊎ ((str_eq k c.id ≡ false) × FliesAt storage h c)

  -- What a lookup finds of it.
  pub record Flying (storage : Storage) (c : Content) : Type 0 where
    pub events : List EventRecord
    pub readable : IsReadable codecs c.id events
    pub found_at : HashMap.get c.id storage ≡ some events
    pub carries : content readable.message ≡ c
    pub flies : readable.message.status ≡ in_flight
    pub prefix : starts_with c.id id_prefix ≡ true

  further :
      (k : String) (events : List EventRecord) (storage : Storage) (c : Content)
      → str_eq k c.id ≡ false
      → Flying storage c
      → Flying ((k, events) ∷ storage) c
  unfolding HashMap.get
  further k events storage c d f = record {
    events = f.events;
    readable = f.readable;
    found_at = if_false (str_eq k c.id) _ _ d ∙ f.found_at;
    carries = f.carries;
    flies = f.flies;
    prefix = f.prefix;
  }

  here :
      (k : String) (events : List EventRecord) (storage : Storage) (r : IsReadable codecs k events)
      → starts_with k id_prefix ≡ true
      → r.message.status ≡ in_flight
      → Flying ((k, events) ∷ storage) (content r.message)
  unfolding HashMap.get
  here k events storage r prefix flies = record {
    events = events;
    readable = record {
      message = r.message;
      same_id = refl;
      same_events = r.same_events;
      replays = λ e later b i. r.replays e later b (i ∙ r.same_id);
    };
    found_at =
        if_true (str_eq k r.message.entity.id) _ _
          ((eq_iff k r.message.entity.id).1 (sym r.same_id));
    carries = refl;
    flies = flies;
    prefix = subst (λ i. starts_with i id_prefix ≡ true) (sym r.same_id) prefix;
  }

  pub FliesAt-Flying :
      (storage : Storage) (h : IsOutboxStore codecs storage) (c : Content)
      → FliesAt storage h c
      → Flying storage c
  FliesAt-Flying [] h c f = absurd f
  FliesAt-Flying ((k, events) ∷ storage) (inl other, h) c (d, f) =
      further k events storage c d (FliesAt-Flying storage h c f)
  FliesAt-Flying ((k, events) ∷ storage) (inr (prefix, r), h) c (inl (same, flies)) =
      subst (Flying ((k, events) ∷ storage)) same (here k events storage r prefix flies)
  FliesAt-Flying ((k, events) ∷ storage) (inr (prefix, r), h) c (inr (d, f)) =
      further k events storage c d (FliesAt-Flying storage h c f)

  -- Another map, with the message `m` under `id` where one in flight was.
  pub record Replaced (storage : Storage) (h : IsOutboxStore codecs storage) (id : String)
      (m : OutboxMessage) (storage' : Storage) : Type 0 where
    pub readable : IsOutboxStore codecs storage'
    pub counts :
        (s : OutboxMessageStatus)
        → tally codecs s storage' readable + count_if (is_flight s)
          ≡ tally codecs s storage h + count_if (has_status s m)
    pub others :
        (c : Content) → str_eq id c.id ≡ false → FliesAt storage h c → FliesAt storage' readable c
    pub listing :
        (s : OutboxMessageStatus)
        → is_flight s ≡ false
        → Perm
            (contents codecs s storage' readable)
            (only (has_status s m) (content m) ++ contents codecs s storage h)
    pub waiting :
        has_status pending m ≡ false
        → contents codecs pending storage' readable ≡ contents codecs pending storage h

  -- Messages with identifiers that differ from `id`, and messages that fly, each under its own.
  abbrev pub Differ : String → List OutboxMessage → Type 0
  Differ id ms = All (λ (m : OutboxMessage). str_eq id m.entity.id ≡ false) ms

  abbrev pub Flown :
      (storage : Storage) → IsOutboxStore codecs storage → List OutboxMessage → Type 0
  Flown storage h [] = Unit
  Flown storage h (m ∷ ms) =
      FliesAt storage h (content m) × Differ m.entity.id ms × Flown storage h ms

  flies-differs :
      (k : String) (storage : Storage) (h : IsOutboxStore codecs storage) (c : Content)
      → HashMap.get k storage ≡ none
      → FliesAt storage h c
      → str_eq k c.id ≡ false
  flies-differs k storage h c none_there f =
      let x = FliesAt-Flying storage h c f in
      elim (Bool-cases (str_eq k c.id)) [
        | inl same ↦ cc (none_there, x.found_at, (eq_iff k c.id).0 same)
        | inr differs ↦ differs
      ]

  FliesAt-cons :
      (k : String) (events : List EventRecord) (storage : Storage)
      (h : IsOutboxStore codecs ((k, events) ∷ storage)) (c : Content)
      → str_eq k c.id ≡ false
      → FliesAt storage h.1 c
      → FliesAt ((k, events) ∷ storage) h c
  FliesAt-cons k events storage (inl other, h) c d f = (d, f)
  FliesAt-cons k events storage (inr (prefix, r), h) c d f = inr (d, f)

  pub Flown-cons :
      (k : String) (events : List EventRecord) (storage : Storage)
      (h : IsOutboxStore codecs ((k, events) ∷ storage)) (ms : List OutboxMessage)
      → HashMap.get k storage ≡ none
      → Flown storage h.1 ms
      → Flown ((k, events) ∷ storage) h ms × Differ k ms
  Flown-cons k events storage h [] e f = (tt, tt)
  Flown-cons k events storage h (m ∷ ms) e (fl, d, f) =
      let (g, ds) = Flown-cons k events storage h ms e f in
      let differs = flies-differs k storage h.1 (content m) e fl in
      ((FliesAt-cons k events storage h (content m) differs fl, d, g), (differs, ds))

  pub Flown-replaced :
      (storage : Storage) (h : IsOutboxStore codecs storage) (id : String) (m : OutboxMessage)
      (storage' : Storage) (ms : List OutboxMessage) (c : Replaced storage h id m storage')
      → Differ id ms
      → Flown storage h ms
      → Flown storage' c.readable ms
  Flown-replaced storage h id m storage' [] c d f = tt
  Flown-replaced storage h id m storage' (x ∷ ms) c d (fl, e, f) =
      (c.others (content x) d.0 fl, e, Flown-replaced storage h id m storage' ms c d.1 f)
