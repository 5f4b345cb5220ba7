-- ===== src/OutboxWorker/Contents.antt =====
-- src/outbox_worker/thread.rs: what a message carries, and the calls that a bus gets for it, described apart
-- from the code that makes them.
use sourced_rust.Prelude.{
  ℕ, ◌+◌, ◌≡◌, refl, ap, ◌∙◌, String, Bool, Option, none, some, List, [], ◌∷◌, ◌++◌, append-nil,
  append_assoc, not, if◌then◌else◌, is_ok, Outcome, if_cases,
}
use sourced_rust.Prelude.HashMap.{HashMap}
use sourced_rust.Bitcode.{Bytes}
use sourced_rust.Bus.{Event, new_event, with_metadata, PublishError, Bus}
use sourced_rust.Outbox.{OutboxMessage, OutboxCodecs}
use sourced_rust.OutboxWorker.Thread.{add_metadata, event_of, deliver}

-- What of a message its readers see, whatever its status.
pub record Content : Type 0 where
  pub id : String
  pub event_type : String
  pub payload : Bytes
  pub destination : Option String
  pub metadata : HashMap String

abbrev pub content : OutboxMessage → Content
content m = record {
  id = m.entity.id;
  event_type = m.event_type;
  payload = m.payload;
  destination = m.destination;
  metadata = m.metadata;
}

-- The event that carries a content: the pairs of the metadata in their order, none where there are none.
abbrev pub carried : Content → Event
carried c = record {
  id = c.id;
  event_type = c.event_type;
  payload = c.payload;
  metadata = elim c.metadata [ [] ↦ none | kv ∷ m ↦ some (kv ∷ m) ];
}

add_metadata-some :
    (event : Event) (xs : List (String × String)) (m : HashMap String)
    → add_metadata (record event { metadata = some xs }) m
      ≡ record event { metadata = some (xs ++ m) }
unfolding add_metadata with_metadata
add_metadata-some event xs [] = rw (append-nil xs) refl
add_metadata-some event xs (kv ∷ m) =
    add_metadata-some event (xs ++ kv ∷ []) m ∙ rw (append_assoc xs (kv ∷ []) m) refl

add_metadata-none :
    (event : Event) (m : HashMap String)
    → add_metadata (record event { metadata = none }) m
      ≡ record event { metadata = elim m [ [] ↦ none | kv ∷ m' ↦ some (kv ∷ m') ] }
unfolding add_metadata with_metadata
add_metadata-none event [] = refl
add_metadata-none event (kv ∷ m) = add_metadata-some event (kv ∷ []) m

event_of-carried : (m : OutboxMessage) → event_of m ≡ carried (content m)
unfolding event_of new_event
event_of-carried m = add_metadata-none (new_event m.entity.id m.event_type m.payload) m.metadata

abbrev pub count_if : Bool → ℕ
count_if b = if b then 1 else 0

abbrev pub only : Bool → Content → List Content
only b c = if b then c ∷ [] else []

module _ {P : Type 0} (bus : Bus P) (routed : Bool) where
  -- The one call for a content: `send` to its destination where the thread routes and there is one, and
  -- `publish` otherwise.
  abbrev pub ask : P → Content → Outcome PublishError (Unit {0}) × P
  ask p c = elim c.destination [
    | none ↦ bus.publish p (carried c)
    | some dest ↦ if routed then bus.send p dest (carried c) else bus.publish p (carried c)
  ]

  -- The calls for some contents one after the other: how many the bus took, how many it refused, and the
  -- state of the bus behind them.
  abbrev pub ask_each : P → List Content → ℕ × ℕ × P
  ask_each p [] = (0, 0, p)
  ask_each p (c ∷ cs) =
      let (r, p') = ask p c in
      let (sent, refused, q) = ask_each p' cs in
      (sent + count_if (is_ok r), refused + count_if (not (is_ok r)), q)

  -- The contents that the bus took, and those that it refused.
  abbrev pub accepted : P → List Content → List Content
  accepted p [] = []
  accepted p (c ∷ cs) = let (r, p') = ask p c in only (is_ok r) c ++ accepted p' cs

  abbrev pub refused : P → List Content → List Content
  refused p [] = []
  refused p (c ∷ cs) = let (r, p') = ask p c in only (not (is_ok r)) c ++ refused p' cs

  -- What holds of every answer of the bus holds of the answer to a call for a content.
  pub ask-each :
      (Q : Outcome PublishError (Unit {0}) → Type 0)
      → ((p : P) (e : Event) → Q (bus.publish p e).0)
      → ((p : P) (name : String) (e : Event) → Q (bus.send p name e).0)
      → (p : P) (c : Content) → Q (ask p c).0
  ask-each Q publishes sends p c = to c.destination
    where
      to : (d : Option String) → Q (ask p (record c { destination = d })).0
      to none = publishes p (carried c)
      to (some dest) =
          if_cases (λ (x : Outcome PublishError (Unit {0}) × P). Q x.0) routed _ _
            (λ _. sends p dest (carried c)) (λ _. publishes p (carried c))

  pub ask_each-append :
      (p : P) (cs ds : List Content) → (ask_each p (cs ++ ds)).2 ≡ (ask_each (ask_each p cs).2 ds).2
  ask_each-append p [] ds = refl
  ask_each-append p (c ∷ cs) ds = ask_each-append (ask p c).1 cs ds

  pub deliver-ask :
      (codecs : OutboxCodecs) (p : P) (m : OutboxMessage)
      → deliver codecs bus routed p m ≡ ask p (content m)
  unfolding deliver
  deliver-ask codecs p m =
      ap
        (λ e. elim m.destination [
          | none ↦ bus.publish p e
          | some dest ↦ if routed then bus.send p dest e else bus.publish p e
        ])
        (event_of-carried m)
