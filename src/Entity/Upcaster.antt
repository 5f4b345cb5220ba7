-- ===== src/Entity/Upcaster.antt =====
-- src/entity/upcaster.rs: payloads are converted from version to version when events are read.
-- The source's loop has no bound; here it takes fuel, and `none` says that the fuel ran out.
use sourced_rust.Prelude.{
  ℕ, zero, suc, ◌-◌, ◌≤◌, ◌<◌, String, ◌≡◌, refl, inl, inr, Bool, ◌&&◌, Option, none, some, List,
  [], ◌∷◌, ◌==◌, leb, str_eq, eq_iff, if◌then◌else◌, All, arith, Option-cases,
}
use sourced_rust.Bitcode.{Bytes}
use sourced_rust.Entity.Record.{EventRecord}

pub record EventUpcaster : Type 0 where
  pub event_type : String
  pub from_version : ℕ
  pub to_version : ℕ
  pub transform : Bytes → Bytes

-- `u.event_type == event.event_name && u.from_version == event.event_version`
abbrev pub applies : EventUpcaster → EventRecord → Bool
applies u e = str_eq u.event_type e.event_name && u.from_version == e.event_version

-- One round of the `for` loop: the first upcaster that applies, or `none` where `applied` stays false.
unfoldable pub upcast_round : List EventUpcaster → EventRecord → Option EventRecord
upcast_round [] e = none
upcast_round (u ∷ us) e =
    let rest = upcast_round us e in
    if applies u e
    then some (record e { payload = u.transform e.payload; event_version = u.to_version })
    else rest

unfoldable pub upcast_one : ℕ → List EventUpcaster → EventRecord → Option EventRecord
upcast_one zero us e = none
upcast_one (suc fuel) us e = elim (upcast_round us e) [
  | none ↦ some e
  | some e' ↦ upcast_one fuel us e'
]

unfoldable pub upcast_events : ℕ → List EventUpcaster → List EventRecord → Option (List EventRecord)
upcast_events fuel us [] = some []
upcast_events fuel us (e ∷ es) = elim (upcast_one fuel us e) [
  | none ↦ none
  | some e' ↦ elim (upcast_events fuel us es) [ none ↦ none | some es' ↦ some (e' ∷ es') ]
]

-- The largest version that an upcaster produces.
unfoldable pub max_version : List EventUpcaster → ℕ
max_version [] = 0
max_version (u ∷ us) =
    let rest = max_version us in if leb rest u.to_version then u.to_version else rest

-- Every upcaster goes to a later version.
abbrev pub IsAscending : List EventUpcaster → Type 0
IsAscending us = All (λ u. u.from_version < u.to_version) us

-- What upcasting leaves alone.
pub record SameEvent (e r : EventRecord) : Type 0 where
  pub name : r.event_name ≡ e.event_name
  pub sequence : r.sequence ≡ e.sequence
  pub timestamp : r.timestamp ≡ e.timestamp
  pub metadata : r.metadata ≡ e.metadata

pub SameEvent-refl : (e : EventRecord) → SameEvent e e
SameEvent-refl e = record { name = refl; sequence = refl; timestamp = refl; metadata = refl }

pub SameEvent-trans : (a b c : EventRecord) → SameEvent a b → SameEvent b c → SameEvent a c
SameEvent-trans a b c p q = record {
  name = cc (p.name, q.name);
  sequence = cc (p.sequence, q.sequence);
  timestamp = cc (p.timestamp, q.timestamp);
  metadata = cc (p.metadata, q.metadata);
}

upcast_round-SameEvent :
    (us : List EventUpcaster) (e e' : EventRecord) → upcast_round us e ≡ some e' → SameEvent e e'
unfolding upcast_round
upcast_round-SameEvent [] e e' h = cc
upcast_round-SameEvent (u ∷ us) e e' h = ground (arith, upcast_round-SameEvent us e e')

-- A round goes to a later version, at most the largest.
upcast_round-lt :
    (us : List EventUpcaster) (e e' : EventRecord)
    → IsAscending us
    → upcast_round us e ≡ some e'
    → (e.event_version < e'.event_version) × (e'.event_version ≤ max_version us)
unfolding upcast_round max_version
upcast_round-lt [] e e' a h = cc
upcast_round-lt (u ∷ us) e e' a h = ground (arith, upcast_round-lt us e e' a.1)

-- An event's way through the upcasters: where it ends, no upcaster applies.
pub record Upcasts (us : List EventUpcaster) (e r : EventRecord) : Type 0 where
  pub done : upcast_round us r ≡ none
  pub later : e.event_version ≤ r.event_version
  pub same : SameEvent e r

upcast_one-Upcasts :
    (fuel : ℕ) (us : List EventUpcaster) (e : EventRecord)
    → IsAscending us
    → max_version us - e.event_version < fuel
    → (r : EventRecord) × (upcast_one fuel us e ≡ some r) × Upcasts us e r
unfolding upcast_one
upcast_one-Upcasts zero us e a h = absurd (omega arith)
upcast_one-Upcasts (suc fuel) us e a h = elim (Option-cases (upcast_round us e)) [
  | inl stop ↦ (
    e,
    rw (stop, upcast_one) refl,
    record { done = stop; later = omega arith; same = SameEvent-refl e },
  )
  | inr (e', go) ↦
      let (r, eq, up) =
        upcast_one-Upcasts fuel us e' a (omega (arith, upcast_round-lt us e e' a go)) in
      (
        r,
        rw (go, upcast_one) eq,
        record {
          done = up.done;
          later = omega (arith, upcast_round-lt us e e' a go, up.later);
          same = SameEvent-trans e e' r (upcast_round-SameEvent us e e' go) up.same;
        },
      )
]

abbrev pub AllUpcast : List EventUpcaster → List EventRecord → List EventRecord → Type 0
AllUpcast us [] [] = Unit
AllUpcast us [] (r ∷ rs) = ⊥
AllUpcast us (e ∷ es) [] = ⊥
AllUpcast us (e ∷ es) (r ∷ rs) = Upcasts us e r × AllUpcast us es rs

-- If every upcaster goes to a later version, then upcasting returns: fuel above the largest version
-- that an upcaster produces is enough. Event by event and in order, the result keeps the name, the
-- sequence number, the timestamp and the metadata, has no earlier version, and is at a version from
-- which no upcaster applies.
pub upcast_events_total :
    (fuel : ℕ) (us : List EventUpcaster) (es : List EventRecord)
    → IsAscending us
    → max_version us < fuel
    → (rs : List EventRecord) × (upcast_events fuel us es ≡ some rs) × AllUpcast us es rs
unfolding upcast_events
upcast_events_total fuel us [] a h = ([], refl, tt)
upcast_events_total fuel us (e ∷ es) a h =
    let (r, eq, up) = upcast_one-Upcasts fuel us e a (omega arith) in
    let (rs, eqs, ups) = upcast_events_total fuel us es a h in
    (r ∷ rs, rw (eq, eqs, upcast_events) refl, (up, ups))

upcast_one_stable :
    (fuel : ℕ) (us : List EventUpcaster) (r : EventRecord)
    → upcast_round us r ≡ none
    → 0 < fuel
    → upcast_one fuel us r ≡ some r
unfolding upcast_one
upcast_one_stable zero us r done h = absurd (omega arith)
upcast_one_stable (suc fuel) us r done h = rw (done, upcast_one)

upcast_one_done :
    (fuel : ℕ) (us : List EventUpcaster) (e r : EventRecord)
    → upcast_one fuel us e ≡ some r
    → upcast_round us r ≡ none
unfolding upcast_one
upcast_one_done zero us e r h = cc
upcast_one_done (suc fuel) us e r h = elim (Option-cases (upcast_round us e)) [
  | inl stop ↦ ground arith
  | inr (e', go) ↦ upcast_one_done fuel us e' r (rw (go, upcast_one) at h)
]

-- Events that were upcast are left as they are by the same upcasters.
pub upcast_events_idem :
    (fuel more : ℕ) (us : List EventUpcaster) (es rs : List EventRecord)
    → upcast_events fuel us es ≡ some rs
    → 0 < more
    → upcast_events more us rs ≡ some rs
unfolding upcast_events
upcast_events_idem fuel more us [] [] h m = refl
upcast_events_idem fuel more us [] (r ∷ rs) h m = cc
upcast_events_idem fuel more us (e ∷ es) [] h m = refl
upcast_events_idem fuel more us (e ∷ es) (r ∷ rs) h m = ground (
  arith,
  upcast_one_done fuel us e r,
  upcast_one_stable more us r,
  upcast_events_idem fuel more us es rs,
)

-- An upcaster that does not change the version, on an event that it applies to, makes the loop run
-- for ever: no fuel is enough.
upcast_one_loops :
    (fuel : ℕ) (u : EventUpcaster) (us : List EventUpcaster) (e : EventRecord)
    → u.from_version ≡ u.to_version
    → e.event_name ≡ u.event_type
    → e.event_version ≡ u.from_version
    → upcast_one fuel (u ∷ us) e ≡ none
unfolding upcast_one upcast_round
upcast_one_loops zero u us e fixed name version = refl
upcast_one_loops (suc fuel) u us e fixed name version = ground (
  arith,
  upcast_one_loops fuel u us
      (record e { payload = u.transform e.payload; event_version = u.to_version }),
  eq_iff u.event_type e.event_name,
)
