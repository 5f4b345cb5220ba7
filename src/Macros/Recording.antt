-- ===== src/Macros/Recording.antt =====
-- sourced_rust_macros/src/lib.rs: the record that a generated digest call makes.
use sourced_rust.Prelude.{
  ℕ, ◌+◌, String, false, Option, none, some, List, [], ◌∷◌, All, length, is_empty, eq_iff, ◌≡◌, ◌≢◌,
  refl, ap, if_false, arith,
}
use sourced_rust.Prelude.HashMap
use sourced_rust.Bitcode.{Codec}
use sourced_rust.Entity.{
  Entity, EventRecord, stamp, push_event, new_record, new_versioned, digest, digest_v, digest_empty,
}
use sourced_rust.Macros.{generate_digest_call}
use sourced_rust.Macros.Running.{Scope, Runtime, bind, clones, exec}

abbrev pub DistinctNames : List String → Type 0
DistinctNames [] = Unit
DistinctNames (n ∷ ns) = All (λ m. n ≢ m) ns × DistinctNames ns

clones-skip :
    {V : Type 0} (n : String) (v : V) (scope : Scope V) (ns : List String)
    → All (λ m. n ≢ m) ns
    → clones ((n, v) ∷ scope) ns ≡ clones scope ns
unfolding clones HashMap.get
clones-skip n v scope [] h = refl
clones-skip n v scope (m ∷ ns) h = ground (arith, h.0, eq_iff n m, clones-skip n v scope ns h.1)

-- Parameters under distinct names are found again.
pub clones-bind :
    {V : Type 0} (ns : List String) (vs : List V)
    → DistinctNames ns
    → length vs ≡ length ns
    → clones (bind ns vs) ns ≡ vs
unfolding clones bind HashMap.get
clones-bind [] [] d h = refl
clones-bind [] (v ∷ vs) d h = absurd (omega (arith, h))
clones-bind (n ∷ ns) [] d h = absurd (omega (arith, h))
clones-bind (n ∷ ns) (v ∷ vs) d h = ground (
  arith,
  eq_iff n n,
  clones-skip n v (bind ns vs) ns d.0,
  clones-bind ns vs d.1 (omega (arith, h)),
)

-- A record under the event's name, with the tuple of the parameters unless there are none.
pub record Records {V : Type 0} (tuples : Codec (List V)) (name : String) (names : List String)
    (vs : List V) (r : EventRecord) : Type 0 where
  pub named : r.event_name ≡ name
  pub carries : is_empty names ≡ false → r.payload ≡ tuples.serialize vs

stamp-Records :
    {V : Type 0} (tuples : Codec (List V)) (en : Entity) (name : String) (names : List String)
    (vs : List V) (r : EventRecord)
    → Records tuples name names vs r
    → Records tuples name names vs (stamp en r)
unfolding stamp
stamp-Records tuples en name names vs r h = record {
  named = ground (arith, h.named);
  carries = λ n. ground (arith, h.carries n);
}

pub generate_digest_call-Records :
    {A X B V : Type 0} (rt : Runtime A X B V) (now : ℕ) (scope : Scope V) (field name : String)
    (names : List String) (version : Option ℕ) (a : A)
    → (rt.entity a).replaying ≡ false
    → (r : EventRecord) × Records rt.tuples name names (clones scope names) r
      × (exec rt now scope (generate_digest_call field name names version) a
          ≡ rt.set_entity a (push_event (rt.entity a) r now))
unfolding exec generate_digest_call digest digest_v digest_empty clones new_record new_versioned
generate_digest_call-Records rt now scope field name [] none a live =
    let r = new_record name (rt.unit.serialize tt) (length (rt.entity a).events + 1) now in
    (
      stamp (rt.entity a) r,
      stamp-Records rt.tuples (rt.entity a) name [] [] r
          (record { named = refl; carries = λ n. cc n }),
      ap (rt.set_entity a) (if_false (rt.entity a).replaying _ _ live),
    )
generate_digest_call-Records rt now scope field name (n ∷ ns) none a live =
    let vs = clones scope (n ∷ ns) in
    let r = new_record name (rt.tuples.serialize vs) (length (rt.entity a).events + 1) now in
    (
      stamp (rt.entity a) r,
      stamp-Records rt.tuples (rt.entity a) name (n ∷ ns) vs r
          (record { named = refl; carries = λ _. refl }),
      ap (rt.set_entity a) (if_false (rt.entity a).replaying _ _ live),
    )
generate_digest_call-Records rt now scope field name [] (some v) a live =
    let r = new_versioned name (rt.unit.serialize tt) (length (rt.entity a).events + 1) v now in
    (
      stamp (rt.entity a) r,
      stamp-Records rt.tuples (rt.entity a) name [] [] r
          (record { named = refl; carries = λ n. cc n }),
      ap (rt.set_entity a) (if_false (rt.entity a).replaying _ _ live),
    )
generate_digest_call-Records rt now scope field name (n ∷ ns) (some v) a live =
    let vs = clones scope (n ∷ ns) in
    let r = new_versioned name (rt.tuples.serialize vs) (length (rt.entity a).events + 1) v now in
    (
      stamp (rt.entity a) r,
      stamp-Records rt.tuples (rt.entity a) name (n ∷ ns) vs r
          (record { named = refl; carries = λ _. refl }),
      ap (rt.set_entity a) (if_false (rt.entity a).replaying _ _ live),
    )
