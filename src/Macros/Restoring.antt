-- ===== src/Macros/Restoring.antt =====
-- sourced_rust_macros/src/snapshot.rs: a restore takes over what the snapshot holds.
use sourced_rust.Prelude.{
  String, Bool, true, false, ◌||◌, ◌&&◌, not, Option, none, some, List, [], ◌∷◌, map, All, is_some,
  unwrap_or, contains, str_eq, eq_iff, if◌then◌else◌, if_false, Bool-cases, inl, inr, subst, ◌≡◌,
  refl, ap, ◌∙◌, arith,
}
use sourced_rust.Prelude.HashMap
use sourced_rust.Prelude.HashMap.{HashMap}
use sourced_rust.Entity.{set_id}
use sourced_rust.Macros.Snapshots.{entity_id, field_clone, SnapshotImpl, snapshot_impl}
use sourced_rust.Macros.Copying.{
  Fields, Texts, take_snapshot, assign_fields, restore, take_snapshot-clones, assign_fields-get,
}

-- The identifier in a snapshot of `a`: the text of a field, or the one that the macro adds.
abbrev pub id_of : {V : Type 0} → Texts V → Bool → String → Fields V → String
id_of texts as_they_are id_field a =
    if as_they_are
    then elim (HashMap.get id_field a.values) [ none ↦ "" | some v ↦ texts.to_text v ]
    else a.entity.id

All-at :
    (P : String → Type 0) (names : List String) (j : String)
    → All P names
    → contains j names ≡ true
    → P j
All-at P [] j ps h = cc h
All-at P (n ∷ names) j ps h = elim (Bool-cases (str_eq n j)) [
  | inl p ↦ subst P (ground (arith, p, eq_iff n j)) ps.0
  | inr p ↦ All-at P names j ps.1 (ground (arith, p, h))
]

All-of :
    (P : String → Type 0) (names : List String)
    → ((j : String) → contains j names ≡ true → P j)
    → All P names
All-of P [] f = tt
All-of P (n ∷ names) f =
    (f n (ground (arith, eq_iff n n)), All-of P names (λ j h. f j (ground (arith, h))))

unwrap_or-none : (o : Option String) → is_some o ≡ false → unwrap_or o "id" ≡ "id"
unwrap_or-none none h = refl
unwrap_or-none (some s) h = cc h

module _ {T V : Type 0} (texts : Texts V) (name entity_field : String) (custom_id : Option String)
    (fields : List (String × T)) (a b : Fields V) where
  abbrev names : List String
  names = map (λ p. p.0) fields

  abbrev id_field : String
  id_field = unwrap_or custom_id "id"

  abbrev as_they_are : Bool
  as_they_are = is_some custom_id || contains id_field names

  abbrev derived : SnapshotImpl T
  unfolding snapshot_impl
  derived = snapshot_impl name entity_field custom_id fields

  abbrev Present : String → Type 0
  Present n = is_some (HashMap.get n a.values) ≡ true

  abbrev Copies : HashMap V → Type 0
  Copies snapshot =
      (j : String) → contains j names ≡ true → HashMap.get j snapshot ≡ HashMap.get j a.values

  abbrev Restored : Fields V → String → Type 0
  Restored b' id =
      ((j : String)
        → HashMap.get j b'.values
          ≡ (if contains j names then HashMap.get j a.values else HashMap.get j b.values))
      × (b'.entity ≡ set_id b.entity id)

  values-Copies :
      (snapshot : HashMap V) (j : String)
      → All Present names
      → Copies snapshot
      → HashMap.get j (assign_fields texts names snapshot b.values)
        ≡ (if contains j names then HashMap.get j a.values else HashMap.get j b.values)
  values-Copies snapshot j ps c =
      assign_fields-get texts names snapshot b.values j
        (All-of _ names (λ n h. ap is_some (c n h) ∙ All-at Present names n ps h))
      ∙ elim (Bool-cases (contains j names)) [ inl h ↦ rw h (c j h) | inr h ↦ rw h refl ]

  entity-taken :
      (o : Option V)
      → is_some o ≡ true
      → (elim o [ none ↦ b.entity | some v ↦ set_id b.entity (texts.to_text v) ])
        ≡ set_id b.entity (elim o [ none ↦ "" | some v ↦ texts.to_text v ])
  entity-taken none h = cc h
  entity-taken (some v) h = refl

  Copies-with_id :
      All Present names
      → as_they_are ≡ false
      → Copies (take_snapshot texts (entity_id entity_field ∷ map field_clone names) a)
  unfolding take_snapshot HashMap.get
  Copies-with_id ps f j h =
      let id_is : unwrap_or custom_id "id" ≡ "id" = unwrap_or-none custom_id (ground (arith, f)) in
      let other : str_eq "id" j ≡ false = ground (arith, f, h, id_is, eq_iff "id" j) in
      if_false (str_eq "id" j) _ _ other ∙ take_snapshot-clones texts names a j ps h

-- Where `a` has every field of the snapshot, and a custom identifier is one of them: after a restore of the
-- snapshot of `a`, `b` has the fields of the snapshot as `a` has them and the others as before; its entity
-- is as before, but for the identifier, which is that of the entity of `a` where neither a custom
-- identifier is given nor a field is called `id`, and otherwise the text of that field.
pub restore-take_snapshot :
    {T V : Type 0} (texts : Texts V) (name entity_field : String) (custom_id : Option String)
    (fields : List (String × T)) (a b : Fields V)
    → let names = map (λ p. p.0) fields in
      let id_field = unwrap_or custom_id "id" in
      All (λ n. is_some (HashMap.get n a.values) ≡ true) names
      → (is_some custom_id && not (contains id_field names)) ≡ false
      → let d = snapshot_impl name entity_field custom_id fields in
        let b' = restore texts d (take_snapshot texts d.field_assignments a) b in
        let as_they_are = is_some custom_id || contains id_field names in
        ((j : String)
          → HashMap.get j b'.values
            ≡ (if contains j names then HashMap.get j a.values else HashMap.get j b.values))
        × (b'.entity ≡ set_id b.entity (id_of texts as_they_are id_field a))
unfolding restore take_snapshot snapshot_impl HashMap.get
restore-take_snapshot texts name entity_field custom_id fields a b ps known =
    let names = map (λ p. p.0) fields in
    let id_field = unwrap_or custom_id "id" in
    elim (Bool-cases (is_some custom_id || contains id_field names)) [
      | inl t ↦
          let named : contains id_field names ≡ true = ground (arith, t, known) in
          let copies : (j : String)
              → contains j names ≡ true
              → HashMap.get j (take_snapshot texts (map field_clone names) a)
                ≡ HashMap.get j a.values =
            λ j h. take_snapshot-clones texts names a j ps h in
          rw t (
            λ j. values-Copies texts name entity_field custom_id fields a b _ j ps copies,
            ap (λ o. elim o [ none ↦ b.entity | some v ↦ set_id b.entity (texts.to_text v) ])
                  (copies id_field named)
                ∙ entity-taken texts name entity_field custom_id fields a b
                    (HashMap.get id_field a.values)
                    (All-at (λ n. is_some (HashMap.get n a.values) ≡ true) names id_field ps named),
          )
      | inr t ↦
          let id_is : unwrap_or custom_id "id" ≡ "id" =
            unwrap_or-none custom_id (ground (arith, t)) in
          rw t (
            λ j.
                values-Copies texts name entity_field custom_id fields a b _ j ps
                  (Copies-with_id texts name entity_field custom_id fields a b ps t),
            ap
                  (λ n.
                    elim (HashMap.get n
                      (take_snapshot texts (entity_id entity_field ∷ map field_clone names) a)) [
                        | none ↦ b.entity
                        | some v ↦ set_id b.entity (texts.to_text v)
                      ])
                  id_is
                ∙ ap (set_id b.entity) (texts.back a.entity.id),
          )
    ]
