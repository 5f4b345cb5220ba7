-- ===== src/Macros/Copying.antt =====
-- sourced_rust_macros/src/snapshot.rs: what the generated `snapshot` and `restore_from_snapshot` do.
use sourced_rust.Prelude.{
  String, true, Option, none, some, List, [], ◌∷◌, map, All, is_some, contains, str_eq, eq_iff,
  if◌then◌else◌, ◌≡◌, refl, ap, arith,
}
use sourced_rust.Prelude.HashMap
use sourced_rust.Prelude.HashMap.{HashMap}
use sourced_rust.Entity.{Entity, set_id}
use sourced_rust.Macros.Snapshots.{Assignment, entity_id, field_clone, SnapshotImpl}

-- A value of the struct: its entity and its other fields by name. `V` has the texts among its values.
pub record Fields (V : Type 0) : Type 0 where
  pub entity : Entity
  pub values : HashMap V

pub record Texts (V : Type 0) : Type 0 where
  pub of_text : String → V
  pub to_text : V → String
  pub back : (s : String) → to_text (of_text s) ≡ s

module _ {V : Type 0} (texts : Texts V) where
  -- The struct literal of `snapshot()`. A field that the struct lacks does not compile.
  unfoldable pub take_snapshot : List Assignment → Fields V → HashMap V
  take_snapshot [] a = []
  take_snapshot (entity_id field ∷ rest) a =
      ("id", texts.of_text a.entity.id) ∷ take_snapshot rest a
  take_snapshot (field_clone name ∷ rest) a =
      let snapshot = take_snapshot rest a in
      elim (HashMap.get name a.values) [ none ↦ snapshot | some v ↦ (name, v) ∷ snapshot ]

  -- `self.name = snapshot.name;` for one field after the other.
  unfoldable pub assign_fields : List String → HashMap V → HashMap V → HashMap V
  assign_fields [] snapshot values = values
  assign_fields (name ∷ names) snapshot values =
      assign_fields names snapshot
        (elim (HashMap.get name snapshot) [ none ↦ values | some v ↦ HashMap.insert name v values ])

  unfoldable pub restore : {T : Type 0} → SnapshotImpl T → HashMap V → Fields V → Fields V
  unfolding assign_fields set_id
  restore d snapshot a = record {
    entity = elim (HashMap.get d.id_field snapshot) [
      | none ↦ a.entity
      | some v ↦ set_id a.entity (texts.to_text v)
    ];
    values = assign_fields d.restored snapshot a.values;
  }

  pub take_snapshot-clones :
      (names : List String) (a : Fields V) (j : String)
      → All (λ n. is_some (HashMap.get n a.values) ≡ true) names
      → contains j names ≡ true
      → HashMap.get j (take_snapshot (map field_clone names) a) ≡ HashMap.get j a.values
  unfolding take_snapshot HashMap.get
  take_snapshot-clones [] a j p h = cc h
  take_snapshot-clones (name ∷ names) a j p h =
      ground (arith, p.0, h, eq_iff name j, take_snapshot-clones names a j p.1)

  assign-get :
      (o : Option V) (name j : String) (values : HashMap V)
      → is_some o ≡ true
      → HashMap.get j (elim o [ none ↦ values | some v ↦ HashMap.insert name v values ])
        ≡ (if str_eq name j then o else HashMap.get j values)
  assign-get none name j values h = cc h
  assign-get (some v) name j values h = HashMap.get-insert name j v values

  pub assign_fields-get :
      (names : List String) (snapshot values : HashMap V) (j : String)
      → All (λ n. is_some (HashMap.get n snapshot) ≡ true) names
      → HashMap.get j (assign_fields names snapshot values)
        ≡ (if contains j names then HashMap.get j snapshot else HashMap.get j values)
  unfolding assign_fields
  assign_fields-get [] snapshot values j h = refl
  assign_fields-get (name ∷ names) snapshot values j h =
      let o = HashMap.get name snapshot in
      let next : HashMap V = elim o [ none ↦ values | some v ↦ HashMap.insert name v values ] in
      let same : str_eq name j ≡ true → o ≡ HashMap.get j snapshot =
        λ p. ap (λ n. HashMap.get n snapshot) (ground (arith, p, eq_iff name j)) in
      ground (
        arith,
        h.0,
        same,
        assign-get o name j values h.0,
        assign_fields-get names snapshot next j h.1,
      )
