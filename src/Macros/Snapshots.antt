-- ===== src/Macros/Snapshots.antt =====
-- sourced_rust_macros/src/snapshot.rs: the derive macro `Snapshot`. The syntax is data: of an attribute the
-- entries that `parse_nested_meta` reads, which stops at a value that its closure does not take.
use Prim.Native.String.{◌++◌ as text_append}
use sourced_rust.Prelude.{
  String, Bool, false, ◌||◌, Option, none, some, List, [], ◌∷◌, map, is_some, unwrap_or, contains,
  str_eq, if◌then◌else◌,
}

pub data MetaValue : Type 0 where
  absent other_value : MetaValue
  literal : String → MetaValue

pub record Meta : Type 0 where
  pub name : String
  pub value : MetaValue

pub record MetaAttribute : Type 0 where
  pub path : String
  pub metas : List Meta

pub record Field (T : Type 0) : Type 0 where
  pub ident : String
  pub ty : T
  pub attrs : List MetaAttribute

pub data DeriveData (T : Type 0) : Type 0 where
  named_struct : List (Field T) → DeriveData T
  other_data : DeriveData T

pub record DeriveInput (T : Type 0) : Type 0 where
  pub ident : String
  pub attrs : List MetaAttribute
  pub body : DeriveData T

-- The closure of `parse_struct_attrs` on the entries of an attribute; its error ends the reading, and what
-- was read before stays.
unfoldable pub read_struct_metas : String → Option String → List Meta → String × Option String
read_struct_metas entity_field custom_id [] = (entity_field, custom_id)
read_struct_metas entity_field custom_id (m ∷ ms) =
    if str_eq m.name "entity"
    then elim (m.value) [
      | literal text ↦ read_struct_metas text custom_id ms
      | _ ↦ (entity_field, custom_id)
    ]
    else if str_eq m.name "id"
    then elim (m.value) [
      | literal text ↦ read_struct_metas entity_field (some text) ms
      | _ ↦ (entity_field, custom_id)
    ]
    else elim (m.value) [
      | absent ↦ read_struct_metas entity_field custom_id ms
      | _ ↦ (entity_field, custom_id)
    ]

unfoldable pub parse_struct_attrs_from :
    String → Option String → List MetaAttribute → String × Option String
unfolding read_struct_metas
parse_struct_attrs_from entity_field custom_id [] = (entity_field, custom_id)
parse_struct_attrs_from entity_field custom_id (attr ∷ attrs) =
    let (entity_field', custom_id') =
      if str_eq attr.path "snapshot"
      then read_struct_metas entity_field custom_id attr.metas
      else (entity_field, custom_id) in
    parse_struct_attrs_from entity_field' custom_id' attrs

unfoldable pub parse_struct_attrs : List MetaAttribute → String × Option String
unfolding parse_struct_attrs_from
parse_struct_attrs attrs = parse_struct_attrs_from "entity" none attrs

unfoldable pub finds_skip : Bool → List Meta → Bool
finds_skip found [] = found
finds_skip found (m ∷ ms) =
    let found' = found || str_eq m.name "skip" in
    elim (m.value) [ absent ↦ finds_skip found' ms | _ ↦ found' ]

unfoldable pub has_serde_skip : List MetaAttribute → Bool
unfolding finds_skip
has_serde_skip [] = false
has_serde_skip (attr ∷ attrs) =
    let rest = has_serde_skip attrs in
    if str_eq attr.path "serde" then finds_skip false attr.metas || rest else rest

-- Without the entity field and the fields that serde skips.
unfoldable pub snapshot_fields : {T : Type 0} → String → List (Field T) → List (String × T)
unfolding has_serde_skip
snapshot_fields entity_field [] = []
snapshot_fields entity_field (f ∷ fields) =
    let rest = snapshot_fields entity_field fields in
    if str_eq f.ident entity_field || has_serde_skip f.attrs then rest else (f.ident, f.ty) ∷ rest

-- `pub id: String`, or a field of the struct.
pub data FieldDef (T : Type 0) : Type 0 where
  id_def : FieldDef T
  field_def : String → T → FieldDef T

-- `id: self.entity.id().to_string()`, or `name: self.name.clone()`.
pub data Assignment : Type 0 where
  entity_id : String → Assignment
  field_clone : String → Assignment

-- The generated struct, `fn snapshot()`, and `restore_from_snapshot`, which assigns the fields of
-- `restored` and then sets the entity's id to the value of `id_field`.
pub record SnapshotImpl (T : Type 0) : Type 0 where
  pub snapshot_name : String
  pub struct_field_defs : List (FieldDef T)
  pub field_assignments : List Assignment
  pub restored : List String
  pub entity_field : String
  pub id_field : String

unfoldable pub snapshot_impl :
    {T : Type 0} → String → String → Option String → List (String × T) → SnapshotImpl T
snapshot_impl name entity_field custom_id fields =
    let names = map (λ p. p.0) fields in
    let id_field = unwrap_or custom_id "id" in
    let as_they_are = is_some custom_id || contains id_field names in
    let defs = map (λ p. field_def p.0 p.1) fields in
    let clones = map field_clone names in
    record {
      snapshot_name = text_append name "Snapshot";
      struct_field_defs = if as_they_are then defs else id_def ∷ defs;
      field_assignments = if as_they_are then clones else entity_id entity_field ∷ clones;
      restored = names;
      entity_field = entity_field;
      id_field = id_field;
    }

-- `none` is the panic on anything but a struct with named fields.
unfoldable pub derive_snapshot : {T : Type 0} → DeriveInput T → Option (SnapshotImpl T)
unfolding parse_struct_attrs snapshot_fields snapshot_impl
derive_snapshot input =
    let (entity_field, custom_id) = parse_struct_attrs input.attrs in
    elim (input.body) [
      | named_struct fields ↦
          some
            (snapshot_impl input.ident entity_field custom_id (snapshot_fields entity_field fields))
      | other_data ↦ none
    ]
