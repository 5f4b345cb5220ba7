-- ===== src/ReadModel.antt =====
-- src/read_model/mod.rs and src/read_model/in_memory.rs: typed data for queries, kept as JSON under
-- the key "collection:id", with a version for optimistic concurrency.
pub mod Versions
pub mod Keys
pub mod Stores
use Prim.Native.String.{◌++◌ as text_append}
use sourced_rust.Prelude.{
  ℕ, ◌+◌, String, Bool, true, false, Option, none, some, List, [], ◌∷◌, ◌==◌, wrap_u64, starts_with,
  is_some, unwrap_or, if◌then◌else◌, Outcome, ok, err, panic, hang, map_err, ◌>>=◌, RwLock,
  unlocked,
}
use sourced_rust.Prelude.HashMap
use sourced_rust.Prelude.HashMap.{HashMap}
use sourced_rust.Bitcode.{Bytes}
use sourced_rust.Repository.{ReadModelError, concurrency_conflict, serde, storage, not_found}

-- The trait `ReadModel`, and what `serde_json` does at the type: both may fail with a message.
pub record ReadModel (M : Type 0) : Type 0 where
  pub collection : String
  pub id : M → String
  pub to_vec : M → Outcome String Bytes
  pub from_slice : Bytes → Outcome String M

pub record Versioned (M : Type 0) : Type 0 where
  pub content : M
  pub version : ℕ

pub record StoredModel : Type 0 where
  pub bytes : Bytes
  pub version : ℕ

abbrev pub Models : Type 0
Models = HashMap StoredModel

pub record InMemoryReadModelStore : Type 0 where
  pub storage : RwLock Models

unfoldable pub new_store : InMemoryReadModelStore
new_store = record { storage = unlocked [] }

unfoldable pub make_key : String → String → String
make_key table id = text_append table (text_append ":" id)

abbrev pub poisoned_error : ReadModelError
poisoned_error = storage "lock poisoned"

-- `storage.read()` and `storage.write()` with their `map_err`.
unfoldable pub access : InMemoryReadModelStore → Outcome ReadModelError Models
access s = if s.storage.poisoned then err poisoned_error else ok s.storage.value

unfoldable pub put_model : InMemoryReadModelStore → String → Bytes → ℕ → InMemoryReadModelStore
put_model s key bytes version = record {
  storage = record {
    value = HashMap.insert key (record { bytes = bytes; version = version }) s.storage.value;
    poisoned = s.storage.poisoned;
  };
}

-- `storage.get(key).map(|s| s.version + 1).unwrap_or(1)`
unfoldable pub next_version : Models → String → ℕ
next_version m key = elim (HashMap.get key m) [
  | none ↦ 1
  | some stored ↦ wrap_u64 (stored.version + 1)
]

-- A write returns its result and the store.
abbrev pub Write : Type 0 → Type 0
Write A = Outcome ReadModelError A × InMemoryReadModelStore

unfoldable pub save_raw : InMemoryReadModelStore → String → Bytes → Write ℕ
unfolding access put_model next_version
save_raw s key bytes = elim (access s) [
  | ok m ↦ let v = next_version m key in (ok v, put_model s key bytes v)
  | err e ↦ (err e, s)
  | panic ↦ (panic, s)
  | hang ↦ (hang, s)
]

unfoldable pub upsert_raw : InMemoryReadModelStore → String → Bytes → Write (Unit {0})
unfolding save_raw
upsert_raw s key bytes = let (r, s') = save_raw s key bytes in (r >>= λ _. ok tt, s')

module _ {M : Type 0} (model : ReadModel M) where
  -- `serde_json::from_slice(..).map_err(..)?`
  unfoldable pub read_stored : StoredModel → Outcome ReadModelError (Versioned M)
  read_stored stored = do
    content ← map_err serde (model.from_slice stored.bytes)
    ok (record { content = content; version = stored.version })

  unfoldable pub get_model :
      InMemoryReadModelStore → String → Outcome ReadModelError (Option (Versioned M))
  unfolding make_key access read_stored
  get_model s id = do
    m ← access s
    elim (HashMap.get (make_key model.collection id) m) [
      | none ↦ ok none
      | some stored ↦ (do v ← read_stored stored; ok (some v))
    ]

  -- The key and the bytes of a model, and the map behind the lock.
  unfoldable pub prepare : InMemoryReadModelStore → M → Outcome ReadModelError (Bytes × Models)
  unfolding access
  prepare s x = do bytes ← map_err serde (model.to_vec x); m ← access s; ok (bytes, m)

  abbrev pub key_of : M → String
  key_of x = make_key model.collection (model.id x)

  abbrev stored_as : InMemoryReadModelStore → M → Bytes → ℕ → Write (Versioned M)
  stored_as s x bytes v = (ok (record { content = x; version = v }), put_model s (key_of x) bytes v)

  unfoldable pub upsert : InMemoryReadModelStore → M → Write (Versioned M)
  unfolding prepare put_model next_version
  upsert s x = elim (prepare s x) [
    | ok (bytes, m) ↦ stored_as s x bytes (next_version m (key_of x))
    | err e ↦ (err e, s)
    | panic ↦ (panic, s)
    | hang ↦ (hang, s)
  ]

  unfoldable pub insert : InMemoryReadModelStore → M → Write (Versioned M)
  unfolding prepare put_model
  insert s x = elim (prepare s x) [
    | ok (bytes, m) ↦ elim (HashMap.get (key_of x) m) [
      | none ↦ stored_as s x bytes 1
      | some stored ↦ (err (concurrency_conflict model.collection (model.id x) 0 stored.version), s)
    ]
    | err e ↦ (err e, s)
    | panic ↦ (panic, s)
    | hang ↦ (hang, s)
  ]

  unfoldable pub update : InMemoryReadModelStore → M → ℕ → Write (Versioned M)
  unfolding prepare put_model
  update s x expected = elim (prepare s x) [
    | ok (bytes, m) ↦ elim (HashMap.get (key_of x) m) [
      | none ↦ (err (not_found model.collection (model.id x)), s)
      | some stored ↦
          if stored.version == expected
          then stored_as s x bytes (wrap_u64 (stored.version + 1))
          else (err (concurrency_conflict model.collection (model.id x) expected stored.version), s)
    ]
    | err e ↦ (err e, s)
    | panic ↦ (panic, s)
    | hang ↦ (hang, s)
  ]

  unfoldable pub delete : InMemoryReadModelStore → String → Write Bool
  unfolding access
  delete s id = elim (access s) [
    | ok m ↦
        let key = make_key model.collection id in
        (
          ok (is_some (HashMap.get key m)),
          record {
            storage = record { value = HashMap.remove key m; poisoned = s.storage.poisoned };
          },
        )
    | err e ↦ (err e, s)
    | panic ↦ (panic, s)
    | hang ↦ (hang, s)
  ]

  -- `if let Ok(data) = from_slice(..) { if predicate(&data) { .. } }`
  unfoldable pub candidate : (M → Bool) → StoredModel → Option (Versioned M)
  candidate p stored = elim (model.from_slice stored.bytes) [
    | ok x ↦ if p x then some (record { content = x; version = stored.version }) else none
    | _ ↦ none
  ]

  unfoldable pub matching : (M → Bool) → String → StoredModel → Option (Versioned M)
  unfolding candidate
  matching p key stored =
      if starts_with key (text_append model.collection ":") then candidate p stored else none

  unfoldable pub find_loop : (M → Bool) → Models → List (Versioned M)
  unfolding matching
  find_loop p [] = []
  find_loop p ((key, stored) ∷ m) =
      let rest = find_loop p m in elim (matching p key stored) [ none ↦ rest | some v ↦ v ∷ rest ]

  unfoldable pub find_one_loop : (M → Bool) → Models → Option (Versioned M)
  unfolding matching
  find_one_loop p [] = none
  find_one_loop p ((key, stored) ∷ m) = elim (matching p key stored) [
    | none ↦ find_one_loop p m
    | some v ↦ some v
  ]

  unfoldable pub find_models :
      InMemoryReadModelStore → (M → Bool) → Outcome ReadModelError (List (Versioned M))
  unfolding access find_loop
  find_models s p = do m ← access s; ok (find_loop p m)

  unfoldable pub find_one_model :
      InMemoryReadModelStore → (M → Bool) → Outcome ReadModelError (Option (Versioned M))
  unfolding access find_one_loop
  find_one_model s p = do m ← access s; ok (find_one_loop p m)
