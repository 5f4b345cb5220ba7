-- ===== src/CommitBuilder/Writing.antt =====
-- src/commit_builder/mod.rs: what the writes of the queued models leave in the repository.
use sourced_rust.Prelude.{
  ◌+◌, Bool, true, false, wrap_u64, if◌then◌else◌, String, str_eq, Option, none, some, List, [],
  ◌∷◌, ◌≡◌, eq_iff, Bool-cases, inl, inr, refl, sym, ap, subst, ◌∙◌, arith, Outcome, ok, err, panic,
  hang,
}
use sourced_rust.Prelude.HashMap
use sourced_rust.Prelude.HashMap.{get-insert}
use sourced_rust.Bitcode.{Bytes}
use sourced_rust.Repository.Display.{display_model}
use sourced_rust.Repository.{RepositoryError, ReadModelError}
use sourced_rust.ReadModel.{
  StoredModel, InMemoryReadModelStore, Models, access, put_model, next_version, save_raw,
  upsert_raw, poisoned_error,
}
use sourced_rust.HashMapRepo.{HashMapRepository}
use sourced_rust.CommitBuilder.{QueuedModel, hashmap_writer, write_models}

-- The model under a key after one more write.
abbrev bumped : Bytes → Option StoredModel → StoredModel
bumped bytes old = record {
  bytes = bytes;
  version = elim old [ none ↦ 1 | some stored ↦ wrap_u64 (stored.version + 1) ];
}

-- What the writes of the queued models make of what is stored under a key.
abbrev pub written : String → List QueuedModel → Option StoredModel → Option StoredModel
written key [] old = old
written key (m ∷ ms) old =
    written key ms (if str_eq m.key key then some (bumped m.bytes old) else old)

-- The models behind the lock.
abbrev pub models_of : HashMapRepository → Models
models_of repo = repo.model_store.storage.value

abbrev pub is_poisoned : HashMapRepository → Bool
is_poisoned repo = repo.model_store.storage.poisoned

upsert_raw-open :
    (s : InMemoryReadModelStore) (key : String) (bytes : Bytes)
    → s.storage.poisoned ≡ false
    → upsert_raw s key bytes ≡ (ok tt, put_model s key bytes (next_version s.storage.value key))
unfolding upsert_raw save_raw access
upsert_raw-open s key bytes h = ground (arith, h)

upsert_raw-poisoned :
    (s : InMemoryReadModelStore) (key : String) (bytes : Bytes)
    → s.storage.poisoned ≡ true
    → upsert_raw s key bytes ≡ (err poisoned_error, s)
unfolding upsert_raw save_raw access
upsert_raw-poisoned s key bytes h = ground (arith, h)

-- The writes of the queued models on a repository whose model store is not poisoned.
pub record Wrote (repo : HashMapRepository) (ms : List QueuedModel)
    (x : Outcome RepositoryError (Unit {0}) × HashMapRepository) : Type 0 where
  pub result : x.0 ≡ ok tt
  pub events : x.1.event_store ≡ repo.event_store
  pub models :
      (key : String)
      → HashMap.get key (models_of x.1) ≡ written key ms (HashMap.get key (models_of repo))

-- The repository after one write.
abbrev wrote_one : HashMapRepository → QueuedModel → HashMapRepository
wrote_one repo m = record repo {
  model_store = put_model repo.model_store m.key m.bytes (next_version (models_of repo) m.key);
}

wrote_one-get :
    (repo : HashMapRepository) (m : QueuedModel) (key : String)
    → HashMap.get key (models_of (wrote_one repo m))
      ≡ written key (m ∷ []) (HashMap.get key (models_of repo))
unfolding put_model next_version
wrote_one-get repo m key =
    get-insert m.key key (bumped m.bytes (HashMap.get m.key (models_of repo))) (models_of repo)
    ∙ elim (Bool-cases (str_eq m.key key)) [
      | inl same ↦ rw same (
          ap (λ k. some (bumped m.bytes (HashMap.get k (models_of repo))))
            ((eq_iff m.key key).0 same))
      | inr differs ↦ rw differs refl
    ]

still-open :
    (repo : HashMapRepository) (m : QueuedModel)
    → is_poisoned repo ≡ false
    → is_poisoned (wrote_one repo m) ≡ false
unfolding put_model
still-open repo m h = h

writer-open :
    (repo : HashMapRepository) (m : QueuedModel)
    → is_poisoned repo ≡ false
    → hashmap_writer.upsert_raw repo m.key m.bytes ≡ (ok tt, wrote_one repo m)
unfolding hashmap_writer
writer-open repo m h =
    ap (λ x. (x.0, record repo { model_store = x.1 }))
      (upsert_raw-open repo.model_store m.key m.bytes h)

pub writer-poisoned :
    (repo : HashMapRepository) (m : QueuedModel)
    → is_poisoned repo ≡ true
    → hashmap_writer.upsert_raw repo m.key m.bytes ≡ (err poisoned_error, repo)
unfolding hashmap_writer
writer-poisoned repo m h =
    ap (λ x. (x.0, record repo { model_store = x.1 }))
      (upsert_raw-poisoned repo.model_store m.key m.bytes h)

-- What the loop does behind a write.
abbrev pub after_write :
    List QueuedModel
    → Outcome ReadModelError (Unit {0}) × HashMapRepository
    → Outcome RepositoryError (Unit {0}) × HashMapRepository
after_write ms (r, repo') = elim r [
  | ok _ ↦ write_models hashmap_writer repo' ms
  | err e ↦ (err (RepositoryError.model (display_model e)), repo')
  | panic ↦ (panic, repo')
  | hang ↦ (hang, repo')
]

pub write_models-Wrote :
    (repo : HashMapRepository) (ms : List QueuedModel)
    → is_poisoned repo ≡ false
    → Wrote repo ms (write_models hashmap_writer repo ms)
unfolding write_models
write_models-Wrote repo [] h = record { result = refl; events = refl; models = λ key. refl }
write_models-Wrote repo (m ∷ ms) h =
    let later = write_models-Wrote (wrote_one repo m) ms (still-open repo m h) in
    subst (Wrote repo (m ∷ ms)) (sym (ap (after_write ms) (writer-open repo m h))) (record {
      result = later.result;
      events = later.events;
      models = λ key. later.models key ∙ ap (written key ms) (wrote_one-get repo m key);
    })
