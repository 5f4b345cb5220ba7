-- ===== src/HashMapRepo/Traits.antt =====
-- src/hashmap_repo/repository.rs: the repository behind the traits that its clients ask for. Its read
-- model store and its snapshot store are those that it holds.
use sourced_rust.Prelude.{ℕ, String, Bool, Option, List, Outcome}
use sourced_rust.Repository.{RepositoryError, ReadModelError, Repository}
use sourced_rust.SnapshotStore.{SnapshotRecord, get_snapshot, save_snapshot, delete_snapshot}
use sourced_rust.ReadModel.{
  ReadModel, Versioned, InMemoryReadModelStore, Write, get_model, upsert, insert, update, delete,
  find_models, find_one_model,
}
use sourced_rust.HashMapRepo.{
  HashMapRepository, get_one, get_many, find, find_one, exists, count, commit,
}

-- Reads leave the repository as it is.
unfoldable pub hashmap_repository : Repository HashMapRepository
unfolding get_one get_many find find_one exists count commit
hashmap_repository = record {
  get_one = λ s now id. (get_one s now id, s);
  get_many = λ s now ids. (get_many s now ids, s);
  find = λ s now p. (find now p s, s);
  find_one = λ s now p. (find_one now p s, s);
  exists = λ s now p. (exists now p s, s);
  count = λ s now p. (count now p s, s);
  commit = λ s es. commit s es;
}

-- `impl SnapshotStore for HashMapRepository`
unfoldable pub repository_get_snapshot :
    HashMapRepository → String → Outcome RepositoryError (Option SnapshotRecord) × HashMapRepository
unfolding get_snapshot
repository_get_snapshot repo id = (get_snapshot repo.snapshot_store id, repo)

unfoldable pub repository_save_snapshot :
    HashMapRepository → SnapshotRecord → Outcome RepositoryError (Unit {0}) × HashMapRepository
unfolding save_snapshot
repository_save_snapshot repo r =
    let (result, store) = save_snapshot repo.snapshot_store r in
    (result, record repo { snapshot_store = store })

unfoldable pub repository_delete_snapshot :
    HashMapRepository → String → Outcome RepositoryError Bool × HashMapRepository
unfolding delete_snapshot
repository_delete_snapshot repo id =
    let (result, store) = delete_snapshot repo.snapshot_store id in
    (result, record repo { snapshot_store = store })

-- A write on the model store, as a write on the repository.
abbrev pub on_models :
    {A : Type 0}
    → HashMapRepository
    → (InMemoryReadModelStore → Write A)
    → Outcome ReadModelError A × HashMapRepository
on_models repo write =
    let (result, store) = write repo.model_store in (result, record repo { model_store = store })

-- `impl ReadModelStore for HashMapRepository`
module _ {M : Type 0} (model : ReadModel M) (repo : HashMapRepository) where
  unfoldable pub repository_get_model : String → Outcome ReadModelError (Option (Versioned M))
  unfolding get_model
  repository_get_model id = get_model model repo.model_store id

  unfoldable pub repository_upsert : M → Outcome ReadModelError (Versioned M) × HashMapRepository
  unfolding upsert
  repository_upsert x = on_models repo (λ s. upsert model s x)

  unfoldable pub repository_insert : M → Outcome ReadModelError (Versioned M) × HashMapRepository
  unfolding insert
  repository_insert x = on_models repo (λ s. insert model s x)

  unfoldable pub repository_update :
      M → ℕ → Outcome ReadModelError (Versioned M) × HashMapRepository
  unfolding update
  repository_update x expected = on_models repo (λ s. update model s x expected)

  unfoldable pub repository_delete : String → Outcome ReadModelError Bool × HashMapRepository
  unfolding delete
  repository_delete id = on_models repo (λ s. delete model s id)

  unfoldable pub repository_find_models : (M → Bool) → Outcome ReadModelError (List (Versioned M))
  unfolding find_models
  repository_find_models p = find_models model repo.model_store p

  unfoldable pub repository_find_one_model :
      (M → Bool) → Outcome ReadModelError (Option (Versioned M))
  unfolding find_one_model
  repository_find_one_model p = find_one_model model repo.model_store p
