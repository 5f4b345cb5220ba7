-- ===== src/Repository.antt =====
-- src/repository/error.rs, src/lock/error.rs and the error type of src/read_model/mod.rs.
pub mod Display
use sourced_rust.Prelude.{ℕ, String, Bool, Option, List, Outcome}
use sourced_rust.Entity.{Entity}

pub data LockError : Type 0 where
  poisoned acquire_failed release_failed expired other : String → LockError

pub data ReadModelError : Type 0 where
  concurrency_conflict : String → String → ℕ → ℕ → ReadModelError
  serde : String → ReadModelError
  storage : String → ReadModelError
  not_found : String → String → ReadModelError
  lock : LockError → ReadModelError

-- `concurrent_write id expected actual`
pub data RepositoryError : Type 0 where
  lock_poisoned : String → RepositoryError
  lock : LockError → RepositoryError
  concurrent_write : String → ℕ → ℕ → RepositoryError
  replay : String → RepositoryError
  model : String → RepositoryError

-- The traits of src/repository/repository.rs and gettable.rs, over the state that a repository keeps
-- behind its handle: a call returns its result and the state. `commit` also returns the entities
-- that were passed as `&mut`.
pub record Repository (S : Type 0) : Type 0 where
  pub get_one : S → ℕ → String → Outcome RepositoryError (Option Entity) × S
  pub get_many : S → ℕ → List String → Outcome RepositoryError (List Entity) × S
  pub find : S → ℕ → (Entity → Bool) → Outcome RepositoryError (List Entity) × S
  pub find_one : S → ℕ → (Entity → Bool) → Outcome RepositoryError (Option Entity) × S
  pub exists : S → ℕ → (Entity → Bool) → Outcome RepositoryError Bool × S
  pub count : S → ℕ → (Entity → Bool) → Outcome RepositoryError ℕ × S
  pub commit : S → List Entity → Outcome RepositoryError (Unit {0}) × S × List Entity
