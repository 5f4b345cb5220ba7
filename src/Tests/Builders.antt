-- ===== src/Tests/Builders.antt =====
-- Inputs for src/commit_builder/mod.rs: entities and models, with a model store that is poisoned.
use sourced_rust.Prelude.{◌≡◌, refl, true, some, none, List, [], ◌∷◌, is_ok}
use sourced_rust.Prelude.HashMap
use sourced_rust.Entity.{with_id, new, new_events}
use sourced_rust.HashMapRepo.{HashMapRepository, stored_len, commit}
use sourced_rust.HashMapRepo.Traits.{hashmap_repository}
use sourced_rust.CommitBuilder.{QueuedModel, hashmap_writer, commit_then_write}
use sourced_rust.CommitBuilder.Writing.{written}
use sourced_rust.CommitBuilder.Settling.{Settled, commit_then_write-Settled}
use sourced_rust.Tests.Commits.{stocked, stale}

abbrev views : List QueuedModel
views =
    record { key = "views:1"; bytes = 1 ∷ [] }
    ∷ record { key = "views:2"; bytes = 2 ∷ [] }
    ∷ record { key = "views:1"; bytes = 3 ∷ [] }
    ∷ []

-- The later of two models under one key stays, with version 2.
views-written : written "views:1" views none ≡ some (record { bytes = 3 ∷ []; version = 2 })
views-written = refl

abbrev poisoned : HashMapRepository
poisoned = record stocked {
  model_store = record { storage = record { value = []; poisoned = true } };
}

commit_run : is_ok (hashmap_repository.commit poisoned (stale ∷ [])).0 ≡ true
unfolding hashmap_repository commit stored_len with_id new new_events HashMap.get
commit_run = refl

commit_then_write-Settled_example :
    Settled views
      (hashmap_repository.commit poisoned (stale ∷ []))
      (commit_then_write hashmap_writer poisoned (stale ∷ []) views)
commit_then_write-Settled_example = commit_then_write-Settled poisoned (stale ∷ []) views
