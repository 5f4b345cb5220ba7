-- ===== src/SnapshotStore.antt =====
-- src/snapshot/store.rs and src/snapshot/in_memory.rs: the latest snapshot of each aggregate.
use sourced_rust.Prelude.{
  ℕ, String, Bool, Option, [], is_some, if◌then◌else◌, Outcome, ok, err, RwLock, unlocked,
}
use sourced_rust.Prelude.HashMap
use sourced_rust.Prelude.HashMap.{HashMap}
use sourced_rust.Bitcode.{Bytes}
use sourced_rust.Repository.{RepositoryError, lock_poisoned}

pub record SnapshotRecord : Type 0 where
  pub aggregate_id : String
  pub version : ℕ
  pub bytes : Bytes

pub record InMemorySnapshotStore : Type 0 where
  pub storage : RwLock (HashMap SnapshotRecord)

unfoldable pub new_snapshot_store : InMemorySnapshotStore
new_snapshot_store = record { storage = unlocked [] }

unfoldable pub get_snapshot :
    InMemorySnapshotStore → String → Outcome RepositoryError (Option SnapshotRecord)
get_snapshot s id =
    if s.storage.poisoned
    then err (lock_poisoned "snapshot read")
    else ok (HashMap.get id s.storage.value)

unfoldable pub save_snapshot :
    InMemorySnapshotStore
    → SnapshotRecord
    → Outcome RepositoryError (Unit {0}) × InMemorySnapshotStore
save_snapshot s r = if s.storage.poisoned then (err (lock_poisoned "snapshot write"), s) else (
  ok tt,
  record {
    storage = record {
      value = HashMap.insert r.aggregate_id r s.storage.value;
      poisoned = s.storage.poisoned;
    };
  },
)

unfoldable pub delete_snapshot :
    InMemorySnapshotStore → String → Outcome RepositoryError Bool × InMemorySnapshotStore
delete_snapshot s id = if s.storage.poisoned then (err (lock_poisoned "snapshot write"), s) else (
  ok (is_some (HashMap.get id s.storage.value)),
  record {
    storage = record { value = HashMap.remove id s.storage.value; poisoned = s.storage.poisoned };
  },
)
