-- ===== src/HashMapRepo.antt =====
-- src/hashmap_repo/repository.rs: the in-memory repository. One call sees one reading of the clock.
-- A clone of the repository is another handle to the same state, so the state is passed along.
pub mod Traits
pub mod Committing
pub mod Numbering
pub mod Faults
pub mod Finding
use sourced_rust.Prelude.{
  ℕ, ◌+◌, String, Bool, true, false, not, Option, none, some, List, [], ◌∷◌, ◌++◌, length, ◌==◌,
  unwrap_or, is_some, if◌then◌else◌, Outcome, ok, err, panic, hang, ◌>>=◌, RwLock, unlocked,
}
use sourced_rust.Prelude.HashMap
use sourced_rust.Prelude.HashMap.{HashMap}
use sourced_rust.Entity.{
  EventRecord, Entity, new, set_id, load_from_history, new_events, mark_committed,
}
use sourced_rust.Repository.{RepositoryError, lock_poisoned, concurrent_write}
use sourced_rust.ReadModel.{InMemoryReadModelStore, new_store}
use sourced_rust.SnapshotStore.{InMemorySnapshotStore, new_snapshot_store}

abbrev pub Storage : Type 0
Storage = HashMap (List EventRecord)

pub record HashMapRepository : Type 0 where
  pub event_store : RwLock Storage
  pub model_store : InMemoryReadModelStore
  pub snapshot_store : InMemorySnapshotStore

unfoldable pub new_repository : HashMapRepository
unfolding new_store new_snapshot_store
new_repository = record {
  event_store = unlocked [];
  model_store = new_store;
  snapshot_store = new_snapshot_store;
}

-- `self.event_store.read().map_err(|_| RepositoryError::LockPoisoned("read"))?`
unfoldable pub read_storage : HashMapRepository → Outcome RepositoryError Storage
read_storage repo =
    if repo.event_store.poisoned then err (lock_poisoned "read") else ok repo.event_store.value

-- `Entity::new()`, `set_id` and `load_from_history`: how every read builds an entity.
unfoldable pub load : ℕ → String → List EventRecord → Entity
unfolding new set_id load_from_history
load now id events = load_from_history (set_id (new now) id) events

unfoldable pub get_one : HashMapRepository → ℕ → String → Outcome RepositoryError (Option Entity)
unfolding read_storage
get_one repo now id = do
  storage ← read_storage repo
  elim (HashMap.get id storage) [ none ↦ ok none | some events ↦ ok (some (load now id events)) ]

unfoldable pub get_many :
    HashMapRepository → ℕ → List String → Outcome RepositoryError (List Entity)
get_many repo now [] = ok []
get_many repo now (id ∷ ids) = do
  found ← get_one repo now id
  entities ← get_many repo now ids
  ok (elim found [ none ↦ entities | some e ↦ e ∷ entities ])

module _ (now : ℕ) (predicate : Entity → Bool) where
  unfoldable pub find_loop : Storage → List Entity
  find_loop [] = []
  find_loop ((id, events) ∷ storage) =
      let rest = find_loop storage in
      let entity = load now id events in if predicate entity then entity ∷ rest else rest

  unfoldable pub find_one_loop : Storage → Option Entity
  find_one_loop [] = none
  find_one_loop ((id, events) ∷ storage) =
      let rest = find_one_loop storage in
      let entity = load now id events in if predicate entity then some entity else rest

  unfoldable pub exists_loop : Storage → Bool
  exists_loop [] = false
  exists_loop ((id, events) ∷ storage) =
      let rest = exists_loop storage in if predicate (load now id events) then true else rest

  unfoldable pub count_loop : ℕ → Storage → ℕ
  count_loop count [] = count
  count_loop count ((id, events) ∷ storage) =
      count_loop (if predicate (load now id events) then count + 1 else count) storage

  unfoldable pub find : HashMapRepository → Outcome RepositoryError (List Entity)
  unfolding read_storage find_loop
  find repo = do storage ← read_storage repo; ok (find_loop storage)

  unfoldable pub find_one : HashMapRepository → Outcome RepositoryError (Option Entity)
  unfolding read_storage find_one_loop
  find_one repo = do storage ← read_storage repo; ok (find_one_loop storage)

  unfoldable pub exists : HashMapRepository → Outcome RepositoryError Bool
  unfolding read_storage exists_loop
  exists repo = do storage ← read_storage repo; ok (exists_loop storage)

  unfoldable pub count : HashMapRepository → Outcome RepositoryError ℕ
  unfolding read_storage count_loop
  count repo = do storage ← read_storage repo; ok (count_loop 0 storage)

-- `storage.get(id).map(|v| v.len() as u64).unwrap_or(0)`
unfoldable pub stored_len : Storage → String → ℕ
stored_len storage id = elim (HashMap.get id storage) [ none ↦ 0 | some events ↦ length events ]

-- Phase 1 of `commit`: the error of the first entity that is out of step with the store.
unfoldable pub validate : Storage → List Entity → Option RepositoryError
unfolding stored_len
validate storage [] = none
validate storage (e ∷ es) =
    let rest = validate storage es in
    if stored_len storage e.id == e.committed_version
    then rest
    else some (concurrent_write e.id e.committed_version (stored_len storage e.id))

-- Phase 2: whether it ran to the end, the map, and the entities. Where the slice of `new_events`
-- panics, what stands before it is done and the rest is not.
unfoldable pub append_all : Storage → List Entity → Bool × Storage × List Entity
append_all storage [] = (true, storage, [])
append_all storage (e ∷ es) = elim (new_events e) [
  | none ↦ (false, storage, e ∷ es)
  | some fresh ↦
      let stored = unwrap_or (HashMap.get e.id storage) [] in
      let (done, storage', es') = append_all (HashMap.insert e.id (stored ++ fresh) storage) es in
      (done, storage', mark_committed e ∷ es')
]

-- The result, the repository, and the entities that were passed as `&mut`. A panic in phase 2
-- unwinds through the write guard, which poisons the lock.
unfoldable pub commit :
    HashMapRepository
    → List Entity
    → Outcome RepositoryError (Unit {0}) × HashMapRepository × List Entity
unfolding validate append_all
commit repo es =
    if repo.event_store.poisoned
    then (err (lock_poisoned "write"), repo, es)
    else elim (validate repo.event_store.value es) [
      | some e ↦ (err e, repo, es)
      | none ↦
          let (done, storage, es') = append_all repo.event_store.value es in
          (
            if done then ok tt else panic,
            record repo { event_store = record { value = storage; poisoned = not done } },
            es',
          )
    ]
