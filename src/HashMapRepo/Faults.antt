-- ===== src/HashMapRepo/Faults.antt =====
-- src/hashmap_repo/repository.rs: two inputs on which `commit` does not do what it is for.
use sourced_rust.Prelude.{
  ℕ, ◌<◌, String, ◌≡◌, false, some, [], ◌∷◌, ◌++◌, length, drop, ok, err, panic, arith,
}
use sourced_rust.Prelude.HashMap
use sourced_rust.Prelude.HashMap.{get-insert_self}
use sourced_rust.Entity.{Entity, new_events}
use sourced_rust.Entity.WellFormed.{new_events_lem}
use sourced_rust.Repository.{lock_poisoned}
use sourced_rust.HashMapRepo.{HashMapRepository, append_all, commit, get_one}
use sourced_rust.HashMapRepo.Committing.{Tracks, validate-none, history-append, InStep}

-- Two loaded copies of one entity in a batch pass validation both, since it looks at the store only
-- and not at the rest of the batch: the commit succeeds, and the events of the second copy are
-- appended behind those of the first, with sequence numbers that start over.
commit-duplicate :
    (repo : HashMapRepository) (a b : Entity)
    → repo.event_store.poisoned ≡ false
    → b.id ≡ a.id
    → Tracks repo.event_store.value a
    → Tracks repo.event_store.value b
    → b.committed_version ≡ a.committed_version
    → let (r, repo', es) = commit repo (a ∷ b ∷ []) in
      (r ≡ ok tt)
      × (HashMap.get a.id repo'.event_store.value
          ≡ some (a.events ++ drop a.committed_version b.events))
unfolding commit append_all
commit-duplicate repo a b p same ta tb c = ground (
  arith,
  validate-none repo.event_store.value (a ∷ b ∷ []) (ta, (tb, tt)),
  new_events_lem a ta.within,
  new_events_lem b tb.within,
  history-append repo.event_store.value a ta,
  get-insert_self a.id a.events repo.event_store.value,
  get-insert_self a.id (a.events ++ drop a.committed_version b.events)
      (HashMap.insert a.id a.events repo.event_store.value),
)

-- An entity that is in step with the store but holds fewer events than its committed version, as
-- `set_snapshot` leaves it, makes `commit` panic under the write lock. From then on the lock is
-- poisoned, and every read fails.
commit-panic :
    (repo : HashMapRepository) (e : Entity) (now : ℕ) (id : String)
    → repo.event_store.poisoned ≡ false
    → InStep repo.event_store.value e
    → length e.events < e.committed_version
    → let (r, repo', es) = commit repo (e ∷ []) in
      (r ≡ panic) × (get_one repo' now id ≡ err (lock_poisoned "read"))
unfolding commit append_all new_events get_one
commit-panic repo e now id p step short = ground arith
