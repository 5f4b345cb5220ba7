-- ===== src/Tests/Commits.antt =====
-- Inputs for src/hashmap_repo/repository.rs: sessions, conflicts and the two faults.
use sourced_rust.Prelude.{ℕ, ◌≡◌, ◌≢◌, refl, some, List, [], ◌∷◌, ok, err, eq_iff, arith, unlocked}
use sourced_rust.Prelude.HashMap
use sourced_rust.Prelude.HashMap.{keys}
use sourced_rust.Entity.{Entity, EventRecord, with_id, new, new_record}
use sourced_rust.Entity.Commands.{Command, digests, digests_empty, run}
use sourced_rust.Entity.WellFormed.{IsWellFormed}
use sourced_rust.Repository.{concurrent_write}
use sourced_rust.HashMapRepo.{HashMapRepository, new_repository, load, get_one, stored_len, commit}
use sourced_rust.HashMapRepo.Committing.{
  Tracks, Committed, commit-Committed, commit-stale, commit-conflict,
}
use sourced_rust.HashMapRepo.Numbering.{IsNumberedStore, session}
use sourced_rust.Tests.Codecs.{number_codec}
use sourced_rust.Tests.Entities.{unit_codec, todo}

abbrev edits : List (ℕ × Command ℕ)
edits = (6, digests "Created" 1) ∷ (7, digests_empty "Done") ∷ []

session_example :
    let edited = run number_codec unit_codec todo edits in
    let (r, repo', es) = commit new_repository (edited ∷ []) in
    (r ≡ ok tt)
    × (get_one repo' 9 todo.id ≡ ok (some (load 9 todo.id edited.events)))
    × (IsNumberedStore new_repository.event_store.value
        → IsWellFormed todo
        → IsNumberedStore repo'.event_store.value)
unfolding with_id new new_repository HashMap.get
session_example =
    session number_codec unit_codec new_repository todo edits 9 refl
      (record { stored = refl; within = omega arith; counted = refl }) (tt, (tt, tt))

abbrev first : EventRecord
first = new_record "Created" (1 ∷ []) 1 6

abbrev second : EventRecord
second = new_record "Done" [] 2 7

-- An entity with one stored event and one new one.
abbrev pub stale : Entity
stale = record todo { events = first ∷ second ∷ []; version = 2; committed_version = 1 }

abbrev other : Entity
other = record stale { id = "todo-2"; committed_version = 0 }

-- A repository that stores the first event of `stale`.
abbrev pub stocked : HashMapRepository
stocked = record new_repository { event_store = unlocked (("todo-1", first ∷ []) ∷ []) }

commit-Committed_example : Committed stocked (stale ∷ other ∷ [])
unfolding with_id new HashMap.get
commit-Committed_example =
    commit-Committed stocked (stale ∷ other ∷ []) refl
      (stale_tracks, (record { stored = refl; within = omega arith; counted = refl }, tt))
      ((differs, tt), (tt, tt))
  where
    stale_tracks : Tracks stocked.event_store.value stale
    stale_tracks = record { stored = refl; within = omega arith; counted = refl }

    differs : stale.id ≢ other.id
    differs h = ground (arith, eq_iff "todo-1" "todo-2", h)

-- What the conflicting writer believes: nothing is stored yet.
abbrev late : Entity
late = record todo { events = first ∷ []; version = 1; committed_version = 0 }

commit-stale_example : commit stocked (stale ∷ late ∷ []) ≡ (
  err (concurrent_write "todo-1" 0 (stored_len stocked.event_store.value "todo-1")),
  stocked,
  stale ∷ late ∷ [],
)
unfolding with_id new HashMap.get stored_len
commit-stale_example =
    commit-stale stocked (stale ∷ []) [] late refl (refl, tt) (λ h. omega (arith, h))

abbrev rival : Entity
rival = record stale { events = first ∷ [] }

commit-conflict_example :
    let repo' = (commit stocked (stale ∷ [])).1 in
    commit repo' (rival ∷ []) ≡ (err (concurrent_write "todo-1" 1 2), repo', rival ∷ [])
unfolding with_id new HashMap.get
commit-conflict_example =
    commit-conflict stocked stale rival refl refl
      (record { stored = refl; within = omega arith; counted = refl }) refl (omega arith)
