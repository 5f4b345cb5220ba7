-- ===== src/Tests/Locks.antt =====
-- Inputs for src/queued_repo/repository.rs: reads that wait, and a session of read and commit.
use sourced_rust.Prelude.{
  contains, ℕ, ◌<◌, ◌≢◌, if◌then◌else◌, map, All, true, false, ◌≡◌, refl, String, List, [], ◌∷◌,
  hang, ok, is_ok,
}
use sourced_rust.Entity.{with_id, new}
use sourced_rust.HashMapRepo.{HashMapRepository}
use sourced_rust.HashMapRepo.Traits.{hashmap_repository}
use sourced_rust.Prelude.HashMap
use sourced_rust.Lock.{locked}
use sourced_rust.QueuedRepo.{
  Queued, with_inner, sort, dedup, queued_get_one, queued_get_many, queued_commit,
  queued_repository,
}
use sourced_rust.QueuedRepo.Holding.{Free, Holds, queued_get_many-Holds}
use sourced_rust.QueuedRepo.Releasing.{Releases, ids_of, queued_commit-Releases, queued_session}
use sourced_rust.QueuedRepo.Callers.{Move, arrive, turn, move, run, idle, holders, work_left}
use sourced_rust.QueuedRepo.Exclusion.{run-IsExclusive}
use sourced_rust.QueuedRepo.Returning.{IsDone, run-returns}
use sourced_rust.QueuedRepo.Aggregates.{abort, peek, peek-abort}
use sourced_rust.Aggregate.{get_aggregate}
use sourced_rust.Tests.Commits.{stocked, stale}
use sourced_rust.Tests.Snapshots.{totals, summed}

-- A repository where another caller works on "todo-3".
abbrev queued : Queued HashMapRepository
queued = record { inner = stocked; locks = ("todo-3", true) ∷ [] }

abbrev asked : List String
asked = "todo-2" ∷ "todo-1" ∷ "todo-2" ∷ []

asked_sorted : dedup (sort asked) ≡ "todo-1" ∷ "todo-2" ∷ []
unfolding dedup sort
asked_sorted = refl

queued_get_many-Holds_example :
    (Free queued.locks asked
      → (locks' : _) × (queued_get_many hashmap_repository queued 9 asked
          ≡ with_inner hashmap_repository
              (record queued { locks = locks' })
              (hashmap_repository.get_many queued.inner 9 asked))
        × Holds queued.locks asked locks')
    × ((id : String)
        → contains id asked ≡ true
        → locked queued.locks id ≡ true
        → (queued_get_many hashmap_repository queued 9 asked).0 ≡ hang)
queued_get_many-Holds_example = queued_get_many-Holds hashmap_repository queued 9 asked

queued_commit-Releases_example :
    Releases queued
      (ids_of (stale ∷ []))
      (hashmap_repository.commit queued.inner (stale ∷ []))
      (queued_commit hashmap_repository queued (stale ∷ []))
queued_commit-Releases_example = queued_commit-Releases hashmap_repository queued (stale ∷ [])

queued_session_example :
    let (r, q₁) = queued_get_one hashmap_repository queued 9 stale.id in
    let (c, q₂, es) = queued_commit hashmap_repository q₁ (stale ∷ []) in
    (r ≡ (hashmap_repository.get_one queued.inner 9 stale.id).0)
    × ((queued_get_one hashmap_repository q₁ 10 stale.id).0 ≡ hang)
    × (is_ok c ≡ true → locked q₂.locks stale.id ≡ false)
    × (is_ok c ≡ false → (queued_get_one hashmap_repository q₂ 10 stale.id).0 ≡ hang)
unfolding locked with_id new HashMap.get
queued_session_example = queued_session hashmap_repository queued 9 10 stale refl

abbrev moves : List Move
moves = arrive ("a" ∷ "b" ∷ []) ∷ arrive ("b" ∷ "a" ∷ []) ∷ turn 0 ∷ turn 1 ∷ turn 0 ∷ []

run-IsExclusive_example :
    let s = run idle moves in holders "a" s.callers ≡ (if locked s.locks "a" then 1 else 0)
run-IsExclusive_example = run-IsExclusive moves "a"

run-returns_example :
    let s = run idle moves in
    (work_left s.callers ≢ 0
      → (n : ℕ) × (work_left (move s (turn n)).callers < work_left s.callers))
    × ((ns : List ℕ) × (let s' = run s (map turn ns) in
          All IsDone s'.callers × ((j : String) → locked s'.locks j ≡ false)))
run-returns_example = run-returns moves

peek-abort_example :
    let (r, q₁) = get_aggregate (queued_repository hashmap_repository) totals 0 queued 9 "todo-1" in
    let (p, q₂) = peek hashmap_repository totals 0 queued 9 "todo-1" in
    let (u, q₃) = abort hashmap_repository totals 0 q₁ summed in
    (p ≡ r)
    × (q₂.inner ≡ q₁.inner)
    × (q₂.locks ≡ queued.locks)
    × ((get_aggregate (queued_repository hashmap_repository) totals 0 q₁ 10 "todo-1").0 ≡ hang)
    × (u ≡ ok tt)
    × (q₃.inner ≡ q₁.inner)
    × ((j : String) → locked q₃.locks j ≡ locked queued.locks j)
unfolding locked HashMap.get with_id new
peek-abort_example = peek-abort hashmap_repository totals 0 queued 9 10 "todo-1" summed refl refl
