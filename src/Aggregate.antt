-- ===== src/Aggregate.antt =====
-- src/aggregate/aggregate.rs: typed access to the entities of a repository. A method of the trait
-- that writes through `entity_mut` sets the entity; the replay of an event may read the clock.
pub mod Replaying
pub mod Queries
use sourced_rust.Prelude.{
  ℕ, ◌+◌, ◌≡◌, String, Bool, true, false, Option, none, some, List, [], ◌∷◌, length, is_some,
  is_empty, if◌then◌else◌, Outcome, ok, err, panic, hang, map_err, ◌>>=◌, map,
}
use sourced_rust.Entity.{EventRecord, Entity, set_replaying}
use sourced_rust.Entity.Upcaster.{EventUpcaster, upcast_events}
use sourced_rust.Repository.{RepositoryError, replay, Repository}

-- The trait `Aggregate`. The text of a `ReplayError` is its error.
pub record Aggregate (A : Type 0) : Type 0 where
  pub new_empty : ℕ → A
  pub entity : A → Entity
  pub set_entity : A → Entity → A
  pub replay_event : ℕ → EventRecord → A → Outcome String A
  pub upcasters : List EventUpcaster

-- What Rust's `entity` and `entity_mut` are: two views of one field.
pub record IsField {A : Type 0} (agg : Aggregate A) : Type 0 where
  pub entity-set_entity : (a : A) (e : Entity) → agg.entity (agg.set_entity a e) ≡ e
  pub set_entity-set_entity :
      (a : A) (e e' : Entity) → agg.set_entity (agg.set_entity a e) e' ≡ agg.set_entity a e'
  pub set_entity-entity : (a : A) → agg.set_entity a (agg.entity a) ≡ a

module _ {A : Type 0} (agg : Aggregate A) where
  abbrev pub update_entity : (Entity → Entity) → A → A
  update_entity f a = agg.set_entity a (f (agg.entity a))

  -- `agg.entity_mut().set_replaying(b)`
  abbrev pub flag : Bool → A → A
  flag b = update_entity (λ e. set_replaying e b)

  -- `for event in &events { agg.replay_event(event)? }`
  unfoldable pub replay_all : ℕ → List EventRecord → A → Outcome String A
  replay_all now [] a = ok a
  replay_all now (event ∷ events) a = do a' ← agg.replay_event now event a; replay_all now events a'

  -- The events as the aggregate reads them. `hang` is the loop of the upcasters without an end.
  unfoldable pub current_events : ℕ → List EventRecord → Outcome RepositoryError (List EventRecord)
  current_events fuel events =
      if is_empty agg.upcasters
      then ok events
      else elim (upcast_events fuel agg.upcasters events) [ none ↦ hang | some es ↦ ok es ]

  unfoldable pub replay_flagged : ℕ → List EventRecord → A → Outcome RepositoryError A
  unfolding replay_all
  replay_flagged now events a = do
    a' ← map_err replay (replay_all now events (flag true a))
    ok (flag false a')

  unfoldable pub hydrate : ℕ → ℕ → Entity → Outcome RepositoryError A
  unfolding current_events replay_flagged
  hydrate fuel now entity = do
    let a = agg.set_entity (agg.new_empty now) entity
    events ← current_events fuel (agg.entity a).events
    replay_flagged now events a

  unfoldable pub hydrate_option : ℕ → ℕ → Option Entity → Outcome RepositoryError (Option A)
  hydrate_option fuel now none = ok none
  hydrate_option fuel now (some e) = do a ← hydrate fuel now e; ok (some a)

  unfoldable pub hydrate_all : ℕ → ℕ → List Entity → Outcome RepositoryError (List A)
  hydrate_all fuel now [] = ok []
  hydrate_all fuel now (e ∷ es) = do
    a ← hydrate fuel now e
    rest ← hydrate_all fuel now es
    ok (a ∷ rest)

  -- The entities of a batch go back to their aggregates in order.
  unfoldable pub put_back : List A → List Entity → List A
  put_back [] es = []
  put_back (a ∷ aggs) [] = a ∷ aggs
  put_back (a ∷ aggs) (e ∷ es) = agg.set_entity a e ∷ put_back aggs es

  module _ (predicate : A → Bool) where
    unfoldable pub find_loop : ℕ → ℕ → List Entity → Outcome RepositoryError (List A)
    find_loop fuel now [] = ok []
    find_loop fuel now (e ∷ es) = do
      a ← hydrate fuel now e
      rest ← find_loop fuel now es
      ok (if predicate a then a ∷ rest else rest)

    unfoldable pub find_one_loop : ℕ → ℕ → List Entity → Outcome RepositoryError (Option A)
    find_one_loop fuel now [] = ok none
    find_one_loop fuel now (e ∷ es) =
        let rest = find_one_loop fuel now es in
        (do a ← hydrate fuel now e; if predicate a then ok (some a) else rest)

    -- The loops of `ExistsAggregate` and `CountAggregate`.
    unfoldable pub exists_loop : ℕ → ℕ → List Entity → Outcome RepositoryError Bool
    exists_loop fuel now [] = ok false
    exists_loop fuel now (e ∷ es) =
        let rest = exists_loop fuel now es in
        (do a ← hydrate fuel now e; if predicate a then ok true else rest)

    unfoldable pub count_loop : ℕ → ℕ → ℕ → List Entity → Outcome RepositoryError ℕ
    count_loop fuel now n [] = ok n
    count_loop fuel now n (e ∷ es) = do
      a ← hydrate fuel now e
      count_loop fuel now (if predicate a then n + 1 else n) es

-- `AggregateRepository<R, A>`, and the extension traits, which do the same on a bare repository.
module _ {S A : Type 0} (repo : Repository S) (agg : Aggregate A) (fuel : ℕ) where
  unfoldable pub get_aggregate : S → ℕ → String → Outcome RepositoryError (Option A) × S
  unfolding hydrate_option
  get_aggregate s now id =
      let (r, s') = repo.get_one s now id in (r >>= hydrate_option agg fuel now, s')

  unfoldable pub get_all_aggregates : S → ℕ → List String → Outcome RepositoryError (List A) × S
  unfolding hydrate_all
  get_all_aggregates s now ids =
      let (r, s') = repo.get_many s now ids in (r >>= hydrate_all agg fuel now, s')

  unfoldable pub commit_aggregate : S → A → Outcome RepositoryError (Unit {0}) × S × A
  commit_aggregate s a =
      let (r, s', es) = repo.commit s (agg.entity a ∷ []) in
      (r, s', elim es [ [] ↦ a | e ∷ rest ↦ agg.set_entity a e ])

  unfoldable pub commit_all_aggregates :
      S → List A → Outcome RepositoryError (Unit {0}) × S × List A
  unfolding put_back
  commit_all_aggregates s aggs =
      let (r, s', es) = repo.commit s (map agg.entity aggs) in (r, s', put_back agg aggs es)

  unfoldable pub find_aggregate : S → ℕ → (A → Bool) → Outcome RepositoryError (List A) × S
  unfolding find_loop
  find_aggregate s now p =
      let (r, s') = repo.find s now (λ _. true) in (r >>= find_loop agg p fuel now, s')

  unfoldable pub find_one_aggregate : S → ℕ → (A → Bool) → Outcome RepositoryError (Option A) × S
  unfolding find_one_loop
  find_one_aggregate s now p =
      let (r, s') = repo.find s now (λ _. true) in (r >>= find_one_loop agg p fuel now, s')

  unfoldable pub exists_aggregate : S → ℕ → (A → Bool) → Outcome RepositoryError Bool × S
  unfolding exists_loop
  exists_aggregate s now p =
      let (r, s') = repo.find s now (λ _. true) in (r >>= exists_loop agg p fuel now, s')

  unfoldable pub count_aggregate : S → ℕ → (A → Bool) → Outcome RepositoryError ℕ × S
  unfolding count_loop
  count_aggregate s now p =
      let (r, s') = repo.find s now (λ _. true) in (r >>= count_loop agg p fuel now 0, s')

  -- `AggregateRepository::exists` and `count`, which go by `find_one` and `find`.
  unfoldable pub exists : S → ℕ → (A → Bool) → Outcome RepositoryError Bool × S
  unfolding find_one_aggregate
  exists s now p = let (r, s') = find_one_aggregate s now p in (r >>= λ a. ok (is_some a), s')

  unfoldable pub count : S → ℕ → (A → Bool) → Outcome RepositoryError ℕ × S
  unfolding find_aggregate
  count s now p = let (r, s') = find_aggregate s now p in (r >>= λ aggs. ok (length aggs), s')
