-- ===== src/HashMapRepo/Finding.antt =====
-- src/hashmap_repo/repository.rs: the searches agree with `get_one` and with one another.
use sourced_rust.Prelude.{
  ℕ, ◌+◌, ◌≡◌, refl, Bool, false, List, [], ◌∷◌, length, head?, filter, is_some, ok, ◌>>=◌, arith,
}
use sourced_rust.Prelude.HashMap.{IsMap, keys, Entries, IsMap-Entries}
use sourced_rust.Entity.{Entity}
use sourced_rust.HashMapRepo.{
  Storage, HashMapRepository, load, get_one, get_many, find_loop, find_one_loop, exists_loop,
  count_loop, find, find_one, exists, count,
}

module _ (now : ℕ) (predicate : Entity → Bool) where
  find_one_loop-head :
      (m : Storage) → find_one_loop now predicate m ≡ head? (find_loop now predicate m)
  unfolding find_one_loop find_loop
  find_one_loop-head [] = refl
  find_one_loop-head ((id, events) ∷ m) = ground (arith, find_one_loop-head m)

  exists_loop-is_some :
      (m : Storage) → exists_loop now predicate m ≡ is_some (find_one_loop now predicate m)
  unfolding find_one_loop exists_loop
  exists_loop-is_some [] = refl
  exists_loop-is_some ((id, events) ∷ m) = ground (arith, exists_loop-is_some m)

  count_loop-length :
      (n : ℕ) (m : Storage) → count_loop now predicate n m ≡ n + length (find_loop now predicate m)
  unfolding count_loop find_loop
  count_loop-length n [] = omega arith
  count_loop-length n ((id, events) ∷ m) =
      ground (arith, count_loop-length n m, count_loop-length (n + 1) m)

  -- On every repository, poisoned or not: `find_one` is the first of what `find` returns, `exists`
  -- says whether there is one, and `count` is how many there are.
  pub searches_agree :
      (repo : HashMapRepository)
      → (find_one now predicate repo ≡ (find now predicate repo >>= λ es. ok (head? es)))
        × (exists now predicate repo ≡ (find_one now predicate repo >>= λ e. ok (is_some e)))
        × (count now predicate repo ≡ (find now predicate repo >>= λ es. ok (length es)))
  unfolding find_one find exists count
  searches_agree repo = ground (
    arith,
    find_one_loop-head repo.event_store.value,
    exists_loop-is_some repo.event_store.value,
    count_loop-length 0 repo.event_store.value,
  )

load_all : ℕ → Storage → List Entity
load_all now [] = []
load_all now ((id, events) ∷ m) = load now id events ∷ load_all now m

find_loop-filter :
    (now : ℕ) (predicate : Entity → Bool) (m : Storage)
    → find_loop now predicate m ≡ filter predicate (load_all now m)
unfolding find_loop load_all
find_loop-filter now predicate [] = refl
find_loop-filter now predicate ((id, events) ∷ m) = ground (arith, find_loop-filter now predicate m)

get_many-keys :
    (repo : HashMapRepository) (now : ℕ) (m : Storage)
    → repo.event_store.poisoned ≡ false
    → Entries repo.event_store.value m
    → get_many repo now (keys m) ≡ ok (load_all now m)
unfolding get_many get_one load_all
get_many-keys repo now [] p h = refl
get_many-keys repo now ((id, events) ∷ m) p h = ground (arith, h.0, get_many-keys repo now m p h.1)

-- If the lock is not poisoned and no key stands twice in the map, then `find` returns exactly those
-- of the entities that `get_many` returns for all the stored identifiers which satisfy the
-- predicate, in the order of the map.
find-get_many :
    (now : ℕ) (predicate : Entity → Bool) (repo : HashMapRepository)
    → repo.event_store.poisoned ≡ false
    → IsMap repo.event_store.value
    → find now predicate repo
      ≡ (get_many repo now (keys repo.event_store.value) >>= λ es. ok (filter predicate es))
unfolding find
find-get_many now predicate repo p m = ground (
  arith,
  get_many-keys repo now repo.event_store.value p (IsMap-Entries repo.event_store.value m),
  find_loop-filter now predicate repo.event_store.value,
)
