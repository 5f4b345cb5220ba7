-- ===== src/Aggregate/Queries.antt =====
-- src/aggregate/aggregate.rs: the queries by predicate, two versions of two of them, agree.
use mathlib.Core.Path.{fun_ext}
use sourced_rust.Prelude.{
  ℕ, ◌+◌, ◌≡◌, refl, ap, ◌∙◌, Bool, some, List, [], ◌∷◌, length, head?, is_some, true, Option,
  if◌then◌else◌, Outcome, ok, err, panic, hang, ◌>>=◌, arith,
}
use sourced_rust.Entity.{Entity}
use sourced_rust.Repository.{RepositoryError, Repository}
use sourced_rust.Aggregate.{
  Aggregate, hydrate, find_loop, find_one_loop, exists_loop, count_loop, find_aggregate,
  find_one_aggregate, exists_aggregate, count_aggregate, exists, count,
}

module _ {A : Type 0} (agg : Aggregate A) (p : A → Bool) (fuel now : ℕ) where
  exists_loop-find_one_loop :
      (es : List Entity)
      → exists_loop agg p fuel now es ≡ (find_one_loop agg p fuel now es >>= λ a. ok (is_some a))
  unfolding exists_loop find_one_loop
  exists_loop-find_one_loop [] = refl
  exists_loop-find_one_loop (e ∷ es) = ground (arith, exists_loop-find_one_loop es)

  count_loop-find_loop :
      (n : ℕ) (es : List Entity)
      → count_loop agg p fuel now n es
        ≡ (find_loop agg p fuel now es >>= λ aggs. ok (n + length aggs))
  unfolding count_loop find_loop
  count_loop-find_loop n [] = ap ok (omega arith)
  count_loop-find_loop n (e ∷ es) =
      ground (arith, count_loop-find_loop n es, count_loop-find_loop (n + 1) es)

  first_of_rest :
      (r : Outcome RepositoryError A) (rest : Outcome RepositoryError (List A))
      (one : Outcome RepositoryError (Option A))
      → ((xs : List A) → rest ≡ ok xs → one ≡ ok (head? xs))
      → (found : List A) → (r >>= λ a. rest >>= λ xs. ok (if p a then a ∷ xs else xs)) ≡ ok found
      → (r >>= λ a. if p a then ok (some a) else one) ≡ ok (head? found)
  first_of_rest (ok a) (ok xs) one link found h = ground (arith, link xs refl)
  first_of_rest (ok a) (err e) one link found h = cc
  first_of_rest (ok a) panic one link found h = cc
  first_of_rest (ok a) hang one link found h = cc
  first_of_rest (err e) rest one link found h = cc
  first_of_rest panic rest one link found h = cc
  first_of_rest hang rest one link found h = cc

  find_one_loop-head :
      (es : List Entity) (found : List A)
      → find_loop agg p fuel now es ≡ ok found
      → find_one_loop agg p fuel now es ≡ ok (head? found)
  unfolding find_one_loop find_loop
  find_one_loop-head [] [] h = refl
  find_one_loop-head [] (a ∷ found) h = cc
  find_one_loop-head (e ∷ es) found h =
      first_of_rest (hydrate agg fuel now e) (find_loop agg p fuel now es)
        (find_one_loop agg p fuel now es) (find_one_loop-head es) found h

  -- The three facts after the entities were fetched, or were not.
  after_fetch :
      (r : Outcome RepositoryError (List Entity))
      → ((r >>= exists_loop agg p fuel now)
          ≡ ((r >>= find_one_loop agg p fuel now) >>= λ a. ok (is_some a)))
        × ((r >>= count_loop agg p fuel now 0)
            ≡ ((r >>= find_loop agg p fuel now) >>= λ aggs. ok (length aggs)))
        × ((found : List A)
            → (r >>= find_loop agg p fuel now) ≡ ok found
            → (r >>= find_one_loop agg p fuel now) ≡ ok (head? found))
  after_fetch (ok es) = (
    exists_loop-find_one_loop es,
    count_loop-find_loop 0 es
        ∙ ap (λ f. find_loop agg p fuel now es >>= f) (fun_ext λ aggs. ap ok (omega arith)),
    find_one_loop-head es,
  )
  after_fetch (err e) = (refl, refl, λ found h. cc)
  after_fetch panic = (refl, refl, λ found h. cc)
  after_fetch hang = (refl, refl, λ found h. cc)

-- Over any repository and in any state: `exists` and `count` of `AggregateRepository`, which go by
-- `find_one` and `find`, are `exists_aggregate` and `count_aggregate`, errors included; and where
-- `find_aggregate` succeeds, `find_one_aggregate` returns the first of what it returns.
pub aggregate_queries_agree :
    {S A : Type 0} (repo : Repository S) (agg : Aggregate A) (fuel now : ℕ) (s : S) (p : A → Bool)
    → (exists_aggregate repo agg fuel s now p ≡ exists repo agg fuel s now p)
      × (count_aggregate repo agg fuel s now p ≡ count repo agg fuel s now p)
      × ((found : List A)
          → (find_aggregate repo agg fuel s now p).0 ≡ ok found
          → (find_one_aggregate repo agg fuel s now p).0 ≡ ok (head? found))
unfolding exists_aggregate exists count_aggregate count
aggregate_queries_agree repo agg fuel now s p =
    let (r, s') = repo.find s now (λ _. true) in
    let (e, c, o) = after_fetch agg p fuel now r in (ap (λ x. (x, s')) e, ap (λ x. (x, s')) c, o)
