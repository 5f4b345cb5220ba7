-- ===== src/QueuedRepo/Holding.antt =====
-- src/queued_repo/repository.rs: which locks are held after a read and after a commit.
use Prim.Native.Nat.{Ordering}
use Prim.Native.String.{compare}
use text.Mathlib.TextPositions.{compare_refl}
use sourced_rust.Prelude.{
  contains, ℕ, true, false, ◌||◌, String, ◌≡◌, refl, sym, ap, ◌∙◌, List, [], ◌∷◌, str_eq, eq_iff,
  arith, Outcome, ok, err, panic, hang, map_err, Bool-cases, inl, inr,
}
use sourced_rust.Prelude.HashMap
use sourced_rust.Entity.{Entity}
use sourced_rust.Repository.{RepositoryError, Repository}
use sourced_rust.Lock.{Locks, get_lock, locked}
use sourced_rust.Lock.Held.{get_lock-locked, insert-locked, lock-free, lock-hangs}
use sourced_rust.QueuedRepo.{
  Queued, acquire, acquire_each, lock_ids_in_order, sort, dedup, go_on, with_inner, queued_get_many,
}
use sourced_rust.QueuedRepo.TextOrder.{compare_trans}
use sourced_rust.QueuedRepo.Order.{Before, IsAscending, dedup-sort}

lt-differs : (x y : String) → compare x y ≡ Ordering.lt → str_eq y x ≡ false
lt-differs x y h = ground (arith, eq_iff y x, h, compare_refl x)

pub Before-tail :
    (x y : String) (ys : List String) → compare x y ≡ Ordering.lt → Before y ys → Before x ys
Before-tail x y [] b c = tt
Before-tail x y (z ∷ zs) b c = compare_trans x y z b c

-- In an ascending list nothing behind `x` is `x`.
Before-contains :
    (x : String) (xs : List String) → Before x xs → IsAscending xs → contains x xs ≡ false
Before-contains x [] b s = refl
Before-contains x (y ∷ ys) b s =
    rw (lt-differs x y b) (Before-contains x ys (Before-tail x y ys b s.0) s.1)

-- No lock of the list is held.
abbrev pub Free : Locks → List String → Type 0
Free locks ids = (id : String) → contains id ids ≡ true → locked locks id ≡ false

-- After the call exactly the locks of the list are held beside those that were.
abbrev pub Holds : Locks → List String → Locks → Type 0
Holds locks ids locks' = (j : String) → locked locks' j ≡ (contains j ids || locked locks j)

pub acquire-free :
    (locks : Locks) (id : String)
    → locked locks id ≡ false
    → acquire locks id ≡ (ok tt, HashMap.insert id true (get_lock locks id))
unfolding acquire
acquire-free locks id h =
    ap (λ x. (map_err RepositoryError.lock x.0, x.1))
      (lock-free (get_lock locks id) id (get_lock-locked locks id id ∙ h))

pub acquire-hangs :
    (locks : Locks) (id : String)
    → locked locks id ≡ true
    → acquire locks id ≡ (hang, get_lock locks id)
unfolding acquire
acquire-hangs locks id h =
    ap (λ x. (map_err RepositoryError.lock x.0, x.1))
      (lock-hangs (get_lock locks id) id (get_lock-locked locks id id ∙ h))

pub taken-locked :
    (locks : Locks) (id j : String)
    → locked (HashMap.insert id true (get_lock locks id)) j ≡ (str_eq id j || locked locks j)
taken-locked locks id j =
    ground (arith, insert-locked (get_lock locks id) id j true, get_lock-locked locks id j)

still-Free :
    (locks : Locks) (id : String) (ids : List String)
    → IsAscending (id ∷ ids)
    → Free locks (id ∷ ids)
    → Free (HashMap.insert id true (get_lock locks id)) ids
still-Free locks id ids s f j c = ground (
  arith,
  taken-locked locks id j,
  f j (ground (arith, c)),
  eq_iff id j,
  Before-contains id ids s.0 s.1,
  c,
)

-- What `acquire_each` does behind its first lock.
abbrev pub after_acquire :
    List String
    → Outcome RepositoryError (Unit {0}) × Locks
    → Outcome RepositoryError (Unit {0}) × Locks
after_acquire ids (r, locks₁) = elim r [
  | ok _ ↦ acquire_each locks₁ ids
  | err e ↦ (err e, locks₁)
  | panic ↦ (panic, locks₁)
  | hang ↦ (hang, locks₁)
]

pub acquire_each-Holds :
    (locks : Locks) (ids : List String)
    → IsAscending ids
    → Free locks ids
    → (locks' : Locks) × (acquire_each locks ids ≡ (ok tt, locks')) × Holds locks ids locks'
unfolding acquire_each
acquire_each-Holds locks [] s f = (locks, refl, λ j. refl)
acquire_each-Holds locks (id ∷ ids) s f =
    let locks₁ = HashMap.insert id true (get_lock locks id) in
    let (locks', eq, holds) = acquire_each-Holds locks₁ ids s.1 (still-Free locks id ids s f) in
    (
      locks',
      ap (after_acquire ids) (acquire-free locks id (f id (ground (arith, eq_iff id id)))) ∙ eq,
      λ j. ground (arith, holds j, taken-locked locks id j),
    )

pub acquire_each-hangs :
    (locks : Locks) (ids : List String) (id : String)
    → contains id ids ≡ true
    → locked locks id ≡ true
    → (acquire_each locks ids).0 ≡ hang
unfolding acquire_each
acquire_each-hangs locks [] id c l = cc
acquire_each-hangs locks (x ∷ ids) id c l = elim (Bool-cases (locked locks x)) [
  | inl held ↦ ap (λ y. (after_acquire ids y).0) (acquire-hangs locks x held)
  | inr free ↦
      ap (λ y. (after_acquire ids y).0) (acquire-free locks x free)
      ∙ (acquire_each-hangs (HashMap.insert x true (get_lock locks x)) ids id
          (ground (arith, c, l, free, eq_iff x id)) (ground (arith, taken-locked locks x id, l)))
]

module _ {S : Type 0} (repo : Repository S) (q : Queued S) (now : ℕ) (ids : List String) where
  abbrev wanted : List String
  wanted = dedup (sort ids)

  -- What `queued_get_many` does behind the locks.
  abbrev pub reads :
      Outcome RepositoryError (Unit {0}) × Locks → Outcome RepositoryError (List Entity) × Queued S
  reads (r, locks') =
      let q' = record q { locks = locks' } in
      go_on repo r q' (λ _. with_inner repo q' (repo.get_many q'.inner now ids))

  -- Where none of the wanted locks is held, `get_many` is the inner `get_many`, and afterwards exactly
  -- the locks of the identifiers are held beside those that were; where one of them is held, the call
  -- waits.
  pub queued_get_many-Holds :
      (Free q.locks ids
        → (locks' : Locks) × (queued_get_many repo q now ids
            ≡ with_inner repo (record q { locks = locks' }) (repo.get_many q.inner now ids))
          × Holds q.locks ids locks')
      × ((id : String)
          → contains id ids ≡ true
          → locked q.locks id ≡ true
          → (queued_get_many repo q now ids).0 ≡ hang)
  unfolding queued_get_many lock_ids_in_order
  queued_get_many-Holds =
      let (ascending, same) = dedup-sort ids in
      (
        λ f.
            let (locks', eq, holds) =
              acquire_each-Holds q.locks wanted ascending (λ id c. f id (sym (same id) ∙ c)) in
            (locks', ap reads eq, λ j. holds j ∙ ap (λ b. b || locked q.locks j) (same j)),
        λ id c l.
            waits (acquire_each q.locks wanted)
              (acquire_each-hangs q.locks wanted id (same id ∙ c) l),
      )
    where
      waits : (x : Outcome RepositoryError (Unit {0}) × Locks) → x.0 ≡ hang → (reads x).0 ≡ hang
      waits (r, locks') h = rw h refl
