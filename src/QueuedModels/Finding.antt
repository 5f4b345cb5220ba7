-- ===== src/QueuedModels/Finding.antt =====
-- src/read_model/queued.rs: which locks a search holds afterwards.
use sourced_rust.Prelude.{
  Bool, true, false, String, str_eq, eq_iff, not, ◌&&◌, contains, filter, is_some, Option, none,
  some, List, [], ◌∷◌, map, if◌then◌else◌, Outcome, ok, err, panic, hang, ◌≡◌, refl, sym, ap, subst,
  ◌∙◌, arith, Bool-cases, inl, inr,
}
use sourced_rust.Repository.{ReadModelError}
use sourced_rust.Lock.{Locks, locked}
use sourced_rust.ReadModel.{ReadModel, Versioned}
use sourced_rust.ReadModel.Stores.{ReadModelStore, Answer}
use sourced_rust.QueuedRepo.Holding.{Free, Holds}
use sourced_rust.QueuedModels.{
  QueuedStore, release_key, and_so, of_inner, of_locks, key_of_id, id_of, keep_or_release,
  refetch_models, lock_keys_in_order, queued_find_models,
}
use sourced_rust.QueuedModels.Keys.{keys_of, held_or_dropped, filter-contains}
use sourced_rust.QueuedModels.Reading.{lock_keys_in_order-Holds, lock_keys_in_order-hangs}
use sourced_rust.QueuedModels.Releasing.{release_key-locked}

module _ {M S : Type 0} (model : ReadModel M) (store : ReadModelStore M S) (p : M → Bool)
    (found : String → Option (Versioned M)) where
  -- Whether the second fetch finds a model that still matches.
  abbrev pub still : String → Bool
  still id = elim (found id) [ none ↦ false | some v ↦ p v.content ]

  -- The models that the second fetch returns.
  abbrev pub kept_models : List String → List (Versioned M)
  kept_models [] = []
  kept_models (id ∷ ids) = elim (found id) [
    | none ↦ kept_models ids
    | some v ↦ if p v.content then v ∷ kept_models ids else kept_models ids
  ]

  -- The second fetch answers from a state that it does not change.
  abbrev pub Answers : S → List String → Type 0
  Answers s ids = (id : String) → contains id ids ≡ true → store.get s id ≡ (ok (found id), s)

  abbrev dropped : List String → List String
  dropped ids = filter (λ id. not (still id)) ids

  -- The models that are left, and the locks of the others released.
  pub record Left (ids : List String) (q : QueuedStore S)
      (x : Answer (QueuedStore S) (List (Versioned M))) : Type 0 where
    pub result : x.0 ≡ ok (kept_models ids)
    pub inner : x.1.inner ≡ q.inner
    pub locks :
        (j : String)
        → locked x.1.locks j
          ≡ (not (contains j (keys_of model.collection (dropped ids))) && locked q.locks j)

  abbrev kept_one : Option (Versioned M) → Option (Versioned M)
  kept_one none = none
  kept_one (some v) = if p v.content then some v else none

  abbrev added : Option (Versioned M) → List (Versioned M) → List (Versioned M)
  added kept vs = elim kept [ none ↦ vs | some v ↦ v ∷ vs ]

  record Kept (id : String) (o : Option (Versioned M)) (q : QueuedStore S)
      (y : Option (Versioned M) × QueuedStore S) : Type 0 where
    kept : y.0 ≡ kept_one o
    inner : y.1.inner ≡ q.inner
    locks :
        (j : String)
        → locked y.1.locks j ≡ (
            if is_some (kept_one o)
            then locked q.locks j
            else not (str_eq (key_of_id model store id) j) && locked q.locks j)

  released-Kept :
      (id : String) (o : Option (Versioned M)) (q : QueuedStore S)
      → kept_one o ≡ none
      → Kept id o q (none, record q { locks = release_key q.locks (key_of_id model store id) })
  released-Kept id o q h = record {
    kept = sym h;
    inner = refl;
    locks = λ j. rw h (release_key-locked q.locks (key_of_id model store id) j);
  }

  keep_or_release-Kept :
      (id : String) (o : Option (Versioned M)) (q : QueuedStore S)
      → Kept id o q (keep_or_release model store p id o q)
  unfolding keep_or_release
  keep_or_release-Kept id none q = released-Kept id none q refl
  keep_or_release-Kept id (some v) q = elim (Bool-cases (p v.content)) [
    | inl matches ↦ rw matches (record { kept = rw matches; inner = refl; locks = λ j. rw matches })
    | inr differs ↦ rw differs (released-Kept id (some v) q (rw differs))
  ]

  -- What `refetch_models` does behind one answer.
  abbrev after_get :
      List String
      → String
      → Answer (QueuedStore S) (Option (Versioned M))
      → Answer (QueuedStore S) (List (Versioned M))
  after_get ids id (r, q₁) = elim r [
    | ok found ↦
        let (kept, q₂) = keep_or_release model store p id found q₁ in
        let rest = refetch_models model store p ids q₂ in
        and_so rest (λ vs q₃. (ok (elim kept [ none ↦ vs | some v ↦ v ∷ vs ]), q₃))
    | err e ↦ (err e, q₁)
    | panic ↦ (panic, q₁)
    | hang ↦ (hang, q₁)
  ]

  kept_models-added :
      (id : String) (ids : List String)
      → added (kept_one (found id)) (kept_models ids) ≡ kept_models (id ∷ ids)
  kept_models-added id ids = ground arith

  still-kept : (id : String) → is_some (kept_one (found id)) ≡ still id
  still-kept id = ground arith

  abbrev models_of : Outcome ReadModelError (List (Versioned M)) → List (Versioned M)
  models_of (ok vs) = vs
  models_of (err e) = []
  models_of panic = []
  models_of hang = []

  with_rest :
      (ids : List String) (id : String) (q : QueuedStore S)
      (y : Option (Versioned M) × QueuedStore S) (x : Answer (QueuedStore S) (List (Versioned M)))
      → Kept id (found id) q y
      → Left ids y.1 x
      → Left (id ∷ ids) q (and_so x (λ vs q₃. (ok (added y.0 vs), q₃)))
  with_rest ids id q y (ok vs, q₃) k l = record {
    result =
        ap (λ o. ok (added o vs)) k.kept
        ∙ ap (λ r. ok (added (kept_one (found id)) (models_of r))) l.result
        ∙ ap ok (kept_models-added id ids);
    inner = l.inner ∙ k.inner;
    locks = λ j. ground (arith, l.locks j, k.locks j, still-kept id);
  }
  with_rest ids id q y (err e, q₃) k l = cc l.result
  with_rest ids id q y (panic, q₃) k l = cc l.result
  with_rest ids id q y (hang, q₃) k l = cc l.result

  refetch_models-Left :
      (ids : List String) (q : QueuedStore S)
      → Answers q.inner ids
      → Left ids q (refetch_models model store p ids q)
  unfolding refetch_models
  refetch_models-Left [] q a = record { result = refl; inner = refl; locks = λ j. refl }
  refetch_models-Left (id ∷ ids) q a =
      let y = keep_or_release model store p id (found id) q in
      let k = keep_or_release-Kept id (found id) q in
      subst (λ z. Left (id ∷ ids) q (after_get ids id (of_inner q z)))
        (sym (a id (ground (arith, eq_iff id id))))
        (with_rest ids id q y (refetch_models model store p ids y.1) k (
          refetch_models-Left ids y.1 (λ i c.
            subst (λ s. store.get s i ≡ (ok (found i), s)) (sym k.inner)
              (a i (ground (arith, c))))))

  module _ (q : QueuedStore S) (matches : List (Versioned M)) (s : S) where
    abbrev matched : List String
    matched = map (id_of model store) matches

    -- What `queued_find_models` does behind the inner search, and behind the locks.
    abbrev behind_locks :
        Outcome ReadModelError (Unit {0}) × Locks → Answer (QueuedStore S) (List (Versioned M))
    behind_locks x =
        and_so (of_locks (record q { inner = s }) x)
          (λ _ q₂. refetch_models model store p matched q₂)

    abbrev behind_search :
        Answer S (List (Versioned M)) → Answer (QueuedStore S) (List (Versioned M))
    behind_search x = and_so (of_inner q x) (λ matches q₁.
        let ids = map (id_of model store) matches in
        and_so (of_locks q₁ (lock_keys_in_order q₁.locks (keys_of model.collection ids)))
          (λ _ q₂. refetch_models model store p ids q₂))

    -- A search returns the models that the second fetch still finds to match, and afterwards exactly
    -- their locks are held beside those that were: the lock of a match that was changed or deleted in
    -- between is released. The inner search returns `matches`, none of whose locks is held, and inner
    -- reads of them succeed and leave the state as it is.
    pub find_models-Holds :
        store.find_all q.inner p ≡ (ok matches, s)
        → Answers s matched
        → Free q.locks (keys_of model.collection matched)
        → let x = queued_find_models model store q p in
          (x.0 ≡ ok (kept_models matched))
          × (x.1.inner ≡ s)
          × Holds q.locks (keys_of model.collection (filter still matched)) x.1.locks
    unfolding queued_find_models
    find_models-Holds e a f =
        let (locks', eq, holds) =
          lock_keys_in_order-Holds q.locks (keys_of model.collection matched) f in
        let left = refetch_models-Left matched (record { inner = s; locks = locks' }) a in
        rw (ap behind_search e ∙ ap behind_locks eq) (
          left.result,
          left.inner,
          λ j. ground (
            arith,
            left.locks j,
            holds j,
            f j,
            held_or_dropped model.collection still matched j,
            filter-contains model.collection (λ id. not (still id)) matched j,
          ),
        )

    -- Where the lock of one of the matches is held, the search waits.
    pub find_models-hangs :
        (key : String)
        → store.find_all q.inner p ≡ (ok matches, s)
        → contains key (keys_of model.collection matched) ≡ true
        → locked q.locks key ≡ true
        → (queued_find_models model store q p).0 ≡ hang
    unfolding queued_find_models
    find_models-hangs key e c l =
        ap (λ x. x.0) (ap behind_search e)
        ∙ waits (lock_keys_in_order q.locks (keys_of model.collection matched))
            (lock_keys_in_order-hangs q.locks (keys_of model.collection matched) key c l)
      where
        waits :
            (x : Outcome ReadModelError (Unit {0}) × Locks) → x.0 ≡ hang → (behind_locks x).0 ≡ hang
        waits (r, locks') h = rw h refl
