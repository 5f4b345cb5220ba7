-- ===== src/QueuedModels.antt =====
-- src/read_model/queued.rs: a store of read models that takes a lock for each model that it reads, and
-- releases it when the model is written.
mod Locking
pub mod Reading
pub mod Releasing
pub mod Keys
pub mod Finding
unfoldable pub use Locking.{acquire_key, acquire_keys, lock_keys_in_order, release_key}
use sourced_rust.Prelude.{
  ℕ, String, Bool, true, false, Option, none, some, List, [], ◌∷◌, map, if◌then◌else◌, Outcome, ok,
  err, panic, hang, map_err, is_ok, ◌>>=◌,
}
use sourced_rust.Bitcode.{Bytes}
use sourced_rust.Repository.{ReadModelError, RepositoryError, Repository}
use sourced_rust.Entity.{Entity}
use sourced_rust.Lock.{Locks, get_lock, unlock}
use sourced_rust.ReadModel.{ReadModel, Versioned, make_key}
use sourced_rust.ReadModel.Stores.{ReadModelStore, Answer}
use sourced_rust.CommitBuilder.{Writer}

-- The state: that of the inner store, and the locks.
pub record QueuedStore (S : Type 0) : Type 0 where
  pub inner : S
  pub locks : Locks

abbrev pub new_queued_store : {S : Type 0} → S → QueuedStore S
new_queued_store inner = record { inner = inner; locks = [] }

-- What follows a call of the inner store or of the locks: only `ok` goes on.
abbrev pub and_so :
    {S A B : Type 0}
    → Outcome ReadModelError A × S
    → (A → S → Outcome ReadModelError B × S)
    → Outcome ReadModelError B × S
and_so (ok a, q) next = next a q
and_so (err e, q) next = (err e, q)
and_so (panic, q) next = (panic, q)
and_so (hang, q) next = (hang, q)

abbrev pub of_inner : {S A : Type 0} → QueuedStore S → Answer S A → Answer (QueuedStore S) A
of_inner q (r, s) = (r, record q { inner = s })

abbrev pub of_locks :
    {S A : Type 0} → QueuedStore S → Outcome ReadModelError A × Locks → Answer (QueuedStore S) A
of_locks q (r, locks) = (r, record q { locks = locks })

-- `if result.is_ok() { self.release(&key); } result`
unfoldable pub release_if_ok :
    {S A : Type 0} → String → Answer (QueuedStore S) A → Answer (QueuedStore S) A
unfolding release_key
release_if_ok key (r, q) = (r, if is_ok r then record q { locks = release_key q.locks key } else q)

module _ {M S : Type 0} (model : ReadModel M) (store : ReadModelStore M S) where
  abbrev pub key_of_id : String → String
  key_of_id id = make_key model.collection id

  unfoldable pub lock_model : QueuedStore S → String → Answer (QueuedStore S) (Unit {0})
  unfolding acquire_key
  lock_model q id = of_locks q (acquire_key q.locks (key_of_id id))

  unfoldable pub unlock_model : QueuedStore S → String → Answer (QueuedStore S) (Unit {0})
  unfolding get_lock unlock
  unlock_model q id =
      let (r, locks') = unlock (get_lock q.locks (key_of_id id)) (key_of_id id) in
      of_locks q (map_err ReadModelError.lock r, locks')

  unfoldable pub abort_model : QueuedStore S → String → Answer (QueuedStore S) (Unit {0})
  unfolding unlock_model
  abort_model q id = unlock_model q id

  unfoldable pub queued_get : QueuedStore S → String → Answer (QueuedStore S) (Option (Versioned M))
  unfolding lock_model
  queued_get q id = and_so (lock_model q id) (λ _ q'. of_inner q' (store.get q'.inner id))

  unfoldable pub queued_upsert : QueuedStore S → M → Answer (QueuedStore S) (Versioned M)
  unfolding release_if_ok
  queued_upsert q x =
      release_if_ok (key_of_id (model.id x)) (of_inner q (store.upsert_model q.inner x))

  unfoldable pub queued_insert : QueuedStore S → M → Answer (QueuedStore S) (Versioned M)
  unfolding release_if_ok
  queued_insert q x =
      release_if_ok (key_of_id (model.id x)) (of_inner q (store.insert_model q.inner x))

  unfoldable pub queued_update : QueuedStore S → M → ℕ → Answer (QueuedStore S) (Versioned M)
  unfolding release_if_ok
  queued_update q x expected =
      release_if_ok (key_of_id (model.id x)) (of_inner q (store.update_model q.inner x expected))

  unfoldable pub queued_delete : QueuedStore S → String → Answer (QueuedStore S) Bool
  unfolding release_if_ok
  queued_delete q id = release_if_ok (key_of_id id) (of_inner q (store.delete_model q.inner id))

  unfoldable pub queued_save : QueuedStore S → String → Bytes → Answer (QueuedStore S) (Unit {0})
  unfolding release_if_ok
  queued_save q key bytes = release_if_ok key (of_inner q (store.save q.inner key bytes))

  abbrev pub id_of : Versioned M → String
  id_of v = model.id v.content

  -- What a second fetch leaves of a match: the current model, or a released lock.
  unfoldable pub keep_or_release :
      (M → Bool)
      → String
      → Option (Versioned M)
      → QueuedStore S
      → Option (Versioned M) × QueuedStore S
  unfolding release_key
  keep_or_release p id found q =
      let released = record q { locks = release_key q.locks (key_of_id id) } in
      elim found [
        | none ↦ (none, released)
        | some v ↦ if p v.content then (some v, q) else (none, released)
      ]

  -- The loop over the matches, with the locks held.
  unfoldable pub refetch_models :
      (M → Bool) → List String → QueuedStore S → Answer (QueuedStore S) (List (Versioned M))
  unfolding keep_or_release
  refetch_models p [] q = (ok [], q)
  refetch_models p (id ∷ ids) q =
      let (r, q₁) = of_inner q (store.get q.inner id) in
      elim r [
        | ok found ↦
            let (kept, q₂) = keep_or_release p id found q₁ in
            let rest = refetch_models p ids q₂ in
            and_so rest (λ vs q₃. (ok (elim kept [ none ↦ vs | some v ↦ v ∷ vs ]), q₃))
        | err e ↦ (err e, q₁)
        | panic ↦ (panic, q₁)
        | hang ↦ (hang, q₁)
      ]

  unfoldable pub queued_find_models :
      QueuedStore S → (M → Bool) → Answer (QueuedStore S) (List (Versioned M))
  unfolding lock_keys_in_order refetch_models
  queued_find_models q p = and_so (of_inner q (store.find_all q.inner p)) (λ matches q₁.
      let ids = map id_of matches in
      and_so (of_locks q₁ (lock_keys_in_order q₁.locks (map key_of_id ids)))
        (λ _ q₂. refetch_models p ids q₂))

  unfoldable pub queued_find_one_model :
      QueuedStore S → (M → Bool) → Answer (QueuedStore S) (Option (Versioned M))
  unfolding lock_model unlock_model
  queued_find_one_model q p = and_so (of_inner q (store.find_first q.inner p)) (λ first q₁.
      elim first [
        | none ↦ (ok none, q₁)
        | some v ↦ and_so (lock_model q₁ (id_of v)) (λ _ q₂.
            and_so (of_inner q₂ (store.get q₂.inner (id_of v))) (λ found q₃.
              let (r, dropped) = unlock_model q₃ (id_of v) in
              elim found [
                | none ↦ (r >>= λ _. ok none, dropped)
                | some v' ↦
                    if p v'.content then (ok (some v'), q₃) else (r >>= λ _. ok none, dropped)
              ]))
      ])

  -- The `.._with` calls: `lock` is the one field of `ReadOpts`.
  unfoldable pub get_model_with :
      QueuedStore S → String → Bool → Answer (QueuedStore S) (Option (Versioned M))
  unfolding queued_get
  get_model_with q id lock = if lock then queued_get q id else of_inner q (store.get q.inner id)

  unfoldable pub find_models_with :
      QueuedStore S → (M → Bool) → Bool → Answer (QueuedStore S) (List (Versioned M))
  unfolding queued_find_models
  find_models_with q p lock =
      if lock then queued_find_models q p else of_inner q (store.find_all q.inner p)

  unfoldable pub find_one_model_with :
      QueuedStore S → (M → Bool) → Bool → Answer (QueuedStore S) (Option (Versioned M))
  unfolding queued_find_one_model
  find_one_model_with q p lock =
      if lock then queued_find_one_model q p else of_inner q (store.find_first q.inner p)

  unfoldable pub queued_store : ReadModelStore M (QueuedStore S)
  unfolding queued_get queued_upsert queued_insert queued_update queued_delete queued_find_models
      queued_find_one_model queued_save
  queued_store = record {
    get = queued_get;
    upsert_model = queued_upsert;
    insert_model = queued_insert;
    update_model = queued_update;
    delete_model = queued_delete;
    find_all = queued_find_models;
    find_first = queued_find_one_model;
    save = queued_save;
  }

  -- `Commit` goes to the inner repository.
  unfoldable pub commit_inner :
      Repository S
      → QueuedStore S
      → List Entity
      → Outcome RepositoryError (Unit {0}) × QueuedStore S × List Entity
  commit_inner repo q es =
      let (r, s', es') = repo.commit q.inner es in (r, record q { inner = s' }, es')
