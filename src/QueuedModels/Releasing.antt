-- ===== src/QueuedModels/Releasing.antt =====
-- src/read_model/queued.rs: what a write does to the locks, and a session of a read and a write.
use sourced_rust.Prelude.{
  ℕ, Option, Bool, true, false, String, str_eq, eq_iff, not, ◌&&◌, if◌then◌else◌, Outcome, ok, err,
  panic, hang, is_ok, ◌≡◌, refl, sym, ap, ◌∙◌, arith,
}
use sourced_rust.Prelude.HashMap
use sourced_rust.Bitcode.{Bytes}
use sourced_rust.Repository.{ReadModelError}
use sourced_rust.Lock.{Locks, get_lock, locked}
use sourced_rust.Lock.Held.{get_lock-locked, unlock-locked}
use sourced_rust.ReadModel.{ReadModel, Versioned}
use sourced_rust.ReadModel.Stores.{ReadModelStore, Answer}
use sourced_rust.QueuedRepo.Holding.{taken-locked}
use sourced_rust.QueuedModels.{
  QueuedStore, release_key, release_if_ok, and_so, of_inner, of_locks, key_of_id, queued_get,
  queued_upsert, queued_insert, queued_update, queued_delete, queued_save, lock_model,
}
use sourced_rust.QueuedModels.Reading.{acquire_key-free, acquire_key-hangs}

pub release_key-locked :
    (locks : Locks) (key j : String)
    → locked (release_key locks key) j ≡ (not (str_eq key j) && locked locks j)
unfolding release_key
release_key-locked locks key j =
    ground (arith, unlock-locked (get_lock locks key) key j, get_lock-locked locks key j)

module _ {S : Type 0} where
  -- The queued call returns what the inner one did, and releases the lock of `key` on success alone.
  pub record ReleasesKey {A : Type 0} (q : QueuedStore S) (key : String) (x : Answer S A)
      (y : Answer (QueuedStore S) A) : Type 0 where
    pub result : y.0 ≡ x.0
    pub inner : y.1.inner ≡ x.1
    pub locks :
        (j : String)
        → locked y.1.locks j
          ≡ (if is_ok x.0 then not (str_eq key j) && locked q.locks j else locked q.locks j)

  release_if_ok-ReleasesKey :
      {A : Type 0} (q : QueuedStore S) (key : String) (x : Answer S A)
      → ReleasesKey q key x (release_if_ok key (of_inner q x))
  unfolding release_if_ok
  release_if_ok-ReleasesKey q key (ok a, s) = record {
    result = refl;
    inner = refl;
    locks = release_key-locked q.locks key;
  }
  release_if_ok-ReleasesKey q key (err e, s) = record {
    result = refl;
    inner = refl;
    locks = λ j. refl;
  }
  release_if_ok-ReleasesKey q key (panic, s) = record {
    result = refl;
    inner = refl;
    locks = λ j. refl;
  }
  release_if_ok-ReleasesKey q key (hang, s) = record {
    result = refl;
    inner = refl;
    locks = λ j. refl;
  }

  -- The same by the result of the queued call.
  by_result :
      {A : Type 0} (q : QueuedStore S) (key : String) (x : Answer S A)
      (y : Answer (QueuedStore S) A)
      → ReleasesKey q key x y
      → (j : String)
      → locked y.1.locks j
        ≡ (if is_ok y.0 then not (str_eq key j) && locked q.locks j else locked q.locks j)
  by_result q key x y rel j =
      rel.locks j
      ∙ ap (λ b. if b then not (str_eq key j) && locked q.locks j else locked q.locks j)
          (ap is_ok (sym rel.result))

-- The calls that write.
pub data ModelWrite (M : Type 0) : Type 0 where
  upserts inserts : M → ModelWrite M
  updates : M → ℕ → ModelWrite M
  deletes : String → ModelWrite M
  saves : String → Bytes → ModelWrite M

module _ {M S : Type 0} (model : ReadModel M) (store : ReadModelStore M S) where
  abbrev pub write_key : ModelWrite M → String
  write_key (upserts x) = key_of_id model store (model.id x)
  write_key (inserts x) = key_of_id model store (model.id x)
  write_key (updates x expected) = key_of_id model store (model.id x)
  write_key (deletes id) = key_of_id model store id
  write_key (saves key bytes) = key

  -- Whether the write succeeded, and the state.
  abbrev outcome : {A T : Type 0} → Answer T A → Bool × T
  outcome (r, t) = (is_ok r, t)

  abbrev pub perform : QueuedStore S → ModelWrite M → Bool × QueuedStore S
  perform q (upserts x) = outcome (queued_upsert model store q x)
  perform q (inserts x) = outcome (queued_insert model store q x)
  perform q (updates x expected) = outcome (queued_update model store q x expected)
  perform q (deletes id) = outcome (queued_delete model store q id)
  perform q (saves key bytes) = outcome (queued_save model store q key bytes)

  abbrev pub ReleasesEach : QueuedStore S → Type 0
  ReleasesEach q =
      ((x : M)
        → ReleasesKey q (write_key (upserts x)) (store.upsert_model q.inner x)
            (queued_upsert model store q x))
      × ((x : M)
          → ReleasesKey q (write_key (inserts x)) (store.insert_model q.inner x)
              (queued_insert model store q x))
      × ((x : M) (expected : ℕ)
          → ReleasesKey q (write_key (updates x expected)) (store.update_model q.inner x expected)
              (queued_update model store q x expected))
      × ((id : String)
          → ReleasesKey q (write_key (deletes id)) (store.delete_model q.inner id)
              (queued_delete model store q id))
      × ((key : String) (bytes : Bytes)
          → ReleasesKey q (write_key (saves key bytes)) (store.save q.inner key bytes)
              (queued_save model store q key bytes))

  -- Every write does what the inner store does, with its result, and on success releases exactly the
  -- lock of its key, whoever holds it; where the inner write fails, the same locks are held as before.
  pub writes-ReleasesKey : (q : QueuedStore S) → ReleasesEach q
  unfolding queued_upsert queued_insert queued_update queued_delete queued_save
  writes-ReleasesKey q = (
    λ x. release_if_ok-ReleasesKey q (write_key (upserts x)) (store.upsert_model q.inner x),
    λ x. release_if_ok-ReleasesKey q (write_key (inserts x)) (store.insert_model q.inner x),
    λ x expected.
        release_if_ok-ReleasesKey q (write_key (updates x expected))
          (store.update_model q.inner x expected),
    λ id. release_if_ok-ReleasesKey q (write_key (deletes id)) (store.delete_model q.inner id),
    λ key bytes. release_if_ok-ReleasesKey q key (store.save q.inner key bytes),
  )

  perform-locked :
      (q : QueuedStore S) (w : ModelWrite M) (j : String)
      → locked (perform q w).1.locks j ≡ (
          if (perform q w).0
          then not (str_eq (write_key w) j) && locked q.locks j
          else locked q.locks j)
  perform-locked q (upserts x) j =
      by_result q _ (store.upsert_model q.inner x) _ ((writes-ReleasesKey q).0 x) j
  perform-locked q (inserts x) j =
      by_result q _ (store.insert_model q.inner x) _ ((writes-ReleasesKey q).1 x) j
  perform-locked q (updates x expected) j =
      by_result q _ (store.update_model q.inner x expected) _ ((writes-ReleasesKey q).2 x expected)
        j
  perform-locked q (deletes id) j =
      by_result q _ (store.delete_model q.inner id) _ ((writes-ReleasesKey q).3 id) j
  perform-locked q (saves key bytes) j =
      by_result q _ (store.save q.inner key bytes) _ ((writes-ReleasesKey q).4 key bytes) j

  -- What `queued_get` does behind its lock.
  abbrev reads :
      QueuedStore S
      → String
      → Outcome ReadModelError (Unit {0}) × Locks
      → Answer (QueuedStore S) (Option (Versioned M))
  reads q id x = and_so (of_locks q x) (λ _ q'. of_inner q' (store.get q'.inner id))

  queued_get-free :
      (q : QueuedStore S) (id : String)
      → locked q.locks (key_of_id model store id) ≡ false
      → queued_get model store q id
        ≡ reads q id (
          ok tt,
          HashMap.insert
              (key_of_id model store id)
              true
              (get_lock q.locks (key_of_id model store id)),
        )
  unfolding queued_get lock_model
  queued_get-free q id h = ap (reads q id) (acquire_key-free q.locks (key_of_id model store id) h)

  queued_get-hangs :
      (q : QueuedStore S) (id : String)
      → locked q.locks (key_of_id model store id) ≡ true
      → (queued_get model store q id).0 ≡ hang
  unfolding queued_get lock_model
  queued_get-hangs q id h =
      ap (λ x. (reads q id x).0) (acquire_key-hangs q.locks (key_of_id model store id) h)

  -- A session keeps others out: a read of a model whose lock is free returns what the inner store
  -- returns, and from then on another read of it waits, until a write to its key succeeds, after which
  -- a read returns again what the inner store returns; while the write fails, reads go on waiting.
  pub model_session :
      (q : QueuedStore S) (id : String) (w : ModelWrite M)
      → locked q.locks (key_of_id model store id) ≡ false
      → write_key w ≡ key_of_id model store id
      → let (r, q₁) = queued_get model store q id in
        let (done, q₂) = perform q₁ w in
        (r ≡ (store.get q.inner id).0)
        × ((queued_get model store q₁ id).0 ≡ hang)
        × (done ≡ true → (queued_get model store q₂ id).0 ≡ (store.get q₂.inner id).0)
        × (done ≡ false → (queued_get model store q₂ id).0 ≡ hang)
  model_session q id w h k = rw (queued_get-free q id h) (
    refl,
    queued_get-hangs q₁ id held,
    λ d.
        ap (λ x. x.0)
          (queued_get-free (perform q₁ w).1 id
            (ground (arith, perform-locked q₁ w key, k, d, held, eq_iff (write_key w) key))),
    λ d.
        queued_get-hangs (perform q₁ w).1 id
          (ground (arith, perform-locked q₁ w key, k, d, held, eq_iff (write_key w) key)),
  )
    where
      key : String
      key = key_of_id model store id

      q₁ : QueuedStore S
      q₁ = (reads q id (ok tt, HashMap.insert key true (get_lock q.locks key))).1

      held : locked q₁.locks key ≡ true
      held = taken-locked q.locks key key ∙ ground (arith, eq_iff key key)
