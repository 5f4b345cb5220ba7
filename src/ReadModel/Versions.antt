-- ===== src/ReadModel/Versions.antt =====
-- src/read_model/in_memory.rs: what `upsert`, `insert` and `update` promise about versions.
use sourced_rust.Prelude.{
  ℕ, ◌+◌, ◌<◌, ◌^◌, String, ◌≡◌, ◌≢◌, refl, ap, ◌∙◌, false, Option, none, some, ◌==◌, wrap_u64, ok,
  err, Option-cases, Bool-cases, arith, inl, inr,
}
use sourced_rust.Prelude.HashMap
use sourced_rust.Prelude.HashMap.{get-insert, get-insert_self, get-insert_ne}
use sourced_rust.Bitcode.{Bytes}
use sourced_rust.Repository.{ReadModelError, concurrency_conflict, not_found}
use sourced_rust.ReadModel.{
  ReadModel, Versioned, InMemoryReadModelStore, Write, make_key, access, put_model, next_version,
  read_stored, get_model, prepare, upsert, insert, update,
}

pub data WriteOp (M : Type 0) : Type 0 where
  upserts inserts : M → WriteOp M
  updates : M → ℕ → WriteOp M

abbrev pub subject : {M : Type 0} → WriteOp M → M
subject (upserts x) = x
subject (inserts x) = x
subject (updates x expected) = x

-- The version that a client sees, if the model is there.
abbrev pub version_at : InMemoryReadModelStore → String → Option ℕ
version_at s key = elim (HashMap.get key s.storage.value) [
  | none ↦ none
  | some stored ↦ some stored.version
]

-- When a write goes through: always, where nothing is stored, or where the expected version is.
abbrev pub Admits : {M : Type 0} → Option ℕ → WriteOp M → Type 0
Admits current (upserts x) = Unit {0}
Admits current (inserts x) = current ≡ none
Admits current (updates x expected) = current ≡ some expected

-- The version that it leaves.
abbrev pub version_after : {M : Type 0} → Option ℕ → WriteOp M → ℕ
version_after none op = 1
version_after (some v) op = wrap_u64 (v + 1)

-- The error of a write that does not go through.
abbrev pub refusal : {M : Type 0} → ReadModel M → Option ℕ → WriteOp M → ReadModelError
refusal model none op = not_found model.collection (model.id (subject op))
refusal model (some v) (updates x expected) =
    concurrency_conflict model.collection (model.id x) expected v
refusal model (some v) op = concurrency_conflict model.collection (model.id (subject op)) 0 v

module _ {M : Type 0} (model : ReadModel M) where
  pub write : InMemoryReadModelStore → WriteOp M → Write (Versioned M)
  write s (upserts x) = upsert model s x
  write s (inserts x) = insert model s x
  write s (updates x expected) = update model s x expected

  abbrev pub key : WriteOp M → String
  key op = make_key model.collection (model.id (subject op))

  abbrev pub after_write : InMemoryReadModelStore → WriteOp M → Bytes → InMemoryReadModelStore
  after_write s op bytes = put_model s (key op) bytes (version_after (version_at s (key op)) op)

  module _ (s : InMemoryReadModelStore) (op : WriteOp M) (bytes : Bytes)
      (open_lock : s.storage.poisoned ≡ false) (json : model.to_vec (subject op) ≡ ok bytes) where
    prepare-ok : prepare model s (subject op) ≡ ok (bytes, s.storage.value)
    unfolding prepare access
    prepare-ok = ground arith

  write_admitted :
      (s : InMemoryReadModelStore) (op : WriteOp M) (bytes : Bytes)
      → s.storage.poisoned ≡ false
      → model.to_vec (subject op) ≡ ok bytes
      → Admits (version_at s (key op)) op
      → write s op ≡ (
        ok (record { content = subject op; version = version_after (version_at s (key op)) op }),
        after_write s op bytes,
      )
  unfolding write upsert insert update next_version
  write_admitted s (upserts x) bytes p j a = ground (arith, prepare-ok s (upserts x) bytes p j)
  write_admitted s (inserts x) bytes p j a = ground (arith, prepare-ok s (inserts x) bytes p j)
  write_admitted s (updates x n) bytes p j a = ground (arith, prepare-ok s (updates x n) bytes p j)

  write_refused :
      (s : InMemoryReadModelStore) (op : WriteOp M) (bytes : Bytes)
      → s.storage.poisoned ≡ false
      → model.to_vec (subject op) ≡ ok bytes
      → ¬ Admits (version_at s (key op)) op
      → write s op ≡ (err (refusal model (version_at s (key op)) op), s)
  unfolding write upsert insert update
  write_refused s (upserts x) bytes p j a = absurd (a tt)
  write_refused s (inserts x) bytes p j a =
      elim (Option-cases (HashMap.get (key (inserts x)) s.storage.value)) [
        | inl e ↦ absurd (a (rw (e, version_at) refl))
        | inr (stored, e) ↦ ground (arith, prepare-ok s (inserts x) bytes p j)
      ]
  write_refused s (updates x n) bytes p j a =
      elim (Option-cases (HashMap.get (key (updates x n)) s.storage.value)) [
        | inl e ↦ ground (arith, prepare-ok s (updates x n) bytes p j)
        | inr (stored, e) ↦ elim (Bool-cases (stored.version == n)) [
          | inl same ↦ absurd (a (rw (e, version_at) (ground arith)))
          | inr differs ↦ ground (arith, prepare-ok s (updates x n) bytes p j)
        ]
      ]

  get_model-put_model :
      (s : InMemoryReadModelStore) (x : M) (bytes : Bytes) (v : ℕ)
      → s.storage.poisoned ≡ false
      → model.from_slice bytes ≡ ok x
      → get_model model (put_model s (make_key model.collection (model.id x)) bytes v) (model.id x)
        ≡ ok (some (record { content = x; version = v }))
  unfolding get_model put_model access read_stored
  get_model-put_model s x bytes v p j = ground (
    arith,
    get-insert_self (make_key model.collection (model.id x)) (record { bytes = bytes; version = v })
        s.storage.value,
  )

  -- What a write leaves behind in both cases.
  pub record Written (s : InMemoryReadModelStore) (op : WriteOp M) (bytes : Bytes) : Type 0 where
    pub admitted :
        Admits (version_at s (key op)) op
        → let v : Versioned M = record {
          content = subject op;
          version = version_after (version_at s (key op)) op;
        } in
          (write s op ≡ (ok v, after_write s op bytes))
          × (get_model model (after_write s op bytes) (model.id (subject op)) ≡ ok (some v))
    pub refused :
        ¬ Admits (version_at s (key op)) op
        → write s op ≡ (err (refusal model (version_at s (key op)) op), s)

  -- If the store's lock is not poisoned, the model serializes to `bytes`, and the bytes read back as
  -- the model, then: an `upsert` always goes through, an `insert` exactly where nothing is stored,
  -- and an `update` exactly where the expected version is stored. What goes through has version 1
  -- or the next version, and is what `get_model` then returns. What does not leaves the store as it
  -- was, with the conflict or the missing model as the error.
  pub write-Written :
      (s : InMemoryReadModelStore) (op : WriteOp M) (bytes : Bytes)
      → s.storage.poisoned ≡ false
      → model.to_vec (subject op) ≡ ok bytes
      → model.from_slice bytes ≡ ok (subject op)
      → Written s op bytes
  write-Written s op bytes p to from = record {
    admitted =
        λ a. (write_admitted s op bytes p to a, get_model-put_model s (subject op) bytes _ p from);
    refused = λ a. write_refused s op bytes p to a;
  }

  version_at-put_model :
      (s : InMemoryReadModelStore) (k : String) (bytes : Bytes) (v : ℕ)
      → version_at (put_model s k bytes v) k ≡ some v
  unfolding put_model
  version_at-put_model s k bytes v =
      ground (arith, get-insert_self k (record { bytes = bytes; version = v }) s.storage.value)

  poisoned-put_model :
      (s : InMemoryReadModelStore) (k : String) (bytes : Bytes) (v : ℕ)
      → (put_model s k bytes v).storage.poisoned ≡ s.storage.poisoned
  unfolding put_model
  poisoned-put_model s k bytes v = refl

  -- An update is refused where another version is stored.
  update_refused :
      (s : InMemoryReadModelStore) (y : M) (n v : ℕ) (bytes : Bytes)
      → s.storage.poisoned ≡ false
      → model.to_vec y ≡ ok bytes
      → version_at s (key (updates y n)) ≡ some v
      → v ≢ n
      → update model s y n ≡ (err (concurrency_conflict model.collection (model.id y) n v), s)
  unfolding write
  update_refused s y n v bytes p j e ne =
      write_refused s (updates y n) bytes p j (λ a. ne (ground (arith, a, e)))
      ∙ ap (λ current. (err (refusal model current (updates y n)), s)) e

  -- No lost update: of two writers that read the same version of a model, the second `update` is
  -- refused, with the version that it expected and the version that the first one left, and
  -- changes nothing. (At version 2^64 - 1 a release build would wrap around.)
  update_stale :
      (s : InMemoryReadModelStore) (x y : M) (n : ℕ) (bytes bytes' : Bytes)
      → s.storage.poisoned ≡ false
      → model.id y ≡ model.id x
      → model.to_vec x ≡ ok bytes
      → model.to_vec y ≡ ok bytes'
      → version_at s (key (updates x n)) ≡ some n
      → n + 1 < 2 ^ 64
      → let s' = (update model s x n).1 in
        update model s' y n
        ≡ (err (concurrency_conflict model.collection (model.id y) n (n + 1)), s')
  unfolding write
  update_stale s x y n bytes bytes' p same jx jy v small =
      rw (write_admitted s (updates x n) bytes p jx v) (
        update_refused s₁ y n (n + 1) bytes' (poisoned-put_model s _ bytes _ ∙ p) jy stored
          (omega arith))
    where
      s₁ : InMemoryReadModelStore
      s₁ = after_write s (updates x n) bytes

      stored : version_at s₁ (key (updates y n)) ≡ some (n + 1)
      stored =
          ap (λ i. version_at s₁ (make_key model.collection i)) same
          ∙ version_at-put_model s (key (updates x n)) bytes _
          ∙ ap (λ current. some (version_after current (updates x n))) v
          ∙ ap some (omega arith)
