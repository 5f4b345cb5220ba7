-- ===== src/QueuedRepo/Releasing.antt =====
-- src/queued_repo/repository.rs: which locks a commit releases, and a session of read and commit.
use sourced_rust.Prelude.{
  contains, ℕ, true, false, ◌&&◌, not, String, ◌≡◌, refl, ap, ◌∙◌, List, [], ◌∷◌, map, eq_iff,
  arith, Outcome, ok, err, panic, hang, is_ok, if◌then◌else◌,
}
use sourced_rust.Prelude.HashMap
use sourced_rust.Entity.{Entity}
use sourced_rust.Repository.{RepositoryError, Repository}
use sourced_rust.Lock.{Locks, get_lock, locked, unlock}
use sourced_rust.Lock.Held.{get_lock-locked, unlock-locked}
use sourced_rust.QueuedRepo.{
  Queued, go_on, with_inner, ensure_each, release_each, queued_get_one, queued_commit,
}
use sourced_rust.QueuedRepo.Holding.{acquire-free, acquire-hangs, taken-locked}

ensure_each-locked :
    (locks : Locks) (ids : List String) (j : String)
    → locked (ensure_each locks ids) j ≡ locked locks j
unfolding ensure_each
ensure_each-locked locks [] j = refl
ensure_each-locked locks (id ∷ ids) j =
    ensure_each-locked (get_lock locks id) ids j ∙ get_lock-locked locks id j

pub release_each-locked :
    (locks : Locks) (ids : List String) (j : String)
    → locked (release_each locks ids) j ≡ (not (contains j ids) && locked locks j)
unfolding release_each
release_each-locked locks [] j = refl
release_each-locked locks (id ∷ ids) j =
    ground (arith, release_each-locked (unlock locks id).1 ids j, unlock-locked locks id j)

abbrev pub ids_of : List Entity → List String
ids_of es = map (λ (e : Entity). e.id) es

-- What a call of the inner `commit` gives, and what the queued one gives.
abbrev pub Committing : Type 0 → Type 0
Committing T = Outcome RepositoryError (Unit {0}) × T × List Entity

module _ {S : Type 0} where
  -- The queued call returns what the inner one did, and releases the locks of `ids` on success alone.
  pub record Releases (q : Queued S) (ids : List String) (x : Committing S)
      (y : Committing (Queued S)) : Type 0 where
    pub result : y.0 ≡ x.0
    pub inner : y.1.inner ≡ x.1
    pub entities : y.2 ≡ x.2
    pub locks :
        (j : String)
        → locked y.1.locks j
          ≡ (if is_ok x.0 then not (contains j ids) && locked q.locks j else locked q.locks j)

  abbrev settle : Queued S → List String → Committing S → Committing (Queued S)
  settle q ids (r, s', es') =
      let ensured = ensure_each q.locks ids in
      elim r [
        | ok _ ↦ (ok tt, record { inner = s'; locks = release_each ensured ids }, es')
        | err e ↦ (err e, record { inner = s'; locks = ensured }, es')
        | panic ↦ (panic, record { inner = s'; locks = ensured }, es')
        | hang ↦ (hang, record { inner = s'; locks = ensured }, es')
      ]

  settle-Releases :
      (q : Queued S) (ids : List String) (x : Committing S) → Releases q ids x (settle q ids x)
  settle-Releases q ids (ok t, s', es') = record {
    result = refl;
    inner = refl;
    entities = refl;
    locks = λ j.
        release_each-locked (ensure_each q.locks ids) ids j
        ∙ ap (λ b. not (contains j ids) && b) (ensure_each-locked q.locks ids j);
  }
  settle-Releases q ids (err e, s', es') = record {
    result = refl;
    inner = refl;
    entities = refl;
    locks = ensure_each-locked q.locks ids;
  }
  settle-Releases q ids (panic, s', es') = record {
    result = refl;
    inner = refl;
    entities = refl;
    locks = ensure_each-locked q.locks ids;
  }
  settle-Releases q ids (hang, s', es') = record {
    result = refl;
    inner = refl;
    entities = refl;
    locks = ensure_each-locked q.locks ids;
  }

module _ {S : Type 0} (repo : Repository S) where
  -- `commit` does what the inner repository does, and on success releases exactly the locks of the
  -- committed entities; where the inner commit fails, the same locks are held as before.
  pub queued_commit-Releases :
      (q : Queued S) (es : List Entity)
      → Releases q (ids_of es) (repo.commit q.inner es) (queued_commit repo q es)
  unfolding queued_commit
  queued_commit-Releases q es = settle-Releases q (ids_of es) (repo.commit q.inner es)

  -- The state after the lock of `id` was taken and the inner repository was asked.
  pub queued_get_one-free :
      (q : Queued S) (now : ℕ) (id : String)
      → locked q.locks id ≡ false
      → queued_get_one repo q now id
        ≡ with_inner repo
            (record q { locks = HashMap.insert id true (get_lock q.locks id) })
            (repo.get_one q.inner now id)
  unfolding queued_get_one
  queued_get_one-free q now id h =
      ap
        (λ x.
          let q' = record q { locks = x.1 } in
          go_on repo x.0 q' (λ _. with_inner repo q' (repo.get_one q'.inner now id)))
        (acquire-free q.locks id h)

  pub queued_get_one-hangs :
      (q : Queued S) (now : ℕ) (id : String)
      → locked q.locks id ≡ true
      → (queued_get_one repo q now id).0 ≡ hang
  unfolding queued_get_one
  queued_get_one-hangs q now id h =
      ap
        (λ x.
          let q' = record q { locks = x.1 } in
          (go_on repo x.0 q' (λ _. with_inner repo q' (repo.get_one q'.inner now id))).0)
        (acquire-hangs q.locks id h)

  -- A session keeps others out: a read of an entity whose lock is free returns what the inner
  -- repository returns, and from then on another read of it waits, until a commit of the entity
  -- succeeds, after which its lock is free; while the commit fails, reads go on waiting.
  pub queued_session :
      (q : Queued S) (now later : ℕ) (e : Entity)
      → locked q.locks e.id ≡ false
      → let (r, q₁) = queued_get_one repo q now e.id in
        let (c, q₂, es) = queued_commit repo q₁ (e ∷ []) in
        (r ≡ (repo.get_one q.inner now e.id).0)
        × ((queued_get_one repo q₁ later e.id).0 ≡ hang)
        × (is_ok c ≡ true → locked q₂.locks e.id ≡ false)
        × (is_ok c ≡ false → (queued_get_one repo q₂ later e.id).0 ≡ hang)
  queued_session q now later e h = rw (queued_get_one-free q now e.id h) (
    refl,
    queued_get_one-hangs q₁ later e.id held,
    λ c. ground (arith, rel.locks e.id, ap is_ok rel.result, c, held, eq_iff e.id e.id),
    λ c.
        queued_get_one-hangs (queued_commit repo q₁ (e ∷ [])).1 later e.id
          (ground (arith, rel.locks e.id, ap is_ok rel.result, c, held, eq_iff e.id e.id)),
  )
    where
      q₁ : Queued S
      q₁ =
          (with_inner repo (record q { locks = HashMap.insert e.id true (get_lock q.locks e.id) })
            (repo.get_one q.inner now e.id)).1

      held : locked q₁.locks e.id ≡ true
      held = taken-locked q.locks e.id e.id ∙ ground (arith, eq_iff e.id e.id)

      rel : Releases q₁ (e.id ∷ []) (repo.commit q₁.inner (e ∷ [])) (queued_commit repo q₁ (e ∷ []))
      rel = queued_commit-Releases q₁ (e ∷ [])
