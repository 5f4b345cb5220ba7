-- ===== src/QueuedRepo/Aggregates.antt =====
-- src/aggregate/aggregate.rs and src/snapshot/repository.rs over a queued repository: reads that take
-- no lock, and the release without a commit. The snapshots are those of the inner repository.
use sourced_rust.Prelude.{
  ℕ, String, Bool, false, Option, none, some, List, Outcome, ok, err, panic, hang, map_err, ◌>>=◌,
  ◌≡◌, refl, sym, ap, ◌∙◌, ◌&&◌, ◌||◌, not, str_eq, eq_iff, arith,
}
use sourced_rust.Repository.{RepositoryError, Repository}
use sourced_rust.Aggregate.{Aggregate, hydrate_option, hydrate_all, get_aggregate}
use sourced_rust.Snapshot.{Snapshottable, SnapshotOps, hydrate_with_optional_snapshot, hydrate_each}
use sourced_rust.Lock.{get_lock, locked}
use sourced_rust.Lock.Held.{get_lock-locked, unlock-locked, unlock-ok}
use sourced_rust.QueuedRepo.{
  Queued, unlock_entity, queued_get_one, queued_repository, get_with, get_all_with,
}
use sourced_rust.QueuedRepo.Holding.{taken-locked}
use sourced_rust.QueuedRepo.Releasing.{queued_get_one-free, queued_get_one-hangs}

-- `impl SnapshotStore for QueuedRepository`
unfoldable pub queued_snapshots : {S : Type 0} → SnapshotOps S → SnapshotOps (Queued S)
queued_snapshots store = record {
  get_snapshot = λ q id. let (r, s) = store.get_snapshot q.inner id in (r, record q { inner = s });
  save_snapshot = λ q snapshot.
      let (r, s) = store.save_snapshot q.inner snapshot in (r, record q { inner = s });
  delete_snapshot =
      λ q id. let (r, s) = store.delete_snapshot q.inner id in (r, record q { inner = s });
}

module _ {S A : Type 0} (repo : Repository S) (agg : Aggregate A) (fuel : ℕ) where
  unfoldable pub abort : Queued S → A → Outcome RepositoryError (Unit {0}) × Queued S
  unfolding unlock_entity
  abort q a = unlock_entity q (agg.entity a).id

  unfoldable pub get_aggregate_with :
      Queued S → ℕ → String → Bool → Outcome RepositoryError (Option A) × Queued S
  unfolding get_with hydrate_option
  get_aggregate_with q now id lock =
      let (r, q') = get_with repo q now id lock in (r >>= hydrate_option agg fuel now, q')

  unfoldable pub peek : Queued S → ℕ → String → Outcome RepositoryError (Option A) × Queued S
  unfolding get_aggregate_with
  peek q now id = get_aggregate_with q now id false

  unfoldable pub get_all_aggregates_with :
      Queued S → ℕ → List String → Bool → Outcome RepositoryError (List A) × Queued S
  unfolding get_all_with hydrate_all
  get_all_aggregates_with q now ids lock =
      let (r, q') = get_all_with repo q now ids lock in (r >>= hydrate_all agg fuel now, q')

  unfoldable pub peek_all : Queued S → ℕ → List String → Outcome RepositoryError (List A) × Queued S
  unfolding get_all_aggregates_with
  peek_all q now ids = get_all_aggregates_with q now ids false

module _ {S A Snap : Type 0} (repo : Repository S) (store : SnapshotOps S)
    (sn : Snapshottable A Snap) (fuel : ℕ) where
  unfoldable pub peek_snapshotted :
      Queued S → ℕ → String → Outcome RepositoryError (Option A) × Queued S
  unfolding get_with hydrate_with_optional_snapshot queued_snapshots
  peek_snapshotted q now id =
      let (r, q₁) = get_with repo q now id false in
      elim r [
        | ok none ↦ (ok none, q₁)
        | ok (some entity) ↦
            let (snapshot, q₂) = (queued_snapshots store).get_snapshot q₁ id in
            (
              (do
                found ← snapshot
                a ← hydrate_with_optional_snapshot sn fuel now entity found
                ok (some a)),
              q₂,
            )
        | err e ↦ (err e, q₁)
        | panic ↦ (panic, q₁)
        | hang ↦ (hang, q₁)
      ]

  unfoldable pub peek_all_snapshotted :
      Queued S → ℕ → List String → Outcome RepositoryError (List A) × Queued S
  unfolding get_all_with hydrate_each queued_snapshots
  peek_all_snapshotted q now ids =
      let (r, q₁) = get_all_with repo q now ids false in
      elim r [
        | ok es ↦ hydrate_each (queued_repository repo) (queued_snapshots store) sn fuel q₁ now es
        | err e ↦ (err e, q₁)
        | panic ↦ (panic, q₁)
        | hang ↦ (hang, q₁)
      ]

unlock_entity-frees :
    {S : Type 0} (q : Queued S) (id j : String)
    → ((unlock_entity q id).0 ≡ ok tt)
      × ((unlock_entity q id).1.inner ≡ q.inner)
      × (locked (unlock_entity q id).1.locks j ≡ (not (str_eq id j) && locked q.locks j))
unfolding unlock_entity
unlock_entity-frees q id j = (
  ap (map_err RepositoryError.lock) (unlock-ok (get_lock q.locks id) id),
  refl,
  ground (arith, unlock-locked (get_lock q.locks id) id j, get_lock-locked q.locks id j),
)

-- Where its lock is free, an aggregate is read by `get` and by `peek` alike, with the same effect on
-- the inner repository; `peek` leaves the locks as they are, while another `get` behind the first one
-- waits; and after `abort` of an aggregate with the identifier exactly the same locks are held as
-- before, with nothing committed.
pub peek-abort :
    {S A : Type 0} (repo : Repository S) (agg : Aggregate A) (fuel : ℕ) (q : Queued S)
    (now later : ℕ) (id : String) (a : A)
    → locked q.locks id ≡ false
    → (agg.entity a).id ≡ id
    → let (r, q₁) = get_aggregate (queued_repository repo) agg fuel q now id in
      let (p, q₂) = peek repo agg fuel q now id in
      let (u, q₃) = abort repo agg fuel q₁ a in
      (p ≡ r)
      × (q₂.inner ≡ q₁.inner)
      × (q₂.locks ≡ q.locks)
      × ((get_aggregate (queued_repository repo) agg fuel q₁ later id).0 ≡ hang)
      × (u ≡ ok tt)
      × (q₃.inner ≡ q₁.inner)
      × ((j : String) → locked q₃.locks j ≡ locked q.locks j)
unfolding get_aggregate peek abort queued_repository
peek-abort repo agg fuel q now later id a h named =
    let free = queued_get_one-free repo q now id h in
    let q₁ = (queued_get_one repo q now id).1 in
    let taken : (j : String) → locked q₁.locks j ≡ (str_eq id j || locked q.locks j) =
      λ j. ap (λ x. locked x.1.locks j) free ∙ taken-locked q.locks id j in
    (
      ap (λ x. x.0 >>= hydrate_option agg fuel now) (sym free),
      ap (λ x. x.1.inner) (sym free),
      refl,
      ap (λ r. r >>= hydrate_option agg fuel later)
          (queued_get_one-hangs repo q₁ later id (taken id ∙ ground (arith, eq_iff id id))),
      (unlock_entity-frees q₁ (agg.entity a).id id).0,
      refl,
      λ j.
          (unlock_entity-frees q₁ (agg.entity a).id j).2
          ∙ ground (arith, named, taken j, h, eq_iff id j),
    )
