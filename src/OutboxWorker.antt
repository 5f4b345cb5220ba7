-- ===== src/OutboxWorker.antt =====
-- src/outbox_worker/: the outbox operations of the in-memory repository (repository_ext.rs), the
-- worker on loaded messages (worker.rs), and the worker's thread (thread.rs).
pub mod Worker
pub mod Thread
pub mod Processing
pub mod Contents
pub mod Readable
pub mod Entries
pub mod Taking
pub mod Tracking
pub mod Claims
pub mod Claiming
pub mod Replacing
pub mod Finishing
pub mod Settling
pub mod Delivering
pub mod Turns
pub mod Drains
pub mod Draining
pub mod Moves
use sourced_rust.Prelude.{
  ℕ, ◌+◌, String, Bool, true, false, not, ◌&&◌, ◌||◌, Option, none, some, List, [], ◌∷◌, length,
  leb, ltb, ◌==◌, starts_with, if◌then◌else◌, Outcome, ok, err, panic, hang, ◌>>=◌, is_ok, take,
  wrap_u64,
}
use sourced_rust.Prelude.HashMap
use sourced_rust.Prelude.HashMap.{HashMap}
use sourced_rust.Bitcode.{Bytes}
use sourced_rust.Entity.{Entity, EventRecord, with_id, load_from_history, mark_committed}
use sourced_rust.Repository.{RepositoryError, lock_poisoned}
use sourced_rust.Aggregate.{hydrate}
use sourced_rust.HashMapRepo.{Storage, HashMapRepository, read_storage}
use sourced_rust.Outbox.{
  OutboxMessage, OutboxMessageStatus, pending, in_flight, published, failed, OutboxCodecs,
  claim_for, complete, release, fail, is_pending, is_in_flight, is_published, is_failed,
  normalize_id, outbox_aggregate, id_prefix,
}

-- `message.status == status`
abbrev pub has_status : OutboxMessageStatus → OutboxMessage → Bool
has_status pending m = is_pending m
has_status in_flight m = is_in_flight m
has_status published m = is_published m
has_status failed m = is_failed m

module _ (codecs : OutboxCodecs) where
  -- `Entity::with_id`, `load_from_history` and `hydrate`. A message has no upcasters, and `hydrate`
  -- needs no fuel.
  unfoldable pub load_message :
      ℕ → String → List EventRecord → Outcome RepositoryError OutboxMessage
  unfolding with_id load_from_history hydrate outbox_aggregate
  load_message now id events =
      hydrate (outbox_aggregate codecs) 0 now (load_from_history (with_id id now) events)

  unfoldable pub status_loop :
      ℕ → OutboxMessageStatus → Storage → Outcome RepositoryError (List OutboxMessage)
  unfolding load_message
  status_loop now status [] = ok []
  status_loop now status ((id, events) ∷ storage) =
      let rest = status_loop now status storage in
      if starts_with id id_prefix
      then (do
        m ← load_message now id events
        ms ← rest
        ok (if has_status status m then m ∷ ms else ms))
      else rest

  unfoldable pub outbox_messages_by_status :
      HashMapRepository → ℕ → OutboxMessageStatus → Outcome RepositoryError (List OutboxMessage)
  unfolding read_storage status_loop
  outbox_messages_by_status repo now status = do
    storage ← read_storage repo
    status_loop now status storage

  -- A message as its caller keeps it: `message.entity.mark_committed()`.
  abbrev pub committed : OutboxMessage → OutboxMessage
  committed m = record m { entity = mark_committed m.entity }

  -- The loop over the map: `claimed` messages were taken before, and the test of `max` stands at the
  -- end of the body, behind the `continue`. The result, the messages taken from here on, and the
  -- map as the loop leaves it, also where an error ends it.
  unfoldable pub claim_loop :
      ℕ → String → ℕ → ℕ → ℕ → Storage → Outcome RepositoryError (List OutboxMessage) × Storage
  unfolding load_message claim_for mark_committed
  claim_loop now worker lease max claimed [] = (ok [], [])
  claim_loop now worker lease max claimed ((id, events) ∷ storage) =
      let (skipped, skipped_storage) = claim_loop now worker lease max claimed storage in
      let (rest, rest_storage) = claim_loop now worker lease max (claimed + 1) storage in
      if starts_with id id_prefix
      then elim (load_message now id events) [
        | ok m ↦
            if is_pending m
            then (let m' = claim_for codecs m now worker lease in
                if leb max (claimed + 1)
                then (ok (committed m' ∷ []), (id, m'.entity.events) ∷ storage)
                else (
                  (rest >>= λ ms. ok (committed m' ∷ ms)),
                  (id, m'.entity.events) ∷ rest_storage,
                ))
            else if leb max claimed
            then (ok [], (id, events) ∷ storage)
            else (skipped, (id, events) ∷ skipped_storage)
        | err e ↦ (err e, (id, events) ∷ storage)
        | panic ↦ (panic, (id, events) ∷ storage)
        | hang ↦ (hang, (id, events) ∷ storage)
      ]
      else (skipped, (id, events) ∷ skipped_storage)

  -- The map behind the lock, after a call that held the write guard, and whether it panicked.
  abbrev pub with_storage : HashMapRepository → Storage → Bool → HashMapRepository
  with_storage repo storage panics = record repo {
    event_store = record { value = storage; poisoned = panics };
  }

  unfoldable pub claim_outbox_messages :
      HashMapRepository
      → ℕ
      → String
      → ℕ
      → ℕ
      → Outcome RepositoryError (List OutboxMessage) × HashMapRepository
  unfolding claim_loop
  claim_outbox_messages repo now worker max lease =
      if repo.event_store.poisoned
      then (err (lock_poisoned "write"), repo)
      else (let (r, storage) = claim_loop now worker lease max 0 repo.event_store.value in
          (r, with_storage repo storage (elim r [ panic ↦ true | _ ↦ false ])))

  -- The common part of the three calls below: they differ in the test and in the method. The
  -- events go back to the entry under the same key.
  unfoldable pub with_message :
      HashMapRepository
      → ℕ
      → String
      → (OutboxMessage → Bool)
      → (OutboxMessage → OutboxMessage)
      → Outcome RepositoryError (Unit {0}) × HashMapRepository
  unfolding load_message normalize_id
  with_message repo now message_id test method =
      let id = normalize_id message_id in
      if repo.event_store.poisoned
      then (err (lock_poisoned "write"), repo)
      else elim (HashMap.get id repo.event_store.value) [
        | none ↦ (ok tt, repo)
        | some events ↦ elim (load_message now id events) [
          | ok m ↦
              if test m
              then (
                ok tt,
                with_storage repo
                    (HashMap.insert id (method m).entity.events repo.event_store.value) false,
              )
              else (ok tt, repo)
          | err e ↦ (err e, repo)
          | panic ↦ (panic, with_storage repo repo.event_store.value true)
          | hang ↦ (hang, repo)
        ]
      ]

  unfoldable pub complete_outbox_message :
      HashMapRepository → ℕ → String → Outcome RepositoryError (Unit {0}) × HashMapRepository
  unfolding with_message complete
  complete_outbox_message repo now id =
      with_message repo now id is_in_flight (λ m. complete codecs m now)

  unfoldable pub release_outbox_message :
      HashMapRepository
      → ℕ
      → String
      → String
      → Outcome RepositoryError (Unit {0}) × HashMapRepository
  unfolding with_message release
  release_outbox_message repo now id error =
      with_message repo now id is_in_flight (λ m. release codecs m now error)

  unfoldable pub fail_outbox_message :
      HashMapRepository
      → ℕ
      → String
      → String
      → Outcome RepositoryError (Unit {0}) × HashMapRepository
  unfolding with_message fail
  fail_outbox_message repo now id error =
      with_message repo now id (λ m. true) (λ m. fail codecs m now error)
