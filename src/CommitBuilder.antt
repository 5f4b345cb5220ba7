-- ===== src/CommitBuilder.antt =====
-- src/commit_builder/mod.rs: read models, outbox messages and an aggregate, put together for one commit.
pub mod Writing
pub mod Settling
use sourced_rust.Prelude.{
  String, List, [], ◌∷◌, ◌++◌, is_empty, if◌then◌else◌, Outcome, ok, err, panic, hang, map_err,
}
use sourced_rust.Bitcode.{Bytes}
use sourced_rust.Entity.{Entity}
use sourced_rust.Repository.Display.{display_model}
use sourced_rust.Repository.{RepositoryError, ReadModelError, Repository}
use sourced_rust.ReadModel.{ReadModel, make_key, upsert_raw}
use sourced_rust.HashMapRepo.{HashMapRepository}
use sourced_rust.HashMapRepo.Traits.{hashmap_repository, on_models}
use sourced_rust.Aggregate.{Aggregate}
use sourced_rust.Outbox.{OutboxMessage}

-- What the builder asks of a repository: `Commit`, and `upsert_raw` of `ReadModelStore`.
pub record Writer (S : Type 0) : Type 0 where
  pub repository : Repository S
  pub upsert_raw : S → String → Bytes → Outcome ReadModelError (Unit {0}) × S

unfoldable pub hashmap_writer : Writer HashMapRepository
unfolding hashmap_repository upsert_raw
hashmap_writer = record {
  repository = hashmap_repository;
  upsert_raw = λ repo key bytes. on_models repo (λ s. upsert_raw s key bytes);
}

pub record QueuedModel : Type 0 where
  pub key : String
  pub bytes : Bytes

pub record CommitBuilder : Type 0 where
  pub entities : List Entity
  pub models : List QueuedModel

abbrev pub new_builder : CommitBuilder
new_builder = record { entities = []; models = [] }

-- `expect`: a model that cannot be serialized is a panic.
unfoldable pub readmodel :
    {M : Type 0} → ReadModel M → CommitBuilder → M → Outcome RepositoryError CommitBuilder
unfolding make_key
readmodel model b x = elim (model.to_vec x) [
  | ok bytes ↦ ok (record b {
    models =
        b.models ++ record { key = make_key model.collection (model.id x); bytes = bytes } ∷ [];
  })
  | err e ↦ panic
  | panic ↦ panic
  | hang ↦ hang
]

unfoldable pub outbox : CommitBuilder → OutboxMessage → CommitBuilder
outbox b m = record b { entities = b.entities ++ m.entity ∷ [] }

-- What a commit returns: its result, the state, and the entities.
abbrev pub Committed : Type 0 → Type 0
Committed S = Outcome RepositoryError (Unit {0}) × S × List Entity

module _ {S : Type 0} (writer : Writer S) where
  -- The loop over the queued models; the first error ends it.
  unfoldable pub write_models : S → List QueuedModel → Outcome RepositoryError (Unit {0}) × S
  write_models s [] = (ok tt, s)
  write_models s (m ∷ ms) =
      let (r, s') = writer.upsert_raw s m.key m.bytes in
      let later = write_models s' ms in
      elim r [
        | ok _ ↦ later
        | err e ↦ (err (RepositoryError.model (display_model e)), s')
        | panic ↦ (panic, s')
        | hang ↦ (hang, s')
      ]

  -- `self.repo.commit(..)?` and the writes behind it.
  unfoldable pub commit_then_write : S → List Entity → List QueuedModel → Committed S
  unfolding write_models
  commit_then_write s es models =
      let (r, s', es') = writer.repository.commit s es in
      elim r [
        | ok _ ↦ let (r', s'') = write_models s' models in (r', s'', es')
        | err e ↦ (err e, s', es')
        | panic ↦ (panic, s', es')
        | hang ↦ (hang, s', es')
      ]

  -- The entity of the aggregate stands last.
  abbrev put_last : {A : Type 0} → Aggregate A → A → List Entity → A
  put_last agg a [] = a
  put_last agg a (e ∷ []) = agg.set_entity a e
  put_last agg a (e ∷ e' ∷ es) = put_last agg a (e' ∷ es)

  unfoldable pub builder_commit :
      {A : Type 0}
      → Aggregate A
      → S
      → CommitBuilder
      → A
      → Outcome RepositoryError (Unit {0}) × S × A
  unfolding commit_then_write
  builder_commit agg s b a =
      let (r, s', es) = commit_then_write s (b.entities ++ agg.entity a ∷ []) b.models in
      (r, s', put_last agg a es)

  unfoldable pub builder_commit_many : S → CommitBuilder → List Entity → Committed S
  unfolding commit_then_write
  builder_commit_many s b es = commit_then_write s (b.entities ++ es) b.models

  unfoldable pub builder_commit_all : S → CommitBuilder → Committed S
  unfolding commit_then_write write_models
  builder_commit_all s b =
      if is_empty b.entities
      then (let (r, s') = write_models s b.models in (r, s', []))
      else commit_then_write s b.entities b.models
