-- ===== src/CommitBuilder/Settling.antt =====
-- src/commit_builder/mod.rs: what a commit of a builder leaves in the repository, on every path.
use sourced_rust.Prelude.{
  true, false, String, List, [], ◌∷◌, ◌≡◌, ◌≢◌, Bool-cases, inl, inr, refl, ap, arith, Outcome, ok,
  err, panic, hang, is_ok,
}
use sourced_rust.Prelude.HashMap
use sourced_rust.Prelude.HashMap.{get-insert}
use sourced_rust.Entity.{Entity}
use sourced_rust.Repository.Display.{display_model}
use sourced_rust.Repository.{RepositoryError}
use sourced_rust.ReadModel.{poisoned_error}
use sourced_rust.HashMapRepo.{HashMapRepository}
use sourced_rust.HashMapRepo.Traits.{hashmap_repository}
use sourced_rust.CommitBuilder.{
  QueuedModel, Committed, hashmap_writer, write_models, commit_then_write,
}
use sourced_rust.CommitBuilder.Writing.{
  written, models_of, is_poisoned, after_write, write_models-Wrote, writer-poisoned,
}

-- What a builder's commit made of what the commit of its entities gave: that itself where it failed;
-- where it succeeded, the queued models are written in their order, or nothing is, and the entities
-- stay committed.
pub record Settled (models : List QueuedModel) (x y : Committed HashMapRepository) : Type 0 where
  pub failed : is_ok x.0 ≡ false → y ≡ x
  pub entities : y.2 ≡ x.2
  pub events : y.1.event_store ≡ x.1.event_store
  pub wrote :
      is_ok x.0 ≡ true
      → is_poisoned x.1 ≡ false
      → (y.0 ≡ ok tt)
        × ((key : String)
            → HashMap.get key (models_of y.1)
              ≡ written key models (HashMap.get key (models_of x.1)))
  pub refused :
      is_ok x.0 ≡ true
      → is_poisoned x.1 ≡ true
      → models ≢ []
      → (y.0 ≡ err (RepositoryError.model (display_model poisoned_error))) × (y.1 ≡ x.1)

-- Nothing is written, since the lock of the models is poisoned.
write_models-poisoned :
    (repo : HashMapRepository) (ms : List QueuedModel)
    → is_poisoned repo ≡ true
    → ms ≢ []
    → write_models hashmap_writer repo ms
      ≡ (err (RepositoryError.model (display_model poisoned_error)), repo)
unfolding write_models
write_models-poisoned repo [] h ne = absurd (ne refl)
write_models-poisoned repo (m ∷ ms) h ne = ap (after_write ms) (writer-poisoned repo m h)

write_models-events :
    (repo : HashMapRepository) (ms : List QueuedModel)
    → (write_models hashmap_writer repo ms).1.event_store ≡ repo.event_store
unfolding write_models
write_models-events repo [] = refl
write_models-events repo (m ∷ ms) = elim (Bool-cases (is_poisoned repo)) [
  | inl h ↦ ap (λ x. x.1.event_store) (ap (after_write ms) (writer-poisoned repo m h))
  | inr h ↦ (write_models-Wrote repo (m ∷ ms) h).events
]

-- What the builder does behind the commit of the entities.
abbrev after_commit : List QueuedModel → Committed HashMapRepository → Committed HashMapRepository
after_commit ms (r, s', es') = elim r [
  | ok _ ↦ let (r', s'') = write_models hashmap_writer s' ms in (r', s'', es')
  | err e ↦ (err e, s', es')
  | panic ↦ (panic, s', es')
  | hang ↦ (hang, s', es')
]

fails-Settled :
    (ms : List QueuedModel) (r : Outcome RepositoryError (Unit {0})) (repo : HashMapRepository)
    (es : List Entity)
    → is_ok r ≡ false
    → Settled ms (r, repo, es) (r, repo, es)
fails-Settled ms r repo es h = record {
  failed = λ _. refl;
  entities = refl;
  events = refl;
  wrote = λ k. absurd (ground (arith, h, k));
  refused = λ k. absurd (ground (arith, h, k));
}

after_commit-Settled :
    (ms : List QueuedModel) (x : Committed HashMapRepository) → Settled ms x (after_commit ms x)
after_commit-Settled ms (ok t, repo, es) = record {
  failed = λ f. cc f;
  entities = refl;
  events = write_models-events repo ms;
  wrote = λ _ h. let w = write_models-Wrote repo ms h in (w.result, w.models);
  refused =
      λ _ h ne. let eq = write_models-poisoned repo ms h ne in (ap (λ x. x.0) eq, ap (λ x. x.1) eq);
}
after_commit-Settled ms (err e, repo, es) = fails-Settled ms (err e) repo es refl
after_commit-Settled ms (panic, repo, es) = fails-Settled ms panic repo es refl
after_commit-Settled ms (hang, repo, es) = fails-Settled ms hang repo es refl

-- A commit of a builder on a `HashMapRepository`: where the commit of the entities fails, the answer
-- and the repository are those of that commit, and no model is written. Where it succeeds, the
-- stored events and the entities are those of that commit; if the lock of the models is not
-- poisoned, the answer is `Ok` and each key holds what the writes queued under it make of it, one
-- version for each; if it is poisoned and a model is queued, the answer is an error, while the
-- entities stay committed.
pub commit_then_write-Settled :
    (repo : HashMapRepository) (es : List Entity) (models : List QueuedModel)
    → Settled models
        (hashmap_repository.commit repo es)
        (commit_then_write hashmap_writer repo es models)
unfolding commit_then_write hashmap_writer
commit_then_write-Settled repo es models =
    after_commit-Settled models (hashmap_repository.commit repo es)
