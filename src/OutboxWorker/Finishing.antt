-- ===== src/OutboxWorker/Finishing.antt =====
-- src/outbox_worker/repository_ext.rs: a message in flight that is completed or released.
use sourced_rust.Prelude.{
  ℕ, inl, inr, ◌≡◌, refl, ap, sym, subst, ◌∙◌, String, true, false, List, if_true, if_false,
  Outcome, ok,
}
use sourced_rust.Prelude.HashMap
use sourced_rust.Prelude.HashMap.{IsMap, insert-IsMap}
use sourced_rust.Entity.{EventRecord, set_id, new, load_from_history}
use sourced_rust.Repository.{RepositoryError}
use sourced_rust.HashMapRepo.{HashMapRepository, Storage, load}
use sourced_rust.Outbox.{
  OutboxMessage, OutboxMessageStatus, pending, in_flight, published, OutboxCodecs, complete,
  release, is_in_flight,
}
use sourced_rust.Outbox.Machine.{OutboxCommand, completes, releases, outbox_step}
use sourced_rust.Outbox.Recording.{AreLossless, outbox_step-Does}
use sourced_rust.Outbox.Replay.{step-Replays}
use sourced_rust.OutboxWorker.{
  with_storage, with_message, complete_outbox_message, release_outbox_message,
}
use sourced_rust.OutboxWorker.Readable.{IsReadable, IsOutboxStore, found, load_message-found}
use sourced_rust.OutboxWorker.Contents.{Content, content}
use sourced_rust.OutboxWorker.Replacing.{insert-Replaced}
use sourced_rust.OutboxWorker.Entries.{FliesAt, FliesAt-Flying, Replaced}

module _ (codecs : OutboxCodecs) (lossless : AreLossless codecs) (now : ℕ) where
  outbox_step-id :
      (m : OutboxMessage) (c : OutboxCommand)
      → m.entity.replaying ≡ false
      → (outbox_step codecs m now c).entity.id ≡ m.entity.id
  outbox_step-id m c h = elim (outbox_step-Does codecs lossless m now h c) [
    | inl idle ↦ ap (λ x. x.entity.id) idle
    | inr (r, rec) ↦ rec.id
  ]

  -- The command takes a message in flight to the status `s`, and leaves what it carries.
  abbrev MovesTo : OutboxCommand → OutboxMessageStatus → Type 0
  MovesTo c s =
      (m : OutboxMessage)
      → m.status ≡ in_flight
      → m.entity.replaying ≡ false
      → ((outbox_step codecs m now c).status ≡ s)
        × (content (outbox_step codecs m now c) ≡ content m)

  same_content :
      (m m' : OutboxMessage) (i : String)
      → content m' ≡ record {
        id = i;
        event_type = m.event_type;
        payload = m.payload;
        destination = m.destination;
        metadata = m.metadata;
      }
      → m'.entity.id ≡ m.entity.id
      → content m' ≡ content m
  same_content m m' i e same =
      e
      ∙ ap
          (λ j. record {
            id = j;
            event_type = m.event_type;
            payload = m.payload;
            destination = m.destination;
            metadata = m.metadata;
          })
          (sym (ap (λ x. x.id) e) ∙ same)

  completes-MovesTo : MovesTo completes published
  unfolding outbox_step complete
  completes-MovesTo m e q =
      let go = if_true (is_in_flight m) _ m (rw e) in
      (
        ap (λ x. x.status) go,
        same_content m (outbox_step codecs m now completes) _ (ap content go)
            (outbox_step-id m completes q),
      )

  releases-MovesTo : (error : String) → MovesTo (releases error) pending
  unfolding outbox_step release
  releases-MovesTo error m e q =
      let go = if_true (is_in_flight m) _ m (rw e) in
      (
        ap (λ x. x.status) go,
        same_content m (outbox_step codecs m now (releases error)) _ (ap content go)
            (outbox_step-id m (releases error) q),
      )

  unfoldable moved_readable :
      {id : String} {events : List EventRecord} (c : OutboxCommand)
      (r : IsReadable codecs id events)
      → IsReadable codecs id (outbox_step codecs (found codecs r now) now c).entity.events
  unfolding load set_id load_from_history new
  moved_readable c r = record {
    message = outbox_step codecs (found codecs r now) now c;
    same_id = outbox_step-id (found codecs r now) c refl ∙ r.same_id;
    same_events = refl;
    replays = λ e later k i.
        step-Replays codecs lossless e later k (found codecs r now) now c
          (refl, (r.replays e later k i).1);
  }

  -- The message that carries `c` went to the status `s`, and nothing else changed.
  pub record Finishes (storage : Storage) (h : IsOutboxStore codecs storage) (c : Content)
      (s : OutboxMessageStatus) (result : Outcome RepositoryError (Unit {0}) × HashMapRepository)
      : Type 0 where
    pub succeeds : result.0 ≡ ok tt
    pub unlocked : result.1.event_store.poisoned ≡ false
    pub distinct : IsMap result.1.event_store.value
    pub message : OutboxMessage
    pub moved : message.status ≡ s
    pub carries : content message ≡ c
    pub replaced : Replaced codecs storage h c.id message result.1.event_store.value

  module _ (repo : HashMapRepository) (carried : Content)
      (open_lock : repo.event_store.poisoned ≡ false) (distinct : IsMap repo.event_store.value)
      (h : IsOutboxStore codecs repo.event_store.value)
      (f : FliesAt codecs repo.event_store.value h carried) where
    with_message-Finishes :
        (c : OutboxCommand) (s : OutboxMessageStatus)
        → MovesTo c s
        → Finishes repo.event_store.value h carried s
            (with_message codecs repo now carried.id is_in_flight (λ m. outbox_step codecs m now c))
    unfolding with_message moved_readable load set_id load_from_history new
    with_message-Finishes c s move =
        let x = FliesAt-Flying codecs repo.event_store.value h carried f in
        let flies : is_in_flight (found codecs x.readable now) ≡ true = rw x.flies in
        let m = outbox_step codecs (found codecs x.readable now) now c in
        let whole : with_message codecs repo now carried.id is_in_flight
              (λ m. outbox_step codecs m now c)
            ≡ (
              ok tt,
              with_storage codecs repo
                  (HashMap.insert carried.id m.entity.events repo.event_store.value) false,
            ) =
          if_false repo.event_store.poisoned _ _ open_lock
          ∙ rw
              (
                x.prefix,
                x.found_at,
                x.prefix,
                load_message-found codecs now carried.id x.events x.readable,
              )
              (if_true (is_in_flight (found codecs x.readable now)) _ _ flies ∙ rw x.prefix) in
        subst (Finishes repo.event_store.value h carried s) (sym whole) (record {
          succeeds = refl;
          unlocked = refl;
          distinct = insert-IsMap carried.id m.entity.events repo.event_store.value distinct;
          message = m;
          moved = (move (found codecs x.readable now) x.flies refl).0;
          carries = (move (found codecs x.readable now) x.flies refl).1 ∙ x.carries;
          replaced =
              insert-Replaced codecs carried m.entity.events (moved_readable c x.readable)
                repo.event_store.value h f;
        })

    pub complete-Finishes :
        Finishes repo.event_store.value h carried published
          (complete_outbox_message codecs repo now carried.id)
    unfolding complete_outbox_message outbox_step
    complete-Finishes = with_message-Finishes completes published completes-MovesTo

    pub release-Finishes :
        (error : String)
        → Finishes repo.event_store.value h carried pending
            (release_outbox_message codecs repo now carried.id error)
    unfolding release_outbox_message outbox_step
    release-Finishes error = with_message-Finishes (releases error) pending (releases-MovesTo error)
