-- ===== src/HashMapRepo/Numbering.antt =====
-- A session on the repository: read an entity, run commands on it, commit it, read it again.
use sourced_rust.Prelude.{
  ℕ, String, ◌≡◌, refl, sym, ap, subst, ◌∙◌, false, some, List, [], ◌∷◌, All, take-append,
  take-length, length-append, if_cases, str_eq, ok, arith, Bool-cases, inl, inr,
}
use sourced_rust.Prelude.HashMap
use sourced_rust.Prelude.HashMap.{get-insert}
use sourced_rust.Bitcode.{Codec}
use sourced_rust.Entity.{
  EventRecord, Entity, new, set_id, load_from_history, push_event, digest, digest_v, digest_empty,
  set_meta, set_metadata, clear_metadata, set_snapshot_version,
}
use sourced_rust.Entity.Commands.{
  Command, digests, digests_v, digests_empty, sets_id, marks_committed, step, run,
}
use sourced_rust.Entity.WellFormed.{IsNumbered, IsWellFormed, run-IsWellFormed}
use sourced_rust.HashMapRepo.{Storage, HashMapRepository, load, get_one, commit}
use sourced_rust.HashMapRepo.Committing.{Tracks, publish, with_storage, Committed, commit-Committed}

-- Every stored history is numbered 1, 2, 3, ….
pub record IsNumberedStore (storage : Storage) : Type 0 where
  pub at_id :
      (id : String) (events : List EventRecord)
      → HashMap.get id storage ≡ some events
      → IsNumbered 0 events

insert-IsNumberedStore :
    (storage : Storage) (id : String) (events : List EventRecord)
    → IsNumbered 0 events
    → IsNumberedStore storage
    → IsNumberedStore (HashMap.insert id events storage)
insert-IsNumberedStore storage id events n h = record {
  at_id = λ j xs e. elim (Bool-cases (str_eq id j)) [
    | inl same ↦ subst (IsNumbered 0) (ground (arith, get-insert id j events storage)) n
    | inr differs ↦ h.at_id j xs (ground (arith, get-insert id j events storage))
  ];
}

pub publish-IsNumberedStore :
    (storage : Storage) (es : List Entity)
    → All (λ e. IsNumbered 0 e.events) es
    → IsNumberedStore storage
    → IsNumberedStore (publish storage es)
unfolding publish
publish-IsNumberedStore storage [] ns h = h
publish-IsNumberedStore storage (e ∷ es) ns h =
    publish-IsNumberedStore (HashMap.insert e.id e.events storage) es ns.1
      (insert-IsNumberedStore storage e.id e.events ns.0 h)

load-Tracks :
    (storage : Storage) (now : ℕ) (id : String) (events : List EventRecord)
    → HashMap.get id storage ≡ some events
    → Tracks storage (load now id events)
unfolding load new set_id load_from_history
load-Tracks storage now id events h = record {
  stored = rw h (sym (take-length events));
  within = omega arith;
  counted = refl;
}

get_one-some :
    (repo : HashMapRepository) (now : ℕ) (id : String) (events : List EventRecord)
    → repo.event_store.poisoned ≡ false
    → HashMap.get id repo.event_store.value ≡ some events
    → get_one repo now id ≡ ok (some (load now id events))
unfolding get_one
get_one-some repo now id events p h = ground arith

-- The commands of a domain struct: all but the repository's own and a change of identifier.
abbrev pub IsEdit : {T : Type 0} → ℕ × Command T → Type 0
IsEdit (now, marks_committed) = ⊥
IsEdit (now, sets_id id) = ⊥
IsEdit (now, _) = Unit {0}

-- What an edit keeps.
record Extends (storage : Storage) (id : String) (e : Entity) : Type 0 where
  tracks : Tracks storage e
  same_id : e.id ≡ id

push_event-Extends :
    (storage : Storage) (id : String) (e : Entity) (r : EventRecord) (now : ℕ)
    → Extends storage id e
    → Extends storage id (push_event e r now)
unfolding push_event
push_event-Extends storage id e r now h = record {
  tracks = record {
    stored =
        h.tracks.stored ∙ sym (take-append e.committed_version e.events (r ∷ []) h.tracks.within);
    within = omega (arith, h.tracks.within, length-append e.events (r ∷ []));
    counted = omega (arith, length-append e.events (r ∷ []));
  };
  same_id = h.same_id;
}

module _ {T : Type 0} (codec : Codec T) (unit : Codec (Unit {0})) (storage : Storage)
    (id : String) where
  step-Extends :
      (e : Entity) (now : ℕ) (c : Command T)
      → IsEdit (now, c)
      → Extends storage id e
      → Extends storage id (step codec unit e now c)
  unfolding step digest digest_v digest_empty set_meta set_metadata clear_metadata
      set_snapshot_version
  step-Extends e now (digests name x) i h =
      if_cases (Extends storage id) e.replaying _ _ (λ _. h)
        (λ _. push_event-Extends storage id e _ now h)
  step-Extends e now (digests_v name v x) i h =
      if_cases (Extends storage id) e.replaying _ _ (λ _. h)
        (λ _. push_event-Extends storage id e _ now h)
  step-Extends e now (digests_empty name) i h =
      if_cases (Extends storage id) e.replaying _ _ (λ _. h)
        (λ _. push_event-Extends storage id e _ now h)
  step-Extends e now marks_committed i h = absurd i
  step-Extends e now (sets_id other) i h = absurd i
  step-Extends e now _ i h = record {
    tracks = record {
      stored = h.tracks.stored;
      within = h.tracks.within;
      counted = h.tracks.counted;
    };
    same_id = h.same_id;
  }

  run-Extends :
      (e : Entity) (cs : List (ℕ × Command T))
      → All IsEdit cs
      → Extends storage id e
      → Extends storage id (run codec unit e cs)
  unfolding run
  run-Extends e [] i h = h
  run-Extends e ((now, c) ∷ cs) i h =
      run-Extends (step codec unit e now c) cs i.1 (step-Extends e now c i.0 h)

-- A session on an entity that tracks the store, loaded from it or new: after any edits `commit`
-- succeeds, a read then returns an entity with all of the events, the old ones and the new ones,
-- and if every stored history and the entity's own was numbered 1, 2, 3, … then it still is.
pub session :
    {T : Type 0} (codec : Codec T) (unit : Codec (Unit {0})) (repo : HashMapRepository) (e : Entity)
    (cs : List (ℕ × Command T)) (now : ℕ)
    → repo.event_store.poisoned ≡ false
    → Tracks repo.event_store.value e
    → All IsEdit cs
    → let edited = run codec unit e cs in
      let (r, repo', es) = commit repo (edited ∷ []) in
      (r ≡ ok tt)
      × (get_one repo' now e.id ≡ ok (some (load now e.id edited.events)))
      × (IsNumberedStore repo.event_store.value
          → IsWellFormed e
          → IsNumberedStore repo'.event_store.value)
session codec unit repo e cs now p t edits = rw done.result (refl, reads, numbered)
  where
    storage : Storage
    storage = repo.event_store.value

    edited : Entity
    edited = run codec unit e cs

    ext : Extends storage e.id edited
    ext = run-Extends codec unit storage e.id e cs edits (record { tracks = t; same_id = refl })

    done : Committed repo (edited ∷ [])
    done = commit-Committed repo (edited ∷ []) p (ext.tracks, tt) (tt, tt)

    held : HashMap.get e.id (publish storage (edited ∷ [])) ≡ some edited.events
    held = ap (λ id. HashMap.get id (publish storage (edited ∷ []))) (sym ext.same_id) ∙ done.held.0

    reads :
        get_one (with_storage repo (publish storage (edited ∷ []))) now e.id
        ≡ ok (some (load now e.id edited.events))
    reads = get_one-some _ now e.id edited.events refl held

    numbered :
        IsNumberedStore storage → IsWellFormed e → IsNumberedStore (publish storage (edited ∷ []))
    numbered n w =
        publish-IsNumberedStore storage (edited ∷ [])
          ((run-IsWellFormed codec unit e cs w).numbered, tt) n
