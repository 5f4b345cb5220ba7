-- ===== src/HashMapRepo/Committing.antt =====
-- src/hashmap_repo/repository.rs: `commit` against its specification: all or nothing, and no lost
-- update.
use sourced_rust.Prelude.{
  ◌≤◌, ◌<◌, String, ◌≡◌, ◌≢◌, refl, sym, ap, ◌∙◌, true, false, none, some, List, [], ◌∷◌, ◌++◌, map,
  All, length, take, drop, take-append-drop, length-take, take-length, unwrap_or, ok, err, arith,
}
use sourced_rust.Prelude.HashMap
use sourced_rust.Prelude.HashMap.{get-insert_self, get-insert_ne}
use sourced_rust.Entity.{EventRecord, Entity, mark_committed}
use sourced_rust.Entity.WellFormed.{new_events_lem}
use sourced_rust.Repository.{concurrent_write}
use sourced_rust.HashMapRepo.{Storage, HashMapRepository, stored_len, validate, append_all, commit}

-- What is stored for an identifier, the empty history where nothing is.
abbrev pub history : Storage → String → List EventRecord
history storage id = unwrap_or (HashMap.get id storage) []

-- An entity that was loaded from the store, or is new there, and got more events since.
pub record Tracks (storage : Storage) (e : Entity) : Type 0 where
  pub stored : history storage e.id ≡ take e.committed_version e.events
  pub within : e.committed_version ≤ length e.events
  pub counted : e.version ≡ length e.events

abbrev pub Distinct : List Entity → Type 0
Distinct [] = Unit
Distinct (e ∷ es) = All (λ other. e.id ≢ other.id) es × Distinct es

-- The store that holds the events of each entity under its identifier.
unfoldable pub publish : Storage → List Entity → Storage
publish storage [] = storage
publish storage (e ∷ es) = publish (HashMap.insert e.id e.events storage) es

pub stored_len-history :
    (storage : Storage) (id : String) → stored_len storage id ≡ length (history storage id)
unfolding stored_len
stored_len-history storage id = ground arith

pub Tracks-stored_len :
    (storage : Storage) (e : Entity)
    → Tracks storage e
    → stored_len storage e.id ≡ e.committed_version
Tracks-stored_len storage e t =
    stored_len-history storage e.id
    ∙ ap length t.stored
    ∙ length-take e.committed_version e.events t.within

Tracks-insert :
    (storage : Storage) (e other : Entity)
    → e.id ≢ other.id
    → Tracks storage other
    → Tracks (HashMap.insert e.id e.events storage) other
Tracks-insert storage e other ne t = record {
  stored = ap (λ o. unwrap_or o []) (get-insert_ne e.id other.id e.events storage ne) ∙ t.stored;
  within = t.within;
  counted = t.counted;
}

All-Tracks-insert :
    (storage : Storage) (e : Entity) (es : List Entity)
    → All (λ other. e.id ≢ other.id) es
    → All (Tracks storage) es
    → All (Tracks (HashMap.insert e.id e.events storage)) es
All-Tracks-insert storage e [] ne ts = tt
All-Tracks-insert storage e (other ∷ es) ne ts =
    (Tracks-insert storage e other ne.0 ts.0, All-Tracks-insert storage e es ne.1 ts.1)

pub validate-none :
    (storage : Storage) (es : List Entity) → All (Tracks storage) es → validate storage es ≡ none
unfolding validate
validate-none storage [] ts = refl
validate-none storage (e ∷ es) ts =
    ground (arith, Tracks-stored_len storage e ts.0, validate-none storage es ts.1)

-- What phase 2 writes for one entity is all of its events.
pub history-append :
    (storage : Storage) (e : Entity)
    → Tracks storage e
    → history storage e.id ++ drop e.committed_version e.events ≡ e.events
history-append storage e t =
    ap (λ xs. xs ++ drop e.committed_version e.events) t.stored
    ∙ take-append-drop e.committed_version e.events

append_all-publish :
    (storage : Storage) (es : List Entity)
    → All (Tracks storage) es
    → Distinct es
    → append_all storage es ≡ (true, publish storage es, map mark_committed es)
unfolding append_all publish
append_all-publish storage [] ts d = refl
append_all-publish storage (e ∷ es) ts d =
    rw (new_events_lem e ts.0.within, append_all)
      (rw (history-append storage e ts.0) (
        rw
          (append_all-publish (HashMap.insert e.id e.events storage) es
            (All-Tracks-insert storage e es d.0 ts.1) d.1)
          refl))

publish-other :
    (storage : Storage) (es : List Entity) (id : String)
    → All (λ e. e.id ≢ id) es
    → HashMap.get id (publish storage es) ≡ HashMap.get id storage
unfolding publish
publish-other storage [] id ne = refl
publish-other storage (e ∷ es) id ne =
    publish-other (HashMap.insert e.id e.events storage) es id ne.1
    ∙ get-insert_ne e.id id e.events storage ne.0

All-ne-sym :
    (id : String) (es : List Entity)
    → All (λ other. id ≢ other.id) es
    → All (λ other. other.id ≢ id) es
All-ne-sym id [] h = tt
All-ne-sym id (e ∷ es) h = ((λ p. h.0 (sym p)), All-ne-sym id es h.1)

abbrev pub Holds : Storage → Entity → Type 0
Holds storage e = HashMap.get e.id storage ≡ some e.events

publish-Holds :
    (storage : Storage) (es : List Entity) → Distinct es → All (Holds (publish storage es)) es
unfolding publish
publish-Holds storage [] d = tt
publish-Holds storage (e ∷ es) d = (
  publish-other (HashMap.insert e.id e.events storage) es e.id (All-ne-sym e.id es d.0)
      ∙ get-insert_self e.id e.events storage,
  publish-Holds (HashMap.insert e.id e.events storage) es d.1,
)

abbrev pub with_storage : HashMapRepository → Storage → HashMapRepository
with_storage repo storage = record repo {
  event_store = record { value = storage; poisoned = false };
}

-- What a commit of entities that are in step leaves behind.
pub record Committed (repo : HashMapRepository) (es : List Entity) : Type 0 where
  pub result :
      commit repo es
      ≡ (ok tt, with_storage repo (publish repo.event_store.value es), map mark_committed es)
  pub held : All (Holds (publish repo.event_store.value es)) es
  pub others :
      (id : String)
      → All (λ e. e.id ≢ id) es
      → HashMap.get id (publish repo.event_store.value es) ≡ HashMap.get id repo.event_store.value

-- If the lock is not poisoned, every entity tracks the store and no identifier stands twice in the
-- batch, then `commit` succeeds: the store holds exactly each entity's events under its identifier,
-- every other identifier keeps what it had, and each entity is marked committed.
pub commit-Committed :
    (repo : HashMapRepository) (es : List Entity)
    → repo.event_store.poisoned ≡ false
    → All (Tracks repo.event_store.value) es
    → Distinct es
    → Committed repo es
unfolding commit
commit-Committed repo es p ts d = record {
  result = ground (
    arith,
    validate-none repo.event_store.value es ts,
    append_all-publish repo.event_store.value es ts d,
  );
  held = publish-Holds repo.event_store.value es d;
  others = publish-other repo.event_store.value es;
}

-- An entity that was committed tracks the new store, so that more events can follow.
pub mark_committed-Tracks :
    (storage : Storage) (e : Entity)
    → e.version ≡ length e.events
    → Holds storage e
    → Tracks storage (mark_committed e)
unfolding mark_committed
mark_committed-Tracks storage e c h = record {
  stored = rw (h, c) (sym (take-length e.events));
  within = omega arith;
  counted = c;
}

abbrev pub InStep : Storage → Entity → Type 0
InStep storage e = stored_len storage e.id ≡ e.committed_version

validate-stale :
    (storage : Storage) (before after : List Entity) (e : Entity)
    → All (InStep storage) before
    → stored_len storage e.id ≢ e.committed_version
    → validate storage (before ++ e ∷ after)
      ≡ some (concurrent_write e.id e.committed_version (stored_len storage e.id))
unfolding validate
validate-stale storage [] after e ins ne = ground arith
validate-stale storage (b ∷ before) after e ins ne =
    ground (arith, ins.0, validate-stale storage before after e ins.1 ne)

-- A batch in which some entity is out of step with the store is rejected as a whole: the error names
-- the first such entity, the version that it expected and the number of stored events, and neither
-- the repository nor any entity of the batch changes.
pub commit-stale :
    (repo : HashMapRepository) (before after : List Entity) (e : Entity)
    → repo.event_store.poisoned ≡ false
    → All (InStep repo.event_store.value) before
    → stored_len repo.event_store.value e.id ≢ e.committed_version
    → commit repo (before ++ e ∷ after) ≡ (
      err (concurrent_write e.id e.committed_version (stored_len repo.event_store.value e.id)),
      repo,
      before ++ e ∷ after,
    )
unfolding commit
commit-stale repo before after e p ins ne =
    ground (arith, validate-stale repo.event_store.value before after e ins ne)

-- No lost update: if two entities track the same history and the first one commits new events, then
-- the second one's commit is rejected with the versions of both, and changes nothing.
pub commit-conflict :
    (repo : HashMapRepository) (a b : Entity)
    → repo.event_store.poisoned ≡ false
    → b.id ≡ a.id
    → Tracks repo.event_store.value a
    → b.committed_version ≡ a.committed_version
    → a.committed_version < length a.events
    → let repo' = (commit repo (a ∷ [])).1 in
      commit repo' (b ∷ [])
      ≡ (err (concurrent_write b.id b.committed_version (length a.events)), repo', b ∷ [])
commit-conflict repo a b p same ta tb fresh = rw done.result (
    commit-stale repo₁ [] [] b refl tt (λ e. absurd (omega (arith, e, seen)))
    ∙ ap (λ n. (err (concurrent_write b.id b.committed_version n), repo₁, b ∷ [])) seen)
  where
    done : Committed repo (a ∷ [])
    done = commit-Committed repo (a ∷ []) p (ta, tt) (tt, tt)

    repo₁ : HashMapRepository
    repo₁ = with_storage repo (publish repo.event_store.value (a ∷ []))

    seen : stored_len repo₁.event_store.value b.id ≡ length a.events
    seen =
        stored_len-history repo₁.event_store.value b.id
        ∙ ap (λ id. length (history repo₁.event_store.value id)) same
        ∙ ap (λ o. length (unwrap_or o [])) done.held.0
