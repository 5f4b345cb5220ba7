-- ===== src/Snapshot/Hydration.antt =====
-- src/snapshot/snapshottable.rs: hydration from a snapshot against hydration from the whole history.
use sourced_rust.Prelude.{
  ℕ, suc, ◌+◌, ◌≤◌, ◌≡◌, refl, sym, ap, subst, ◌∙◌, Bool, true, false, List, [], ◌∷◌, ◌++◌, length,
  filter, ltb, Outcome, ok, err, panic, hang, map_err, ◌>>=◌, arith,
}
use sourced_rust.Bitcode.{IsLossless}
use sourced_rust.Entity.{EventRecord, Entity, set_snapshot_version, set_replaying}
use sourced_rust.Entity.WellFormed.{IsNumbered}
use sourced_rust.Repository.{RepositoryError, replay}
use sourced_rust.SnapshotStore.{SnapshotRecord}
use sourced_rust.Aggregate.{
  Aggregate, IsField, update_entity, flag, replay_all, current_events, replay_flagged, hydrate,
}
use sourced_rust.Aggregate.Replaying.{
  update_entity-update_entity, replay_all-append, current_events-append,
}
use sourced_rust.Snapshot.{Snapshottable, read_snapshot, hydrate_from_snapshot}

-- In a numbered history, the events behind version `v` are what follows the first `v` events.
filter-later :
    (n v : ℕ) (ys : List EventRecord)
    → IsNumbered n ys
    → v ≤ n
    → filter (λ e. ltb v e.sequence) ys ≡ ys
filter-later n v [] h k = refl
filter-later n v (y ∷ ys) h k = ground (arith, h.0, filter-later (suc n) v ys h.1 (omega arith))

pub filter-numbered :
    (n v : ℕ) (xs ys : List EventRecord)
    → IsNumbered n (xs ++ ys)
    → v ≡ n + length xs
    → filter (λ e. ltb v e.sequence) (xs ++ ys) ≡ ys
filter-numbered n v [] ys h k = filter-later n v ys h (omega arith)
filter-numbered n v (x ∷ xs) ys h k =
    ground (arith, h.0, filter-numbered (suc n) v xs ys h.1 (omega arith))

module _ {A Snap : Type 0} (sn : Snapshottable A Snap) where
  abbrev pub at_version : ℕ → A → A
  at_version v = update_entity sn.aggregate (λ e. set_snapshot_version e v)

  -- What a snapshottable aggregate has to keep to: `entity` is a field; the replay of an event
  -- neither reads nor writes `snapshot_version`; and the crate gives a snapshot back.
  pub record IsSnapshottable : Type 0 where
    pub field : IsField sn.aggregate
    pub blind :
        (v now : ℕ) (r : EventRecord) (a : A)
        → sn.aggregate.replay_event now r (at_version v a)
          ≡ (sn.aggregate.replay_event now r a >>= λ b. ok (at_version v b))
    pub lossless : IsLossless sn.codec

  module _ (laws : IsSnapshottable) (v now : ℕ) where
    replay_all-blind :
        (rs : List EventRecord) (a : A)
        → replay_all sn.aggregate now rs (at_version v a)
          ≡ (replay_all sn.aggregate now rs a >>= λ b. ok (at_version v b))
    unfolding replay_all
    replay_all-blind [] a = refl
    replay_all-blind (r ∷ rs) a =
        ap (λ o. o >>= λ b. replay_all sn.aggregate now rs b) (laws.blind v now r a)
        ∙ elim (sn.aggregate.replay_event now r a)
            as (λ o.
              ((o >>= λ b. ok (at_version v b)) >>= λ b. replay_all sn.aggregate now rs b)
              ≡ ((o >>= λ b. replay_all sn.aggregate now rs b) >>= λ b. ok (at_version v b))) [
                | ok b ↦ replay_all-blind rs b
                | err e ↦ refl
                | panic ↦ refl
                | hang ↦ refl
              ]

    -- The flag and the version are set in either order.
    flag-at_version :
        (b : Bool) (a : A)
        → flag sn.aggregate b (at_version v a) ≡ at_version v (flag sn.aggregate b a)
    unfolding set_snapshot_version set_replaying
    flag-at_version b a =
        let put : Entity → Entity = λ e. set_replaying e b in
        let at : Entity → Entity = λ e. set_snapshot_version e v in
        update_entity-update_entity sn.aggregate laws.field put at a
        ∙ sym (update_entity-update_entity sn.aggregate laws.field at put a)

  -- A snapshot at version `v` of the first `v` events: replaying them on the new aggregate gives
  -- `b`, leaves the entity alone, and the snapshot holds the bytes of what `b` creates. The snapshot of
  -- `b` has all of `b` but the entity: put on the new aggregate it makes `b` with the new one's entity. A
  -- restore that sets the identifier to the one in the snapshot, which is that of `e`, does so.
  pub record IsSnapshotOf (fuel now : ℕ) (e : Entity) (xs ys : List EventRecord)
      (s : SnapshotRecord) (b : A) : Type 0 where
    pub history : e.events ≡ xs ++ ys
    pub numbered : IsNumbered 0 e.events
    pub version : s.version ≡ length xs
    pub current : List EventRecord
    pub upcast : current_events sn.aggregate fuel xs ≡ ok current
    pub replayed :
        replay_all sn.aggregate now current
          (flag sn.aggregate true (sn.aggregate.set_entity (sn.aggregate.new_empty now) e))
        ≡ ok b
    pub entity : sn.aggregate.entity b ≡ set_replaying e true
    pub bytes : s.bytes ≡ sn.codec.serialize (sn.create_snapshot b)
    pub restores :
        let a = at_version s.version (sn.aggregate.set_entity (sn.aggregate.new_empty now) e) in
        sn.restore_from_snapshot a (sn.create_snapshot b)
        ≡ sn.aggregate.set_entity b (sn.aggregate.entity a)

  module _ (laws : IsSnapshottable) (fuel now : ℕ) (e : Entity) (xs ys : List EventRecord)
      (s : SnapshotRecord) (b : A) (of : IsSnapshotOf fuel now e xs ys s b) where
    abbrev agg : Aggregate A
    agg = sn.aggregate

    abbrev start : A
    start = agg.set_entity (agg.new_empty now) e

    abbrev finish : List EventRecord → A → Outcome RepositoryError A
    finish es a = map_err replay (replay_all agg now es a) >>= λ c. ok (flag agg false c)

    start-entity : agg.entity start ≡ e
    start-entity = laws.field.entity-set_entity (agg.new_empty now) e

    hydrate-tail : hydrate agg fuel now e ≡ (current_events agg fuel ys >>= λ es. finish es b)
    unfolding hydrate replay_flagged
    hydrate-tail =
        ap (λ x. current_events agg fuel x.events >>= λ es. replay_flagged agg now es start)
          start-entity
        ∙ ap (λ rs. current_events agg fuel rs >>= λ es. replay_flagged agg now es start) of.history
        ∙ ap (λ o. o >>= λ es. replay_flagged agg now es start)
            (current_events-append agg fuel xs ys of.current of.upcast)
        ∙ elim (current_events agg fuel ys)
            as (λ o.
              ((o >>= λ es. ok (of.current ++ es)) >>= λ es. replay_flagged agg now es start)
              ≡ (o >>= λ es. finish es b)) [
                | ok es ↦
                    ap (λ o. map_err replay o >>= λ c. ok (flag agg false c))
                      (replay_all-append agg now of.current es (flag agg true start)
                        ∙ ap (λ o. o >>= λ c. replay_all agg now es c) of.replayed)
                | err x ↦ refl
                | panic ↦ refl
                | hang ↦ refl
              ]

    snapshot-read : read_snapshot sn s ≡ ok (sn.create_snapshot b)
    unfolding read_snapshot
    snapshot-read = rw (of.bytes, laws.lossless (sn.create_snapshot b), read_snapshot) refl

    -- The aggregate that the snapshot restores.
    abbrev restored : A
    restored = agg.set_entity b (set_snapshot_version e s.version)

    restore-restored :
        sn.restore_from_snapshot (at_version s.version start) (sn.create_snapshot b) ≡ restored
    restore-restored =
        of.restores
        ∙ ap (agg.set_entity b) (
            laws.field.entity-set_entity start _
            ∙ ap (λ x. set_snapshot_version x s.version) start-entity)

    restored-entity : agg.entity restored ≡ set_snapshot_version e s.version
    restored-entity = laws.field.entity-set_entity b _

    restored-later : filter (λ r. ltb s.version r.sequence) (agg.entity restored).events ≡ ys
    unfolding set_snapshot_version
    restored-later =
        ap (λ x. filter (λ r. ltb s.version r.sequence) x.events) restored-entity
        ∙ ap (filter λ r. ltb s.version r.sequence) of.history
        ∙ filter-numbered 0 s.version xs ys (subst (IsNumbered 0) of.history of.numbered)
            (omega (arith, of.version))

    restored-flagged : flag agg true restored ≡ at_version s.version b
    unfolding set_snapshot_version set_replaying
    restored-flagged =
        ap (λ x. agg.set_entity restored (set_replaying x true)) restored-entity
        ∙ laws.field.set_entity-set_entity b _ _
        ∙ sym (ap (λ x. agg.set_entity b (set_snapshot_version x s.version)) of.entity)

    abbrev resume : A → Outcome RepositoryError A
    resume a =
        current_events agg fuel (filter (λ r. ltb s.version r.sequence) (agg.entity a).events)
        >>= λ es. replay_flagged agg now es a

    snapshot-tail :
        hydrate_from_snapshot sn fuel now e s
        ≡ (current_events agg fuel ys >>= λ es. finish es (at_version s.version b))
    unfolding hydrate_from_snapshot replay_flagged
    snapshot-tail =
        ap (λ o. o >>= λ snap. resume (sn.restore_from_snapshot (at_version s.version start) snap))
          snapshot-read
        ∙ ap resume restore-restored
        ∙ ap (λ rs. current_events agg fuel rs >>= λ es. replay_flagged agg now es restored)
            restored-later
        ∙ ap (λ x. current_events agg fuel ys >>= λ es. finish es x) restored-flagged

    finish-at_version :
        (es : List EventRecord)
        → finish es (at_version s.version b) ≡ (finish es b >>= λ a. ok (at_version s.version a))
    finish-at_version es =
        ap (λ o. map_err replay o >>= λ c. ok (flag agg false c))
          (replay_all-blind laws s.version now es b)
        ∙ elim (replay_all agg now es b)
            as (λ o.
              (map_err replay (o >>= λ c. ok (at_version s.version c)) >>= λ c.
              ok (flag agg false c))
              ≡ ((map_err replay o >>= λ c. ok (flag agg false c)) >>= λ a.
                  ok (at_version s.version a))) [
                    | ok c ↦ ap ok (flag-at_version laws s.version now false c)
                    | err x ↦ refl
                    | panic ↦ refl
                    | hang ↦ refl
                  ]

    -- For an aggregate whose `entity` is a field, whose replay of an event does not depend on the
    -- snapshot version nor change it, and with a codec that loses nothing: take a numbered history whose
    -- first `s.version` events can be upcast and replayed without touching the entity, and the snapshot
    -- of the aggregate `b` that they give, such that restoring it on the new aggregate makes `b` with the
    -- new one's entity. Then hydration from the snapshot is hydration from the whole history, errors
    -- of the later events included, with the snapshot's version noted in the entity.
    pub hydrate_from_snapshot-hydrate :
        hydrate_from_snapshot sn fuel now e s
        ≡ (hydrate agg fuel now e >>= λ a. ok (at_version s.version a))
    hydrate_from_snapshot-hydrate =
        snapshot-tail
        ∙ elim (current_events agg fuel ys)
            as (λ o.
              (o >>= λ es. finish es (at_version s.version b))
              ≡ ((o >>= λ es. finish es b) >>= λ a. ok (at_version s.version a))) [
                | ok es ↦ finish-at_version es
                | err x ↦ refl
                | panic ↦ refl
                | hang ↦ refl
              ]
        ∙ sym (ap (λ o. o >>= λ a. ok (at_version s.version a)) hydrate-tail)
