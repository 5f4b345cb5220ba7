-- ===== src/Aggregate/Replaying.antt =====
-- src/aggregate/aggregate.rs: replaying a history in two parts.
use sourced_rust.Prelude.{
  ℕ, ◌≡◌, refl, ap, ◌∙◌, none, some, arith, ap, List, [], ◌∷◌, ◌++◌, ok, err, panic, hang, ◌>>=◌,
}
use sourced_rust.Entity.{EventRecord, Entity}
use sourced_rust.Entity.Upcaster.{EventUpcaster, upcast_events}
use sourced_rust.Aggregate.{Aggregate, IsField, update_entity, replay_all, current_events}

module _ {A : Type 0} (agg : Aggregate A) (now : ℕ) where
  pub replay_all-append :
      (xs ys : List EventRecord) (a : A)
      → replay_all agg now (xs ++ ys) a ≡ (replay_all agg now xs a >>= λ b. replay_all agg now ys b)
  unfolding replay_all
  replay_all-append [] ys a = refl
  replay_all-append (x ∷ xs) ys a =
      elim (agg.replay_event now x a)
        as (λ r.
          (r >>= λ b. replay_all agg now (xs ++ ys) b)
          ≡ ((r >>= λ b. replay_all agg now xs b) >>= λ b. replay_all agg now ys b)) [
            | ok b ↦ replay_all-append xs ys b
            | err e ↦ refl
            | panic ↦ refl
            | hang ↦ refl
          ]

  -- One event more.
  pub replay_all-snoc :
      (xs : List EventRecord) (x : EventRecord) (a b c : A)
      → replay_all agg now xs a ≡ ok b
      → agg.replay_event now x b ≡ ok c
      → replay_all agg now (xs ++ x ∷ []) a ≡ ok c
  unfolding replay_all
  replay_all-snoc xs x a b c h k = rw (replay_all-append xs (x ∷ []) a, h, k) refl

upcast_events-append :
    (fuel : ℕ) (us : List EventUpcaster) (xs ys xs' : List EventRecord)
    → upcast_events fuel us xs ≡ some xs'
    → upcast_events fuel us (xs ++ ys)
      ≡ elim (upcast_events fuel us ys) [ none ↦ none | some ys' ↦ some (xs' ++ ys') ]
unfolding upcast_events
upcast_events-append fuel us [] ys [] h =
    elim (upcast_events fuel us ys) as (λ r. r ≡ elim r [ none ↦ none | some ys' ↦ some ys' ]) [
      | none ↦ refl
      | some ys' ↦ refl
    ]
upcast_events-append fuel us [] ys (x ∷ xs') h = cc
upcast_events-append fuel us (x ∷ xs) ys [] h = ground arith
upcast_events-append fuel us (x ∷ xs) ys (x' ∷ xs') h =
    ground (arith, upcast_events-append fuel us xs ys xs')

module _ {A : Type 0} (agg : Aggregate A) (fuel : ℕ) where
  pub current_events-append :
      (xs ys xs' : List EventRecord)
      → current_events agg fuel xs ≡ ok xs'
      → current_events agg fuel (xs ++ ys) ≡ (current_events agg fuel ys >>= λ ys'. ok (xs' ++ ys'))
  unfolding current_events
  current_events-append xs ys xs' h =
      ground (arith, upcast_events-append fuel agg.upcasters xs ys xs')

-- Two writes through `entity_mut` are one.
pub update_entity-update_entity :
    {A : Type 0} (agg : Aggregate A) (field : IsField agg) (f g : Entity → Entity) (a : A)
    → update_entity agg f (update_entity agg g a) ≡ update_entity agg (λ e. f (g e)) a
update_entity-update_entity agg field f g a =
    let a' = update_entity agg g a in
    ap (λ e. agg.set_entity a' (f e)) (field.entity-set_entity a (g (agg.entity a)))
    ∙ field.set_entity-set_entity a (g (agg.entity a)) (f (g (agg.entity a)))
