-- ===== src/Tests/Views.antt =====
-- Inputs for src/read_model/queued.rs: two rows, and a search that finds one of them changed.
use sourced_rust.Prelude.{
  ℕ, zero, suc, ◌≡◌, refl, subst, true, false, str_eq, eq_iff, if◌then◌else◌, String, Bool, Option,
  some, List, [], ◌∷◌, ok, err, hang, arith, unlocked, leb, Outcome, Bool-cases, inl, inr,
}
use sourced_rust.Prelude.HashMap
use sourced_rust.Bitcode.{Bytes}
use sourced_rust.Lock.{locked}
use sourced_rust.ReadModel.{
  ReadModel, Versioned, InMemoryReadModelStore, make_key, find_models, find_loop,
}
use sourced_rust.ReadModel.Stores.{ReadModelStore, in_memory_store}
use sourced_rust.QueuedRepo.Holding.{Holds}
use sourced_rust.QueuedModels.{QueuedStore, new_queued_store, queued_get, queued_find_models}
use sourced_rust.QueuedModels.Releasing.{
  updates, perform, ReleasesEach, writes-ReleasesKey, model_session,
}
use sourced_rust.QueuedModels.Finding.{Answers, find_models-Holds}

abbrev decode_row : Bytes → Outcome String (String × ℕ)
decode_row (zero ∷ n ∷ bs) = ok ("a", n)
decode_row (suc k ∷ n ∷ bs) = ok ("b", n)
decode_row bs = err "eof"

abbrev rows : ReadModel (String × ℕ)
rows = record {
  collection = "rows";
  id = λ x. x.0;
  to_vec = λ x. ok ((if str_eq x.0 "a" then 0 else 1) ∷ x.1 ∷ []);
  from_slice = decode_row;
}

abbrev stored : ℕ → InMemoryReadModelStore
stored n = record {
  storage = unlocked (
      ("rows:a", record { bytes = 0 ∷ 3 ∷ []; version = 5 })
      ∷ ("rows:b", record { bytes = 1 ∷ n ∷ []; version = 1 })
      ∷ []);
}

-- The search saw the rows before "b" was changed.
abbrev changing : ReadModelStore (String × ℕ) InMemoryReadModelStore
changing = record (in_memory_store rows) { find_all = λ s p. (find_models rows (stored 2) p, s) }

abbrev small : String × ℕ → Bool
small x = leb x.1 9

abbrev both : List (Versioned (String × ℕ))
both = record { content = ("a", 3); version = 5 } ∷ record { content = ("b", 2); version = 1 } ∷ []

abbrev now_found : String → Option (Versioned (String × ℕ))
now_found id =
    if str_eq "a" id
    then some (record { content = ("a", 3); version = 5 })
    else some (record { content = ("b", 12); version = 1 })

abbrev queue : QueuedStore InMemoryReadModelStore
queue = new_queued_store (stored 12)

found-Answers : Answers rows changing small now_found (stored 12) ("a" ∷ "b" ∷ [])
unfolding in_memory_store HashMap.get
found-Answers id c = elim (Bool-cases (str_eq "a" id)) [
  | inl a ↦
      subst (λ i. changing.get (stored 12) i ≡ (ok (now_found i), stored 12)) ((eq_iff "a" id).0 a)
        refl
  | inr other ↦
      subst (λ i. changing.get (stored 12) i ≡ (ok (now_found i), stored 12))
        ((eq_iff "b" id).0 (ground (arith, c, other))) refl
]

find_models_run :
    (queued_find_models rows changing queue small).0
    ≡ ok (record { content = ("a", 3); version = 5 } ∷ [])
unfolding queued_find_models find_models HashMap.get HashMap.insert make_key in_memory_store
find_models_run = refl

find_models-Holds_example :
    let x = queued_find_models rows changing queue small in
    (x.0 ≡ ok (record { content = ("a", 3); version = 5 } ∷ []))
    × (x.1.inner ≡ stored 12)
    × Holds [] ("rows:a" ∷ []) x.1.locks
unfolding find_models find_loop make_key locked HashMap.get
find_models-Holds_example =
    find_models-Holds rows changing small now_found queue both (stored 12) refl found-Answers
      (λ id c. refl)

writes-ReleasesKey_example : ReleasesEach rows (in_memory_store rows) queue
writes-ReleasesKey_example = writes-ReleasesKey rows (in_memory_store rows) queue

model_session_example :
    let (r, q₁) = queued_get rows (in_memory_store rows) queue "a" in
    let (done, q₂) = perform rows (in_memory_store rows) q₁ (updates ("a", 4) 5) in
    (r ≡ ok (some (record { content = ("a", 3); version = 5 })))
    × ((queued_get rows (in_memory_store rows) q₁ "a").0 ≡ hang)
    × (done ≡ true
        → (queued_get rows (in_memory_store rows) q₂ "a").0
          ≡ ((in_memory_store rows).get q₂.inner "a").0)
    × (done ≡ false → (queued_get rows (in_memory_store rows) q₂ "a").0 ≡ hang)
unfolding locked HashMap.get in_memory_store
model_session_example =
    model_session rows (in_memory_store rows) queue "a" (updates ("a", 4) 5) refl refl
