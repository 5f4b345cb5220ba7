-- ===== src/ReadModel/Stores.antt =====
-- src/read_model/store.rs: the trait `ReadModelStore` at one type of models, over the state that a
-- store keeps behind its handle, and its implementation by src/read_model/in_memory.rs.
use sourced_rust.Prelude.{ℕ, String, Bool, Option, List, Outcome}
use sourced_rust.Bitcode.{Bytes}
use sourced_rust.Repository.{ReadModelError}
use sourced_rust.ReadModel.{
  ReadModel, Versioned, InMemoryReadModelStore, get_model, upsert, insert, update, delete,
  find_models, find_one_model, upsert_raw,
}

abbrev pub Answer : Type 0 → Type 0 → Type 0
Answer S A = Outcome ReadModelError A × S

pub record ReadModelStore (M S : Type 0) : Type 0 where
  pub get : S → String → Answer S (Option (Versioned M))
  pub upsert_model : S → M → Answer S (Versioned M)
  pub insert_model : S → M → Answer S (Versioned M)
  pub update_model : S → M → ℕ → Answer S (Versioned M)
  pub delete_model : S → String → Answer S Bool
  pub find_all : S → (M → Bool) → Answer S (List (Versioned M))
  pub find_first : S → (M → Bool) → Answer S (Option (Versioned M))
  pub save : S → String → Bytes → Answer S (Unit {0})

unfoldable pub in_memory_store :
    {M : Type 0} → ReadModel M → ReadModelStore M InMemoryReadModelStore
unfolding get_model upsert insert update delete find_models find_one_model upsert_raw
in_memory_store model = record {
  get = λ s id. (get_model model s id, s);
  upsert_model = upsert model;
  insert_model = insert model;
  update_model = update model;
  delete_model = delete model;
  find_all = λ s p. (find_models model s p, s);
  find_first = λ s p. (find_one_model model s p, s);
  save = upsert_raw;
}
