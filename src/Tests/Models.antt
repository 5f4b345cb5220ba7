-- ===== src/Tests/Models.antt =====
-- Inputs for src/read_model/: a counter view, and one whose collection has a colon.
use sourced_rust.Prelude.{ℕ, refl, String, [], ◌∷◌, ok, err, unlocked, Outcome}
use sourced_rust.Bitcode.{Bytes}
use sourced_rust.ReadModel.{ReadModel, InMemoryReadModelStore, new_store}
use sourced_rust.ReadModel.Versions.{inserts, Written, write-Written}

abbrev one_number : Bytes → Outcome String ℕ
one_number [] = err "eof"
one_number (n ∷ bs) = ok n

-- A view of one number, always under the same identifier.
abbrev view : ReadModel ℕ
view = record {
  collection = "views";
  id = λ n. "total";
  to_vec = λ n. ok (n ∷ []);
  from_slice = one_number;
}

write-Written_example : Written view new_store (inserts 3) (3 ∷ [])
unfolding new_store
write-Written_example = write-Written view new_store (inserts 3) (3 ∷ []) refl refl refl

abbrev viewed : InMemoryReadModelStore
viewed = record {
  storage = unlocked (("views:total", record { bytes = 3 ∷ []; version = 5 }) ∷ []);
}
