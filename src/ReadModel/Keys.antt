-- ===== src/ReadModel/Keys.antt =====
-- src/read_model/in_memory.rs: the keys "collection:id", and what the two searches return.
use Prim.Native.String.{◌++◌ as text_append}
use text.Mathlib.TextLemmas.{append_assoc}
use sourced_rust.Prelude.{String, ◌≡◌, refl, Bool, some, [], ◌∷◌, head?, ok, false, ℕ, ◌>>=◌, arith}
use sourced_rust.Prelude.HashMap.{get-insert_self}
use sourced_rust.Bitcode.{Bytes}
use sourced_rust.ReadModel.{
  ReadModel, Models, InMemoryReadModelStore, make_key, access, put_model, find_loop, find_one_loop,
  find_models, find_one_model, get_model, read_stored, upsert, prepare, next_version,
}

-- Collections whose names hold a colon share keys with others: the model with the identifier "b:c"
-- in the collection "a" has the key of "c" in "a:b".
pub make_key-collision :
    (a b c : String)
    → make_key a (text_append b (text_append ":" c))
      ≡ make_key (text_append a (text_append ":" b)) c
unfolding make_key
make_key-collision a b c = simp append_assoc

module _ {M : Type 0} (model : ReadModel M) (p : M → Bool) where
  find_one_loop-head : (m : Models) → find_one_loop model p m ≡ head? (find_loop model p m)
  unfolding find_one_loop find_loop
  find_one_loop-head [] = refl
  find_one_loop-head ((k, stored) ∷ m) = ground (arith, find_one_loop-head m)

  -- `find_one_model` returns the first of the models that `find_models` returns, and fails where it
  -- fails.
  pub find_one_model-head :
      (s : InMemoryReadModelStore)
      → find_one_model model s p ≡ (find_models model s p >>= λ vs. ok (head? vs))
  unfolding find_one_model find_models access
  find_one_model-head s = ground (arith, find_one_loop-head s.storage.value)

-- Two collections whose names differ by a colon overwrite each other: after `y` was written in the
-- collection "c:b" under the identifier "i", a read of "b:i" in the collection "c" finds the bytes
-- of `y`.
get_model-collision :
    {M N : Type 0} (one : ReadModel M) (two : ReadModel N) (s : InMemoryReadModelStore) (y : N)
    (b : String) (bytes : Bytes) (v : ℕ)
    → two.collection ≡ text_append one.collection (text_append ":" b)
    → s.storage.poisoned ≡ false
    → two.to_vec y ≡ ok bytes
    → get_model one (upsert two s y).1 (text_append b (text_append ":" (two.id y))) ≡ (
        read_stored one (record {
          bytes = bytes;
          version = next_version s.storage.value (make_key two.collection (two.id y));
        })
        >>= λ m. ok (some m))
unfolding upsert prepare put_model access get_model
get_model-collision one two s y b bytes v e p j = ground (
  arith,
  make_key-collision one.collection b (two.id y),
  get-insert_self (make_key two.collection (two.id y))
      (record {
        bytes = bytes;
        version = next_version s.storage.value (make_key two.collection (two.id y));
      })
      s.storage.value,
)
