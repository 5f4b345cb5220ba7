-- ===== src/Repository/Display.antt =====
-- The `Display` implementations of src/repository/error.rs, src/lock/error.rs and
-- src/read_model/mod.rs.
use Prim.Native.Char.{Char}
use Prim.Native.String.{◌++◌ as text_append}
use sourced_rust.Prelude.{
  ℕ, zero, suc, ◌/◌, ◌%◌, String, List, [], ◌∷◌, get_elem?, unwrap_or, if◌then◌else◌, ◌==◌,
}
use sourced_rust.Repository.{
  LockError, poisoned, acquire_failed, release_failed, expired, ReadModelError,
  concurrency_conflict, serde, storage, not_found, RepositoryError, lock_poisoned, concurrent_write,
  replay, model,
}

-- The pieces of a `write!`, one after the other.
abbrev pub concat : List String → String
concat [] = ""
concat (s ∷ ss) = text_append s (concat ss)

abbrev digit : ℕ → Char
digit n =
    unwrap_or (get_elem? ("0" ∷ "1" ∷ "2" ∷ "3" ∷ "4" ∷ "5" ∷ "6" ∷ "7" ∷ "8" ∷ "9" ∷ []) n) "0"

-- The decimal digits of a number in front of a text; `fuel` bounds how many.
digits : ℕ → ℕ → String → String
digits zero n rest = rest
digits (suc fuel) n rest =
    let longer = digits fuel (n / 10) (String.◌∷◌ (digit (n % 10)) rest) in
    if n / 10 == 0 then String.◌∷◌ (digit (n % 10)) rest else longer

-- `{}` of a `u64`, which has 20 digits at most.
unfoldable pub show_u64 : ℕ → String
unfolding digits
show_u64 n = digits 20 n ""

unfoldable pub display_lock : LockError → String
display_lock (poisoned message) = concat ("lock poisoned: " ∷ message ∷ [])
display_lock (acquire_failed message) = concat ("lock acquire failed: " ∷ message ∷ [])
display_lock (release_failed message) = concat ("lock release failed: " ∷ message ∷ [])
display_lock (expired message) = concat ("lock expired: " ∷ message ∷ [])
display_lock (LockError.other message) = concat ("lock error: " ∷ message ∷ [])

unfoldable pub display_model : ReadModelError → String
unfolding show_u64 display_lock
display_model (concurrency_conflict collection id expected actual) = concat (
    "concurrency conflict on "
    ∷ collection
    ∷ ":"
    ∷ id
    ∷ " (expected version "
    ∷ show_u64 expected
    ∷ ", actual "
    ∷ show_u64 actual
    ∷ ")"
    ∷ [])
display_model (serde message) = concat ("read model serialization error: " ∷ message ∷ [])
display_model (storage message) = concat ("read model storage error: " ∷ message ∷ [])
display_model (not_found collection id) =
    concat ("read model not found: " ∷ collection ∷ ":" ∷ id ∷ [])
display_model (ReadModelError.lock e) = concat ("read model lock error: " ∷ display_lock e ∷ [])

unfoldable pub display_repository : RepositoryError → String
unfolding show_u64 display_lock
display_repository (lock_poisoned operation) =
    concat ("repository lock poisoned during " ∷ operation ∷ [])
display_repository (RepositoryError.lock e) =
    concat ("repository lock error: " ∷ display_lock e ∷ [])
display_repository (concurrent_write id expected actual) = concat (
    "concurrent write detected for entity "
    ∷ id
    ∷ " (expected version "
    ∷ show_u64 expected
    ∷ ", got "
    ∷ show_u64 actual
    ∷ ")"
    ∷ [])
display_repository (replay message) = concat ("replay error: " ∷ message ∷ [])
display_repository (model message) = concat ("model error: " ∷ message ∷ [])
