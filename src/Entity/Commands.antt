-- ===== src/Entity/Commands.antt =====
-- The calls on an entity, as data, and what a sequence of them does.
use sourced_rust.Prelude.{ℕ, String, List, [], ◌∷◌}
use sourced_rust.Prelude.HashMap.{HashMap}
use sourced_rust.Bitcode.{Codec}
use sourced_rust.Entity.{
  Entity, mark_committed, set_metadata, set_meta, clear_metadata, set_id, set_snapshot_version,
  digest, digest_v, digest_empty,
}

-- The calls that a domain struct makes on its entity, and the repository's `mark_committed`.
pub data Command (T : Type 0) : Type 0 where
  digests : String → T → Command T
  digests_v : String → ℕ → T → Command T
  digests_empty : String → Command T
  sets_id : String → Command T
  sets_meta : String → String → Command T
  sets_metadata : HashMap String → Command T
  clears_metadata : Command T
  sets_snapshot_version : ℕ → Command T
  marks_committed : Command T

module _ {T : Type 0} (codec : Codec T) (unit : Codec (Unit {0})) where
  unfoldable pub step : Entity → ℕ → Command T → Entity
  step e now (digests name payload) = digest codec e now name payload
  step e now (digests_v name version payload) = digest_v codec e now name version payload
  step e now (digests_empty name) = digest_empty unit e now name
  step e now (sets_id id) = set_id e id
  step e now (sets_meta key value) = set_meta e key value
  step e now (sets_metadata m) = set_metadata e m
  step e now clears_metadata = clear_metadata e
  step e now (sets_snapshot_version v) = set_snapshot_version e v
  step e now marks_committed = mark_committed e

  unfoldable pub run : Entity → List (ℕ × Command T) → Entity
  run e [] = e
  run e ((now, c) ∷ cs) = run (step e now c) cs
