-- ===== src/Bitcode.antt =====
-- The third-party crate `bitcode`, through which the library turns payloads into bytes, as a
-- parameter: a codec for each type that the code serializes.
use sourced_rust.Prelude.{ℕ, ◌≡◌, List, Option, some}

-- `Vec<u8>`
abbrev pub Bytes : Type 0
Bytes = List ℕ

-- `bitcode::serialize` of a type that it can serialize, and `bitcode::deserialize`, where `none`
-- is its error.
pub record Codec {ℓ} (T : Type ℓ) : Type ℓ where
  pub serialize : T → Bytes
  pub deserialize : Bytes → Option T

-- What the crate documents: a value comes back from its own bytes.
abbrev pub IsLossless {ℓ} : {T : Type ℓ} → Codec T → Type ℓ
IsLossless {T} c = (x : T) → c.deserialize (c.serialize x) ≡ some x
