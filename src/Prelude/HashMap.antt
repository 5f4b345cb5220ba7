-- ===== src/Prelude/HashMap.antt =====
-- `std::collections::HashMap<String, V>` as a list of entries. The order of iteration, which the
-- standard library leaves open, is the order of the list.
use Prim.Native.String.{String}
use mathlib.Core.Path.{◌≡◌, refl}
use mathlib.Core.Logic.{◌≢◌}
use mathlib.Core.Option.{Option, none, some}
use mathlib.Core.List.{List, [], ◌∷◌}
use native.Mathlib.Omega.{arith}
use text.Mathlib.Text.{◌==◌ as str_eq}
use text.Mathlib.TextEquality.{eq_iff}
use sourced_rust.Prelude.Tests.{if◌then◌else◌}

abbrev pub HashMap {ℓ} : Type ℓ → Type ℓ
HashMap V = List (String × V)

module _ {ℓ} {V : Type ℓ} where
  unfoldable pub get : String → HashMap V → Option V
  get k [] = none
  get k ((j, v) ∷ m) = if str_eq j k then some v else get k m

  unfoldable pub insert : String → V → HashMap V → HashMap V
  insert k v [] = (k, v) ∷ []
  insert k v ((j, w) ∷ m) = if str_eq j k then (k, v) ∷ m else (j, w) ∷ insert k v m

  unfoldable pub remove : String → HashMap V → HashMap V
  remove k [] = []
  remove k ((j, v) ∷ m) = let rest = remove k m in if str_eq j k then rest else (j, v) ∷ rest

  abbrev pub keys : HashMap V → List String
  keys [] = []
  keys ((k, v) ∷ m) = k ∷ keys m

  pub get-insert :
      (k j : String) (v : V) (m : HashMap V)
      → get j (insert k v m) ≡ (if str_eq k j then some v else get j m)
  unfolding get insert
  get-insert k j v [] = refl
  get-insert k j v ((i, w) ∷ m) =
      ground (arith, eq_iff k j, eq_iff i k, eq_iff i j, get-insert k j v m)

  pub get-insert_self : (k : String) (v : V) (m : HashMap V) → get k (insert k v m) ≡ some v
  get-insert_self k v m = ground (arith, get-insert k k v m, eq_iff k k)

  pub get-insert_ne :
      (k j : String) (v : V) (m : HashMap V) → k ≢ j → get j (insert k v m) ≡ get j m
  get-insert_ne k j v m h = ground (arith, get-insert k j v m, eq_iff k j)

  pub get-remove :
      (k j : String) (m : HashMap V) → get j (remove k m) ≡ (if str_eq k j then none else get j m)
  unfolding get remove
  get-remove k j [] = ground arith
  get-remove k j ((i, v) ∷ m) = ground (arith, get-remove k j m, eq_iff i k, eq_iff i j, eq_iff k j)

  -- No key stands twice, as the standard library promises.
  abbrev pub IsMap : HashMap V → Type ℓ
  IsMap [] = Unit
  IsMap ((k, v) ∷ m) = (get k m ≡ none) × IsMap m

  pub insert-IsMap : (k : String) (v : V) (m : HashMap V) → IsMap m → IsMap (insert k v m)
  unfolding get insert
  insert-IsMap k v [] h = (refl, tt)
  insert-IsMap k v ((j, w) ∷ m) h =
      ground (arith, insert-IsMap k v m h.1, get-insert k j v m, eq_iff j k, eq_iff k j)

  pub remove-IsMap : (k : String) (m : HashMap V) → IsMap m → IsMap (remove k m)
  unfolding remove
  remove-IsMap k [] h = tt
  remove-IsMap k ((j, v) ∷ m) h = ground (arith, remove-IsMap k m h.1, get-remove k j m)

-- Every entry of the second list is what the first one holds for its key.
abbrev pub Entries {ℓ} : {V : Type ℓ} → HashMap V → HashMap V → Type ℓ
Entries m [] = Unit
Entries m ((k, v) ∷ xs) = (get k m ≡ some v) × Entries m xs

module _ {ℓ} {V : Type ℓ} where
  Entries-cons :
      (k : String) (v : V) (m xs : HashMap V)
      → get k m ≡ none
      → Entries m xs
      → Entries ((k, v) ∷ m) xs
  unfolding get
  Entries-cons k v m [] fresh h = tt
  Entries-cons k v m ((j, w) ∷ xs) fresh h =
      (ground (arith, h.0, eq_iff k j), Entries-cons k v m xs fresh h.1)

  pub IsMap-Entries : (m : HashMap V) → IsMap m → Entries m m
  unfolding get
  IsMap-Entries [] h = tt
  IsMap-Entries ((k, v) ∷ m) h =
      (ground (arith, eq_iff k k), Entries-cons k v m m h.0 (IsMap-Entries m h.1))

pub get-empty {ℓ} : {V : Type ℓ} (k : String) → get {V = V} k [] ≡ none
unfolding get
get-empty k = refl
