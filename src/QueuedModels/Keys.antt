-- ===== src/QueuedModels/Keys.antt =====
-- src/read_model/queued.rs: the keys of identifiers of one collection, and those of a part of them.
use Prim.Native.String.{◌++◌ as text_append}
use text.Mathlib.TextLemmas.{append_cancel_left}
use sourced_rust.Prelude.{
  Bool, true, false, String, str_eq, eq_iff, not, ◌&&◌, contains, filter, List, [], ◌∷◌, map, ◌≡◌,
  refl, arith,
}
use sourced_rust.ReadModel.{make_key}

make_key-eq : (table a b : String) → str_eq (make_key table a) (make_key table b) ≡ str_eq a b
unfolding make_key
make_key-eq table a b = ground (
  arith,
  eq_iff a b,
  eq_iff (make_key table a) (make_key table b),
  λ (e : make_key table a ≡ make_key table b).
      append_cancel_left ":" a b
        (append_cancel_left table (text_append ":" a) (text_append ":" b) e),
)

module _ (table : String) where
  abbrev pub keys_of : List String → List String
  keys_of ids = map (make_key table) ids

  -- An identifier that a test refuses has a key of none that it takes.
  pub refused :
      (keep : String → Bool) (id : String) (ids : List String)
      → keep id ≡ false
      → contains (make_key table id) (keys_of (filter keep ids)) ≡ false
  refused keep id [] h = refl
  refused keep id (x ∷ ids) h =
      ground (arith, refused keep id ids h, make_key-eq table x id, eq_iff x id)

  pub held_or_dropped :
      (keep : String → Bool) (ids : List String) (j : String)
      → (contains j (keys_of ids) && not (contains j (keys_of (filter (λ id. not (keep id)) ids))))
        ≡ contains j (keys_of (filter keep ids))
  held_or_dropped keep [] j = refl
  held_or_dropped keep (id ∷ ids) j = ground (
    arith,
    held_or_dropped keep ids j,
    refused keep id ids,
    refused (λ i. not (keep i)) id ids,
    eq_iff (make_key table id) j,
  )

  pub filter-contains :
      (keep : String → Bool) (ids : List String) (j : String)
      → contains j (keys_of (filter keep ids)) ≡ true
      → contains j (keys_of ids) ≡ true
  filter-contains keep [] j c = c
  filter-contains keep (id ∷ ids) j c = ground (arith, filter-contains keep ids j, c)
