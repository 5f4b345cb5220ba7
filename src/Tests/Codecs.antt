-- ===== src/Tests/Codecs.antt =====
-- A lossless codec for the tuples of the outbox events: numbers, texts, options, pairs and lists as
-- numbers in prefix form.
use Prim.Native.Nat.{Ordering, compare as compare_ℕ}
use Prim.Native.Char.{char, IsLt}
use Prim.Native.String.{String}
use sourced_rust.Prelude.{
  ℕ, zero, suc, ◌≡◌, refl, sym, ap, ◌∙◌, Option, none, some, List, [], ◌∷◌, ◌++◌, append_assoc,
  append-nil, length,
}
use sourced_rust.Prelude.HashMap.{HashMap}
use sourced_rust.Bitcode.{Bytes, Codec, IsLossless}
use sourced_rust.Outbox.{Created, OutboxCodecs}
use sourced_rust.Outbox.Recording.{AreLossless}

abbrev BothLt : Ordering → Ordering → Type 0
BothLt Ordering.lt o = IsLt o
BothLt Ordering.eq _ = ⊥
BothLt Ordering.gt _ = ⊥

abbrev Scalar : Ordering → Ordering → Ordering → Type 0
Scalar Ordering.lt _ _ = Unit
Scalar Ordering.eq o p = BothLt o p
Scalar Ordering.gt o p = BothLt o p

abbrev is_lt? : (o : Ordering) → Option (IsLt o)
is_lt? Ordering.lt = some tt
is_lt? Ordering.eq = none
is_lt? Ordering.gt = none

abbrev both_lt? : (o p : Ordering) → Option (BothLt o p)
both_lt? Ordering.lt p = is_lt? p
both_lt? Ordering.eq _ = none
both_lt? Ordering.gt _ = none

abbrev scalar? : (o p q : Ordering) → Option (Scalar o p q)
scalar? Ordering.lt _ _ = some tt
scalar? Ordering.eq p q = both_lt? p q
scalar? Ordering.gt p q = both_lt? p q

is_lt?-some : (o : Ordering) (x : IsLt o) → is_lt? o ≡ some x
is_lt?-some Ordering.lt x = refl
is_lt?-some Ordering.eq x = absurd x
is_lt?-some Ordering.gt x = absurd x

both_lt?-some : (o p : Ordering) (x : BothLt o p) → both_lt? o p ≡ some x
both_lt?-some Ordering.lt p x = is_lt?-some p x
both_lt?-some Ordering.eq p x = absurd x
both_lt?-some Ordering.gt p x = absurd x

scalar?-some : (o p q : Ordering) (x : Scalar o p q) → scalar? o p q ≡ some x
scalar?-some Ordering.lt p q x = refl
scalar?-some Ordering.eq p q x = both_lt?-some p q x
scalar?-some Ordering.gt p q x = both_lt?-some p q x

-- Numbers that say where they end: what is put in front of any rest is got back with the rest.
pub record Coder (T : Type 0) : Type 0 where
  pub put : T → Bytes
  pub get : Bytes → Option (T × Bytes)
  pub got : (x : T) (rest : Bytes) → get (put x ++ rest) ≡ some (x, rest)

abbrev pub codec_of : {T : Type 0} → Coder T → Codec T
codec_of c = record {
  serialize = c.put;
  deserialize = λ bs. elim (c.get bs) [ none ↦ none | some (x, rest) ↦ some x ];
}

codec_of-IsLossless : {T : Type 0} (c : Coder T) → IsLossless (codec_of c)
codec_of-IsLossless c x =
    ap (λ bs. elim (c.get bs) [ none ↦ none | some (y, rest) ↦ some y ])
      (sym (append-nil (c.put x)))
    ∙ ap (λ o. elim o [ none ↦ none | some (y, rest) ↦ some y ]) (c.got x [])

abbrev get_number : Bytes → Option (ℕ × Bytes)
get_number [] = none
get_number (n ∷ bs) = some (n, bs)

abbrev pub number : Coder ℕ
number = record { put = λ n. n ∷ []; get = get_number; got = λ n rest. refl }

abbrev put_text : String → Bytes
put_text String.[] = 0 ∷ []
put_text (String.◌∷◌ (char n p) s) = 1 ∷ n ∷ put_text s

abbrev get_text : Bytes → Option (String × Bytes)
get_text [] = none
get_text (zero ∷ bs) = some (String.[], bs)
get_text (suc k ∷ []) = none
get_text (suc k ∷ n ∷ bs) =
    let rest = get_text bs in
    elim (scalar? (compare_ℕ n 55296) (compare_ℕ 57343 n) (compare_ℕ n 1114112)) [
      | none ↦ none
      | some p ↦ elim rest [ none ↦ none | some (s, r) ↦ some (String.◌∷◌ (char n p) s, r) ]
    ]

get_text-put_text : (s : String) (rest : Bytes) → get_text (put_text s ++ rest) ≡ some (s, rest)
get_text-put_text String.[] rest = refl
get_text-put_text (String.◌∷◌ (char n p) s) rest =
    rw
      (
        scalar?-some (compare_ℕ n 55296) (compare_ℕ 57343 n) (compare_ℕ n 1114112) p,
        get_text-put_text s rest,
        get_text,
      )
      refl

string : Coder String
string = record { put = put_text; get = get_text; got = get_text-put_text }

module _ {S T : Type 0} (c : Coder S) (d : Coder T) where
  abbrev get_pair : Bytes → Option ((S × T) × Bytes)
  get_pair bs = elim (c.get bs) [
    | none ↦ none
    | some (x, r) ↦ elim (d.get r) [ none ↦ none | some (y, r') ↦ some ((x, y), r') ]
  ]

  pair : Coder (S × T)
  pair = record {
    put = λ (x, y). c.put x ++ d.put y;
    get = get_pair;
    got = λ (x, y) rest.
        rw
          (append_assoc (c.put x) (d.put y) rest, c.got x (d.put y ++ rest), d.got y rest, get_pair)
          refl;
  }

module _ {T : Type 0} (c : Coder T) where
  abbrev get_option : Bytes → Option (Option T × Bytes)
  get_option [] = none
  get_option (zero ∷ bs) = some (none, bs)
  get_option (suc k ∷ bs) = elim (c.get bs) [ none ↦ none | some (x, r) ↦ some (some x, r) ]

  abbrev put_option : Option T → Bytes
  put_option none = 0 ∷ []
  put_option (some x) = 1 ∷ c.put x

  get_option-put_option :
      (o : Option T) (rest : Bytes) → get_option (put_option o ++ rest) ≡ some (o, rest)
  get_option-put_option none rest = refl
  get_option-put_option (some x) rest = rw (c.got x rest, get_option) refl

  option : Coder (Option T)
  option = record { put = put_option; get = get_option; got = get_option-put_option }

  abbrev put_all : List T → Bytes
  put_all [] = []
  put_all (x ∷ xs) = c.put x ++ put_all xs

  abbrev get_all : ℕ → Bytes → Option (List T × Bytes)
  get_all zero bs = some ([], bs)
  get_all (suc n) bs = elim (c.get bs) [
    | none ↦ none
    | some (x, r) ↦ elim (get_all n r) [ none ↦ none | some (xs, r') ↦ some (x ∷ xs, r') ]
  ]

  get_all-put_all :
      (xs : List T) (rest : Bytes) → get_all (length xs) (put_all xs ++ rest) ≡ some (xs, rest)
  get_all-put_all [] rest = refl
  get_all-put_all (x ∷ xs) rest =
      rw
        (
          append_assoc (c.put x) (put_all xs) rest,
          c.got x (put_all xs ++ rest),
          get_all-put_all xs rest,
          get_all,
        )
        refl

  abbrev get_list : Bytes → Option (List T × Bytes)
  get_list [] = none
  get_list (n ∷ bs) = get_all n bs

  list : Coder (List T)
  list = record { put = λ xs. length xs ∷ put_all xs; get = get_list; got = get_all-put_all }

-- The five arguments, in nested pairs and as one tuple.
abbrev Nested : Type 0
Nested = String × (Bytes × (Option String × HashMap String))

nested : Coder (String × Nested)
nested =
    pair string
      (pair string (pair (list number) (pair (option string) (list (pair string string)))))

abbrev get_created : Bytes → Option (Created × Bytes)
get_created bs = elim (nested.get bs) [
  | none ↦ none
  | some ((id, (event_type, (payload, (destination, metadata)))), r) ↦
      some ((id, event_type, payload, destination, metadata), r)
]

created_coder : Coder Created
created_coder = record {
  put = λ (id, event_type, payload, destination, metadata).
      nested.put (id, (event_type, (payload, (destination, metadata))));
  get = get_created;
  got = λ (id, event_type, payload, destination, metadata) rest.
      rw (nested.got (id, (event_type, (payload, (destination, metadata)))) rest, get_created) refl;
}

pub outbox_codecs : OutboxCodecs
outbox_codecs = record {
  created = codec_of created_coder;
  claimed = codec_of (pair string number);
  text = codec_of string;
  unit = record { serialize = λ x. []; deserialize = λ bs. some tt };
  decode_error = "decode";
}

pub outbox_codecs-AreLossless : AreLossless outbox_codecs
unfolding outbox_codecs
outbox_codecs-AreLossless = record {
  created = codec_of-IsLossless created_coder;
  claimed = codec_of-IsLossless (pair string number);
  text = codec_of-IsLossless string;
}

-- A codec for single numbers, which loses nothing.
unfoldable pub number_codec : Codec ℕ
number_codec = codec_of number

pub number_codec-IsLossless : IsLossless number_codec
unfolding number_codec
number_codec-IsLossless = codec_of-IsLossless number
