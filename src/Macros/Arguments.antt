-- ===== src/Macros/Arguments.antt =====
-- sourced_rust_macros/src/lib.rs: the arguments of the macros and their parsers. An error of
-- the crate syn is `none`; an expression is one token.
use sourced_rust.Prelude.{ℕ, String, Option, none, some, List, [], ◌∷◌, str_eq, if◌then◌else◌}

infixl 5 ◌>>=◌
abbrev pub ◌>>=◌ : {A B : Type 0} → Option A → (A → Option B) → Option B
none >>= f = none
some a >>= f = f a

pub data Token (X : Type 0) : Type 0 where
  lit_str ident : String → Token X
  lit_int : ℕ → Token X
  comma equals : Token X
  expr : X → Token X

pub record UpcasterDef : Type 0 where
  pub event_name : String
  pub from_version : ℕ
  pub to_version : ℕ
  pub transform_fn : String

pub record DigestArgs (X : Type 0) : Type 0 where
  pub entity_field : String
  pub event_name : String
  pub guard : Option X
  pub version : Option ℕ

pub record EnqueueArgs (X : Type 0) : Type 0 where
  pub emitter_field : String
  pub entity_field : String
  pub event_name : String
  pub guard : Option X

-- Without arguments for the method the event's are passed.
pub record EventDef : Type 0 where
  pub event_name : String
  pub args : List String
  pub method_name : String
  pub method_args : Option (List String)

pub record AggregateInput : Type 0 where
  pub agg_name : String
  pub entity_field : String
  pub events : List EventDef
  pub upcasters : List UpcasterDef

pub record SourcedArgs : Type 0 where
  pub entity_field : String
  pub enum_name : Option String
  pub enqueue : Option String
  pub upcasters : List UpcasterDef

pub record EventAttr (X : Type 0) : Type 0 where
  pub event_name : String
  pub guard : Option X
  pub version : Option ℕ

-- What a parser makes of the tokens: a value and the tokens that it leaves, or an error of syn.
abbrev pub Parser : Type 0 → Type 0 → Type 0
Parser X A = List (Token X) → Option (A × List (Token X))

-- `parse_args_with` and `parse_macro_input!` refuse tokens that the parser leaves.
unfoldable pub whole : {X A : Type 0} → Parser X A → List (Token X) → Option A
whole parser tokens = do (a, rest) ← parser tokens; elim rest [ [] ↦ some a | t ∷ ts ↦ none ]

module _ {X : Type 0} where
  -- `while input.peek(Token![,])`, with the guard and the version found so far. Behind a comma that no
  -- known keyword follows nothing is taken, and the loop goes on only at another comma.
  unfoldable pub parse_keywords : Option X → Option ℕ → Parser X (Option X × Option ℕ)
  parse_keywords guard version (comma ∷ ident kw ∷ equals ∷ t ∷ ts) =
      if str_eq kw "when"
      then elim t [ expr x ↦ parse_keywords (some x) version ts | _ ↦ none ]
      else if str_eq kw "version"
      then elim t [ lit_int n ↦ parse_keywords guard (some n) ts | _ ↦ none ]
      else some ((guard, version), ident kw ∷ equals ∷ t ∷ ts)
  parse_keywords guard version (comma ∷ ident kw ∷ ts) =
      if str_eq kw "when"
      then none
      else if str_eq kw "version"
      then none
      else some ((guard, version), ident kw ∷ ts)
  parse_keywords guard version (comma ∷ ts) = parse_keywords guard version ts
  parse_keywords guard version ts = some ((guard, version), ts)

  unfoldable pub parse_event_args : Parser X (EventAttr X)
  unfolding parse_keywords
  parse_event_args (lit_str name ∷ ts) = do
    ((guard, version), rest) ← parse_keywords none none ts
    some (record { event_name = name; guard = guard; version = version }, rest)
  parse_event_args ts = none

  -- The name of a field before the event is optional.
  unfoldable pub parse_field : String → Parser X (String × String)
  parse_field default (lit_str name ∷ ts) = some ((default, name), ts)
  parse_field default (ident field ∷ comma ∷ lit_str name ∷ ts) = some ((field, name), ts)
  parse_field default ts = none

  unfoldable pub parse_digest_args : Parser X (DigestArgs X)
  unfolding parse_field parse_keywords
  parse_digest_args tokens = do
    ((field, name), ts) ← parse_field "entity" tokens
    ((guard, version), rest) ← parse_keywords none none ts
    some
        (record { entity_field = field; event_name = name; guard = guard; version = version }, rest)

  -- One optional `when`, and no loop.
  unfoldable pub parse_when : Parser X (Option X)
  parse_when (comma ∷ ident kw ∷ ts) =
      if str_eq kw "when"
      then elim ts [ equals ∷ expr x ∷ rest ↦ some (some x, rest) | _ ↦ none ]
      else some (none, ident kw ∷ ts)
  parse_when (comma ∷ ts) = some (none, ts)
  parse_when ts = some (none, ts)

  unfoldable pub parse_enqueue_args : Parser X (EnqueueArgs X)
  unfolding parse_field parse_when
  parse_enqueue_args tokens = do
    ((field, name), ts) ← parse_field "emitter" tokens
    (guard, rest) ← parse_when ts
    some (
      record { emitter_field = field; entity_field = "entity"; event_name = name; guard = guard },
      rest,
    )
