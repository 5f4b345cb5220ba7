-- ===== src/Macros/Reading.antt =====
-- sourced_rust_macros/src/lib.rs: the arguments of the macros come back from the tokens that spell them.
use sourced_rust.Prelude.{
  ℕ, String, Bool, true, false, Option, none, some, List, [], ◌∷◌, ◌++◌, ◌≡◌, refl,
}
use sourced_rust.Macros.Arguments.{
  Token, lit_str, lit_int, ident, comma, equals, expr, whole, DigestArgs, EnqueueArgs,
  parse_event_args, parse_digest_args, parse_enqueue_args, parse_keywords, parse_field, parse_when,
}

module _ {X : Type 0} where
  unfoldable pub guard_tokens : Option X → List (Token X)
  guard_tokens none = []
  guard_tokens (some x) = comma ∷ ident "when" ∷ equals ∷ expr x ∷ []

  unfoldable pub version_tokens : Option ℕ → List (Token X)
  version_tokens none = []
  version_tokens (some n) = comma ∷ ident "version" ∷ equals ∷ lit_int n ∷ []

  -- The two keywords in either order.
  unfoldable pub keyword_tokens : Bool → Option X → Option ℕ → List (Token X)
  unfolding guard_tokens version_tokens
  keyword_tokens true guard version = guard_tokens guard ++ version_tokens version
  keyword_tokens false guard version = version_tokens version ++ guard_tokens guard

  parse_keywords-tokens :
      (order : Bool) (guard : Option X) (version : Option ℕ)
      → parse_keywords none none (keyword_tokens order guard version) ≡ some ((guard, version), [])
  unfolding parse_keywords keyword_tokens
  parse_keywords-tokens true none none = refl
  parse_keywords-tokens true none (some n) = refl
  parse_keywords-tokens true (some x) none = refl
  parse_keywords-tokens true (some x) (some n) = refl
  parse_keywords-tokens false none none = refl
  parse_keywords-tokens false none (some n) = refl
  parse_keywords-tokens false (some x) none = refl
  parse_keywords-tokens false (some x) (some n) = refl

  parse_when-tokens : (guard : Option X) → parse_when (guard_tokens guard) ≡ some (guard, [])
  unfolding parse_when guard_tokens
  parse_when-tokens none = refl
  parse_when-tokens (some x) = refl

  -- An event, with or without a guard and a version, in either order, is read as written: by `event`,
  -- and by `digest` behind a field or, for the field `entity`, behind nothing; `enqueue` reads an event
  -- with or without a guard alike, where the field left out is `emitter`.
  pub parse_args-tokens :
      (order : Bool) (field name : String) (guard : Option X) (version : Option ℕ)
      → let ts = keyword_tokens order guard version in
        let args : String → DigestArgs X =
          λ f. record { entity_field = f; event_name = name; guard = guard; version = version } in
        let enqueue_args : String → EnqueueArgs X = λ f. record {
          emitter_field = f;
          entity_field = "entity";
          event_name = name;
          guard = guard;
        } in
        (whole parse_event_args (lit_str name ∷ ts)
          ≡ some (record { event_name = name; guard = guard; version = version }))
        × (whole parse_digest_args (lit_str name ∷ ts) ≡ some (args "entity"))
        × (whole parse_digest_args (ident field ∷ comma ∷ lit_str name ∷ ts) ≡ some (args field))
        × (whole parse_enqueue_args (lit_str name ∷ guard_tokens guard)
            ≡ some (enqueue_args "emitter"))
        × (whole parse_enqueue_args (ident field ∷ comma ∷ lit_str name ∷ guard_tokens guard)
            ≡ some (enqueue_args field))
  unfolding whole parse_event_args parse_digest_args parse_enqueue_args parse_field
  parse_args-tokens order field name guard version =
      let keywords = parse_keywords-tokens order guard version in
      (
        rw keywords refl,
        rw keywords refl,
        rw keywords refl,
        rw (parse_when-tokens guard) refl,
        rw (parse_when-tokens guard) refl,
      )
