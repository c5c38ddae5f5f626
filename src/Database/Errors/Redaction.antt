-- ===== src/Database/Errors/Redaction.antt =====
-- `_sanitize_params` of backend/core/infrastructure/database/error_handler.py: what of the parameters of
-- a query reaches the log. The text that Python writes for the result is left out.
use backend_prod_ready.Prelude.{
  Bool, List, Text, [], any, ap, codes, if◌then◌else◌, inl, inr, is_empty, length, ltb, refl,
  starts_with, true, ◌&&◌, ◌∷◌, ◌≡◌, ◌⊎◌,
}

-- SENSITIVE_FIELD_PATTERNS
abbrev pub sensitive_field_patterns : List Text
sensitive_field_patterns =
    codes "password"
    ∷ codes "passwd"
    ∷ codes "pwd"
    ∷ codes "secret"
    ∷ codes "token"
    ∷ codes "api_key"
    ∷ codes "apikey"
    ∷ codes "api-key"
    ∷ codes "access_token"
    ∷ codes "refresh_token"
    ∷ codes "auth"
    ∷ codes "authorization"
    ∷ codes "credential"
    ∷ codes "private_key"
    ∷ codes "privatekey"
    ∷ codes "credit_card"
    ∷ codes "creditcard"
    ∷ codes "card_number"
    ∷ codes "cvv"
    ∷ codes "ssn"
    ∷ codes "social_security"
    ∷ []

-- `pattern in text`
unfoldable pub contains : Text → Text → Bool
contains pattern [] = is_empty pattern
contains pattern (c ∷ s) =
    let rest = contains pattern s in if starts_with pattern (c ∷ s) then true else rest

-- The parameters of a query.
pub data Params (V : Type 0) : Type 0 where
  no_params : Params V
  -- a dict, in its order
  named : List (Text × V) → Params V
  -- a tuple or a list
  positional : List V → Params V

-- `str.lower`, `str(value) if value is not None else ""`, `str.isalnum`, and REDACTED_VALUE
module _ {V : Type 0} (lower : Text → Text) (text_of : V → Text) (is_alnum : Text → Bool)
    (redacted_value : V) where
  -- A key with a sensitive pattern in it.
  abbrev pub is_sensitive : Text → Bool
  is_sensitive key = any (λ pattern. contains pattern (lower key)) sensitive_field_patterns

  -- A value that looks like a token.
  abbrev pub is_secret : V → Bool
  is_secret v = ltb 32 (length (text_of v)) && is_alnum (text_of v)

  unfoldable pub sanitize_named : List (Text × V) → List (Text × V)
  sanitize_named [] = []
  sanitize_named ((key, v) ∷ params) =
      (key, if is_sensitive key then redacted_value else v) ∷ sanitize_named params

  unfoldable pub sanitize_positional : List V → List V
  sanitize_positional [] = []
  sanitize_positional (v ∷ params) =
      (if is_secret v then redacted_value else v) ∷ sanitize_positional params

  -- `_sanitize_params`
  unfoldable pub sanitize_params : Params V → Params V
  unfolding sanitize_named sanitize_positional
  sanitize_params no_params = no_params
  sanitize_params (named params) = named (sanitize_named params)
  sanitize_params (positional params) = positional (sanitize_positional params)

  abbrev SameNamed : List (Text × V) → List (Text × V) → Type 0
  SameNamed [] [] = Unit
  SameNamed ((j, v) ∷ d) ((k, w) ∷ e) =
      (j ≡ k) × ((is_sensitive j ≡ true) ⊎ (v ≡ w)) × SameNamed d e
  SameNamed _ _ = ⊥

  abbrev SamePositional : List V → List V → Type 0
  SamePositional [] [] = Unit
  SamePositional (v ∷ xs) (w ∷ ys) =
      (((is_secret v ≡ true) × (is_secret w ≡ true)) ⊎ (v ≡ w)) × SamePositional xs ys
  SamePositional _ _ = ⊥

  -- The same parameters but for the values of sensitive keys, or for positional values that look like
  -- tokens.
  abbrev pub SameButSecrets : Params V → Params V → Type 0
  SameButSecrets no_params no_params = Unit
  SameButSecrets (named d) (named e) = SameNamed d e
  SameButSecrets (positional xs) (positional ys) = SamePositional xs ys
  SameButSecrets _ _ = ⊥

  same_named : (d e : List (Text × V)) → SameNamed d e → sanitize_named d ≡ sanitize_named e
  unfolding sanitize_named
  same_named [] [] h = refl
  same_named [] ((k, w) ∷ e) h = absurd h
  same_named ((j, v) ∷ d) [] h = absurd h
  same_named ((j, v) ∷ d) ((k, w) ∷ e) (same, inl hidden, rest) =
      rw (← same, hidden, same_named d e rest)
  same_named ((j, v) ∷ d) ((k, w) ∷ e) (same, inr shown, rest) =
      rw (← same, shown, same_named d e rest)

  same_positional :
      (xs ys : List V) → SamePositional xs ys → sanitize_positional xs ≡ sanitize_positional ys
  unfolding sanitize_positional
  same_positional [] [] h = refl
  same_positional [] (w ∷ ys) h = absurd h
  same_positional (v ∷ xs) [] h = absurd h
  same_positional (v ∷ xs) (w ∷ ys) (inl (a, b), rest) = rw (a, b, same_positional xs ys rest)
  same_positional (v ∷ xs) (w ∷ ys) (inr shown, rest) = rw (shown, same_positional xs ys rest)

  -- What reaches the log does not depend on secrets: parameters that differ only in the values of
  -- sensitive keys, or in positional values that look like tokens, are logged alike.
  pub sanitize_params_hides :
      (p q : Params V) → SameButSecrets p q → sanitize_params p ≡ sanitize_params q
  unfolding sanitize_params
  sanitize_params_hides no_params no_params h = refl
  sanitize_params_hides (named d) (named e) h = ap named (same_named d e h)
  sanitize_params_hides (positional xs) (positional ys) h = ap positional (same_positional xs ys h)
  sanitize_params_hides no_params (named e) h = absurd h
  sanitize_params_hides no_params (positional ys) h = absurd h
  sanitize_params_hides (named d) no_params h = absurd h
  sanitize_params_hides (named d) (positional ys) h = absurd h
  sanitize_params_hides (positional xs) no_params h = absurd h
  sanitize_params_hides (positional xs) (named e) h = absurd h
