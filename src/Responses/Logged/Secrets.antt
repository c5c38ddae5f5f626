-- ===== src/Responses/Logged/Secrets.antt =====
-- What the log of backend/core/exceptions/error_handler.py keeps to itself.
use backend_prod_ready.Prelude.{
  List, Text, [], none, refl, true, ◌∷◌, ◌≡◌, Bool-cases, Option, ap, codes, false, inl, inr, some,
  text_eq, text_eq_iff, arith,
}
use backend_prod_ready.Dict.{Dict, find, put}
use backend_prod_ready.Dict.Laws.{find-put}
use backend_prod_ready.Responses.{Context, Json}
use backend_prod_ready.Responses.Logged.{
  ErrorHandler, Exceptions, Extractor, extract_context, extract_from, extract_kwargs, extract_one,
  handle_exception, is_sensitive, log_context, add_found,
}

plain_function : is_sensitive (codes "function") ≡ false
unfolding is_sensitive text_eq
plain_function = refl

plain_error : is_sensitive (codes "error") ≡ false
unfolding is_sensitive text_eq
plain_error = refl

plain_error_type : is_sensitive (codes "error_type") ≡ false
unfolding is_sensitive text_eq
plain_error_type = refl

-- An entry under a key that is not sensitive is not under one that is.
put_plain :
    (field key : Text) (value : Json) (context : Context)
    → is_sensitive field ≡ false
    → is_sensitive key ≡ true
    → find key context ≡ none
    → find key (put field value context) ≡ none
put_plain field key value context plain h k = elim (Bool-cases (text_eq field key)) [
  | inl same ↦ absurd (cc (plain, h, ap is_sensitive ((text_eq_iff field key).0 same)))
  | inr other ↦ rw (find-put field key value context, other) k
]

module _ (exceptions : Exceptions) (Value : Type 0) where
  open exceptions use {Exc}

  -- Keyword arguments that differ only in the values of sensitive keys.
  pub data Alike : Dict Value → Dict Value → Type 0 where
    nil : Alike [] []
    same :
        {kwargs others : Dict Value} (key : Text) (value : Value)
        → Alike kwargs others
        → Alike ((key, value) ∷ kwargs) ((key, value) ∷ others)
    secret :
        {kwargs others : Dict Value} (key : Text) (value other : Value)
        → is_sensitive key ≡ true
        → Alike kwargs others
        → Alike ((key, value) ∷ kwargs) ((key, other) ∷ others)

  extract_kwargs-Alike :
      (extractor : Extractor exceptions Value) {kwargs others : Dict Value}
      → Alike kwargs others
      → extract_kwargs exceptions Value extractor kwargs
        ≡ extract_kwargs exceptions Value extractor others
  unfolding extract_kwargs
  extract_kwargs-Alike extractor nil = refl
  extract_kwargs-Alike extractor (same key value alike) =
      ground (arith, extract_kwargs-Alike extractor alike)
  extract_kwargs-Alike extractor (secret key value other h alike) =
      ground (arith, extract_kwargs-Alike extractor alike)

  extract_one-Alike :
      (extractor : Extractor exceptions Value) (args : List Value) {kwargs others : Dict Value}
      → Alike kwargs others
      → extract_one exceptions Value extractor args kwargs
        ≡ extract_one exceptions Value extractor args others
  unfolding extract_one
  extract_one-Alike extractor [] alike = extract_kwargs-Alike extractor alike
  extract_one-Alike extractor (a ∷ []) alike = refl
  extract_one-Alike extractor (a ∷ b ∷ args) alike = refl

  extract_from-Alike :
      (extractors : Dict (Extractor exceptions Value)) (args : List Value)
      {kwargs others : Dict Value}
      → Alike kwargs others
      → (context : Context)
      → extract_from exceptions Value extractors args kwargs context
        ≡ extract_from exceptions Value extractors args others context
  unfolding extract_from
  extract_from-Alike [] args alike context = refl
  extract_from-Alike ((field, extractor) ∷ extractors) args alike context =
      elim (Bool-cases (is_sensitive field)) [
        | inl hidden ↦ rw (extract_from, hidden) (extract_from-Alike extractors args alike context)
        | inr plain ↦
            rw (extract_from, plain, extract_one-Alike extractor args alike)
              (extract_from-Alike extractors args alike _)
      ]

  -- Calls whose keyword arguments differ only in the values of sensitive keys end alike, with the same
  -- log.
  pub handle_exception-Alike :
      (handler : ErrorHandler exceptions Value) (exc : Exc) (func : Text) (args : List Value)
      (kwargs others : Dict Value)
      → Alike kwargs others
      → handle_exception exceptions Value handler exc func args kwargs
        ≡ handle_exception exceptions Value handler exc func args others
  unfolding handle_exception log_context extract_context
  handle_exception-Alike handler exc func args kwargs others alike =
      rw (extract_from-Alike handler.context_extractors args alike []) refl

  add_found-sensitive :
      (field key : Text) (found : Option Json) (context : Context)
      → is_sensitive field ≡ false
      → is_sensitive key ≡ true
      → find key context ≡ none
      → find key (add_found exceptions Value field found context) ≡ none
  add_found-sensitive field key none context plain h k = k
  add_found-sensitive field key (some extracted) context plain h k =
      put_plain field key extracted context plain h k

  extract_from-sensitive :
      (extractors : Dict (Extractor exceptions Value)) (args : List Value) (kwargs : Dict Value)
      (context : Context) (key : Text)
      → is_sensitive key ≡ true
      → find key context ≡ none
      → find key (extract_from exceptions Value extractors args kwargs context) ≡ none
  unfolding extract_from
  extract_from-sensitive [] args kwargs context key h k = k
  extract_from-sensitive ((field, extractor) ∷ extractors) args kwargs context key h k =
      elim (Bool-cases (is_sensitive field)) [
        | inl hidden ↦
            rw (extract_from, hidden)
              (extract_from-sensitive extractors args kwargs context key h k)
        | inr plain ↦
            rw (extract_from, plain)
              (extract_from-sensitive extractors args kwargs
                (add_found exceptions Value field
                  (extract_one exceptions Value extractor args kwargs) context)
                key h
                (add_found-sensitive field key (extract_one exceptions Value extractor args kwargs)
                  context plain h k))
      ]

  -- The log of a call that failed has nothing under a sensitive key.
  pub log_context-sensitive :
      (handler : ErrorHandler exceptions Value) (exc : Exc) (func : Text) (args : List Value)
      (kwargs : Dict Value) (key : Text)
      → is_sensitive key ≡ true
      → find key (log_context exceptions Value handler exc func args kwargs) ≡ none
  unfolding log_context extract_context
  log_context-sensitive handler exc func args kwargs key h =
      put_plain (codes "error_type") key _ _ plain_error_type h (
        put_plain (codes "error") key _ _ plain_error h (
          put_plain (codes "function") key _ _ plain_function h (
            extract_from-sensitive handler.context_extractors args kwargs [] key h
              (unfold find in refl))))
