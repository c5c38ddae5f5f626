-- ===== src/Responses/Logged.antt =====
-- `ServiceErrorHandler` of backend/core/exceptions/error_handler.py: what it logs of a call that
-- failed, and what it raises. The exceptions, their classes and the arguments of the decorated
-- function are parameters. An extractor that raises IndexError, AttributeError or TypeError gives
-- none here; that it raises anything else is left out.
pub mod Secrets
use backend_prod_ready.Prelude.{
  Bool, List, Option, Text, [], any, codes, false, if◌then◌else◌, lower, map, none, some, true, ◌∷◌,
}
use backend_prod_ready.Dict.{Dict, find, put}
use backend_prod_ready.Responses.{Context, Json, is_truthy, text}
use backend_prod_ready.Responses.Validation.{has_text}

-- `SENSITIVE_FIELDS`
abbrev pub sensitive_fields : List Text
sensitive_fields =
    codes "password"
    ∷ codes "token"
    ∷ codes "secret"
    ∷ codes "api_key"
    ∷ codes "authorization"
    ∷ codes "access_token"
    ∷ codes "refresh_token"
    ∷ codes "credential"
    ∷ codes "private_key"
    ∷ []

-- `name.lower() in SENSITIVE_FIELDS`
unfoldable pub is_sensitive : Text → Bool
is_sensitive key = has_text sensitive_fields (lower key)

-- Python's exceptions: `isinstance`, `str`, `type(e).__name__`, and the two ways to make one, the
-- first of which may raise TypeError.
pub record Exceptions : Type 1 where
  pub Exc : Type 0
  pub Class : Type 0
  pub is_instance : Exc → Class → Bool
  pub str : Exc → Text
  pub type_name : Exc → Text
  pub with_message : Class → Text → Option Exc
  pub without_message : Class → Exc

module _ (exceptions : Exceptions) (Value : Type 0) where
  open exceptions use {Exc, Class, is_instance, str, type_name, with_message, without_message}

  abbrev pub Extractor : Type 0
  Extractor = Value → Option Json

  pub record ErrorHandler : Type 0 where
    pub default_exception : Class
    pub exception_map : List (Class × Class)
    pub preserve_exceptions : List Class
    pub context_extractors : Dict Extractor

  -- `__init__`, with the extractor that it adds for the identifier of a user
  unfoldable pub init :
      Extractor → Class → List (Class × Class) → List Class → Dict Extractor → ErrorHandler
  init safe_get_id_str default_exception exception_map preserve_exceptions context_extractors =
      record {
        default_exception = default_exception;
        exception_map = exception_map;
        preserve_exceptions = preserve_exceptions;
        context_extractors = put (codes "user_id") safe_get_id_str context_extractors;
      }

  -- The loop over the keyword arguments: the first extracted value that is truthy.
  unfoldable pub extract_kwargs : Extractor → Dict Value → Option Json
  extract_kwargs extractor [] = none
  extract_kwargs extractor ((key, value) ∷ kwargs) =
      let rest = extract_kwargs extractor kwargs in
      if is_sensitive key then rest else elim (extractor value) [
        | none ↦ none
        | some extracted ↦ if is_truthy extracted then some extracted else rest
      ]

  -- What one extractor finds: `args[1] if len(args) > 1 else args[0]`, else the keyword arguments.
  unfoldable pub extract_one : Extractor → List Value → Dict Value → Option Json
  extract_one extractor [] kwargs = extract_kwargs extractor kwargs
  extract_one extractor (a ∷ []) kwargs = extractor a
  extract_one extractor (_ ∷ a ∷ _) kwargs = extractor a

  abbrev pub add_found : Text → Option Json → Context → Context
  add_found key none context = context
  add_found key (some extracted) context = put key extracted context

  -- The loop of `_extract_context` from the context that is there.
  unfoldable pub extract_from : Dict Extractor → List Value → Dict Value → Context → Context
  extract_from [] args kwargs context = context
  extract_from ((field, extractor) ∷ extractors) args kwargs context = elim (is_sensitive field) [
    | true ↦ extract_from extractors args kwargs context
    | false ↦
        extract_from extractors args kwargs
          (add_found field (extract_one extractor args kwargs) context)
  ]

  -- `_extract_context`
  unfoldable pub extract_context : ErrorHandler → List Value → Dict Value → Context
  extract_context handler args kwargs = extract_from handler.context_extractors args kwargs []

  -- A new exception, with the message if its class takes one.
  abbrev pub make : Class → Text → Exc
  make class message = elim (with_message class message) [
    | some exc ↦ exc
    | none ↦ without_message class
  ]

  -- `_get_target_exception` over the map
  unfoldable pub target_from : List (Class × Class) → Class → Exc → Exc
  target_from [] default_exception exc = make default_exception (str exc)
  target_from ((source, target) ∷ map) default_exception exc =
      let rest = target_from map default_exception exc in
      if is_instance exc source then make target (str exc) else rest

  -- `_get_target_exception`
  unfoldable pub get_target_exception : ErrorHandler → Exc → Exc
  get_target_exception handler exc = target_from handler.exception_map handler.default_exception exc

  -- What leaves the decorated function: the exception itself, or a new one after a log with a context.
  pub data Outcome : Type 0 where
    preserved : Exc → Outcome
    replaced : Context → Exc → Outcome

  -- The context of the log, for a function with a name.
  unfoldable pub log_context : ErrorHandler → Exc → Text → List Value → Dict Value → Context
  log_context handler exc func args kwargs = put (codes "error_type") (text (type_name exc)) (
      put (codes "error") (text (str exc))
        (put (codes "function") (text func) (extract_context handler args kwargs)))

  -- `_handle_exception`
  unfoldable pub handle_exception : ErrorHandler → Exc → Text → List Value → Dict Value → Outcome
  handle_exception handler exc func args kwargs =
      if any (is_instance exc) handler.preserve_exceptions
      then preserved exc
      else replaced (log_context handler exc func args kwargs) (get_target_exception handler exc)
