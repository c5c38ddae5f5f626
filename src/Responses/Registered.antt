-- ===== src/Responses/Registered.antt =====
-- `_configure_exception_handlers` of backend/features/main.py: which handler answers which exception.
-- Starlette's lookup of a handler is a parameter.
use backend_prod_ready.Prelude.{
  Bool, List, Option, Text, [], all, codes, is_none, map, none, some, ◌++◌, ◌∷◌, ◌≡◌,
}
use backend_prod_ready.Dict.{Dict, find}
use backend_prod_ready.Responses.{Json, Response}
use backend_prod_ready.Responses.Service.{ServiceException}
use backend_prod_ready.Responses.Domain.{DomainError, class_name, mro}
use backend_prod_ready.Responses.Handlers.{
  HttpException, Request, domain_exception_handler, http_exception_handler,
  service_exception_handler, unhandled_exception_handler,
}
use backend_prod_ready.Responses.Validation.{ErrorDetails, validation_exception}
use backend_prod_ready.Responses.RateLimit.{rate_limit_exceeded_handler}

pub data Handler : Type 0 where
  validation_handler rate_limit_handler service_handler : Handler
  http_handler domain_handler unhandled_handler : Handler

-- The table of the handlers, by the name of the class. RequestValidationError and the
-- ValidationError of pydantic_core have the same handler.
abbrev pub registered : Dict Handler
registered =
    (codes "RequestValidationError", validation_handler)
    ∷ (codes "pydantic_core.ValidationError", validation_handler)
    ∷ (codes "RateLimitExceeded", rate_limit_handler)
    ∷ (codes "ServiceException", service_handler)
    ∷ (codes "HTTPException", http_handler)
    ∷ (codes "DomainError", domain_handler)
    ∷ (codes "Exception", unhandled_handler)
    ∷ []

-- An exception with what its handler reads. The classes of a service exception below
-- ServiceException, and of another exception, are given by name.
pub data Raised : Type 0 where
  request_invalid pydantic_invalid : List ErrorDetails → Raised
  rate_limited : Option Text → Raised
  service : List Text → ServiceException → Raised
  http : HttpException → Raised
  domain : DomainError → Raised
  another : List Text → Text → Raised

-- The names of the classes of an exception, `type(exc).__mro__` up to Exception.
unfoldable pub classes : Raised → List Text
unfolding class_name mro
classes (request_invalid _) = codes "RequestValidationError" ∷ codes "Exception" ∷ []
classes (pydantic_invalid _) =
    codes "pydantic_core.ValidationError" ∷ codes "ValueError" ∷ codes "Exception" ∷ []
classes (rate_limited _) =
    codes "RateLimitExceeded" ∷ codes "HTTPException" ∷ codes "Exception" ∷ []
classes (service names _) =
    names ++ codes "ServiceException" ∷ codes "HTTPException" ∷ codes "Exception" ∷ []
classes (http _) = codes "HTTPException" ∷ codes "Exception" ∷ []
classes (domain exc) = map class_name (mro exc.class) ++ codes "Exception" ∷ []
classes (another names _) = names ++ codes "Exception" ∷ []

-- Starlette's lookup of the handler for the classes of an exception.
abbrev pub Lookup : Type 0
Lookup = List Text → Dict Handler → Option Handler

-- It goes through the classes in their order and takes the first that has a handler.
pub record IsByClass (lookup : Lookup) : Type 0 where
  pub lookup_nil : (table : Dict Handler) → lookup [] table ≡ none
  pub lookup_cons :
      (name : Text) (names : List Text) (table : Dict Handler)
      → lookup (name ∷ names) table
        ≡ elim (find name table) [ some h ↦ some h | none ↦ lookup names table ]

-- None of the names has a handler.
abbrev pub is_unregistered : List Text → Bool
is_unregistered names = all (λ name. is_none (find name registered)) names

module _ (str : Json → Text) (lookup : Lookup) where
  -- The exception as the argument of its handler.
  unfoldable pub handle : Request → Raised → Handler → Option Response
  unfolding validation_exception rate_limit_exceeded_handler service_exception_handler
      http_exception_handler domain_exception_handler unhandled_exception_handler
  handle request (request_invalid errors) validation_handler = some (validation_exception errors)
  handle request (pydantic_invalid errors) validation_handler = some (validation_exception errors)
  handle request (rate_limited detail) rate_limit_handler =
      some (rate_limit_exceeded_handler detail)
  handle request (service _ exc) service_handler = some (service_exception_handler exc)
  handle request (http exc) http_handler = some (http_exception_handler str request exc)
  handle request (domain exc) domain_handler = some (domain_exception_handler exc)
  handle request (another _ exc) unhandled_handler = some (unhandled_exception_handler exc)
  handle request _ _ = none

  -- The response to an exception, if a handler is found that can read it.
  unfoldable pub respond : Request → Raised → Option Response
  unfolding classes handle
  respond request exc = elim (lookup (classes exc) registered) [
    | none ↦ none
    | some handler ↦ handle request exc handler
  ]
