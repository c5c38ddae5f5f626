-- ===== src/Responses/Answers/Shape.antt =====
-- The shape of what a client sees of an exception: `{"success": false, "error": {…}}` of
-- backend/core/exceptions/handlers.py.
use backend_prod_ready.Prelude.{
  Bool, Option, Text, [], false, if◌then◌else◌, refl, some, true, ℕ, ◌∷◌, ◌≡◌,
}
use backend_prod_ready.Responses.{build_error_response, Context, Json, Response, or_empty, shown}
use backend_prod_ready.Responses.Service.{ServiceException, to_response, response_context}
use backend_prod_ready.Responses.Handlers.{
  Request, domain_exception_handler, http_exception_handler, service_exception_handler,
  unhandled_exception_handler,
}
use backend_prod_ready.Responses.Validation.{validation_failure, validation_exception}
use backend_prod_ready.Responses.RateLimit.{rate_limit_exceeded_handler}
use backend_prod_ready.Responses.Registered.{
  IsByClass, Lookup, Raised, another, domain, http, pydantic_invalid, rate_limited, request_invalid,
  respond, service,
}
use backend_prod_ready.Responses.Answers.{is_plain, answer, respond_exact}

-- A context that is there and empty.
abbrev pub is_empty_context : Option Context → Bool
is_empty_context (some []) = true
is_empty_context _ = false

shown_lem : (context : Context) → is_empty_context (shown context) ≡ false
shown_lem [] = refl
shown_lem (entry ∷ context) = refl

-- success is false, and the context is not empty if it is there.
unfoldable pub IsShaped : Response → Type 0
IsShaped response = (response.success ≡ false) × (is_empty_context response.context ≡ false)

build_IsShaped :
    (status_code : ℕ) (code message : Text) (context : Option Context)
    → IsShaped (build_error_response status_code code message context)
unfolding IsShaped build_error_response
build_IsShaped status_code code message context = (refl, shown_lem (or_empty context))

if_IsShaped : (b : Bool) (x y : Response) → IsShaped x → IsShaped y → IsShaped (if b then x else y)
if_IsShaped true x y p q = p
if_IsShaped false x y p q = q

to_response-IsShaped : (exc : ServiceException) → IsShaped (to_response exc)
unfolding IsShaped to_response
to_response-IsShaped exc = (refl, shown_lem (response_context exc))

rate_limit-IsShaped : (detail : Option Text) → IsShaped (rate_limit_exceeded_handler detail)
unfolding IsShaped rate_limit_exceeded_handler
rate_limit-IsShaped detail = (refl, refl)

answer-IsShaped :
    (str : Json → Text) (request : Request) (exc : Raised) → IsShaped (answer str request exc)
unfolding validation_exception service_exception_handler http_exception_handler
    domain_exception_handler unhandled_exception_handler
answer-IsShaped str request (request_invalid errors) =
    to_response-IsShaped (validation_failure errors)
answer-IsShaped str request (pydantic_invalid errors) =
    to_response-IsShaped (validation_failure errors)
answer-IsShaped str request (rate_limited detail) = rate_limit-IsShaped detail
answer-IsShaped str request (service names exc) = to_response-IsShaped exc
answer-IsShaped str request (http exc) = search (if_IsShaped, build_IsShaped)
answer-IsShaped str request (domain exc) = search build_IsShaped
answer-IsShaped str request (another names exc) = search build_IsShaped

module _ (str : Json → Text) (lookup : Lookup) (by_class : IsByClass lookup) where
  -- Every exception is answered with success false and with no context or one that is not empty, if
  -- the classes between its own and the first that has a handler have none, under a lookup that takes
  -- the first class with a handler.
  pub respond-shape :
      (request : Request) (exc : Raised)
      → is_plain exc ≡ true
      → (response : Response) × (respond str lookup request exc ≡ some response) × IsShaped response
  respond-shape request exc h = (
    answer str request exc,
    respond_exact str lookup by_class request exc h,
    answer-IsShaped str request exc,
  )
