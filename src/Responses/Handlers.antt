-- ===== src/Responses/Handlers.antt =====
-- The handlers of backend/core/exceptions/handlers.py, of error_to_response.py but for validation
-- errors, of rate_limiting.py, and the formatter of error_formatter.py. `str` of a value that is no
-- text is a parameter.
use backend_prod_ready.Prelude.{
  Bool, Option, Text, [], any, codes, false, if◌then◌else◌, none, some, ℕ, ◌++◌, ◌==◌, ◌∷◌,
}
use backend_prod_ready.Dict.{find, put}
use backend_prod_ready.Responses.{
  Context, Json, Response, build_error_response, decimal, is_truthy, or_empty, shown, text,
}
use backend_prod_ready.Responses.Codes.{ErrorCode, value}
use backend_prod_ready.Responses.Classes.{
  conflict_error, internal_server_error, not_found_error, request_error,
}
use backend_prod_ready.Responses.Service.{ServiceException, init, to_response, no_arguments}
use backend_prod_ready.Responses.Domain.{
  DomainClass, DomainError, mro, aggregate_root_error, ai_generation_error,
  domain_authorization_error, domain_conflict_error, domain_error, domain_invariant_error,
  domain_state_error, domain_validation_error, entity_not_found_error, generation_failed_error,
  prompt_validation_error, quota_exhausted_error, token_limit_exceeded_error,
}

-- What the handlers read of a request.
pub record Request : Type 0 where
  pub path : Text
  pub method : Text

-- An HTTPException of Starlette that is no ServiceException.
pub record HttpException : Type 0 where
  pub status_code : ℕ
  pub detail : Json

-- `context={"path": path, "method": request.method}`
abbrev pub request_context : Request → Context
request_context request =
    (codes "path", text request.path) ∷ (codes "method", text request.method) ∷ []

abbrev pub quoted : Text → Text
quoted t = codes "'" ++ t ++ codes "'"

module _ (str : Json → Text) where
  -- `http_exception_handler`
  unfoldable pub http_exception_handler : Request → HttpException → Response
  unfolding build_error_response value decimal
  http_exception_handler request exc =
      if exc.status_code == 404
      then build_error_response 404 (value ErrorCode.not_found)
          (codes "The requested resource " ++ quoted request.path ++ codes " was not found.")
          (some (request_context request))
      else if exc.status_code == 405
      then build_error_response 405 (value ErrorCode.method_not_allowed)
          (codes "Method "
            ++ quoted request.method
            ++ codes " is not allowed for "
            ++ quoted request.path
            ++ codes ".")
          (some (request_context request))
      else build_error_response exc.status_code (codes "HTTP_" ++ decimal exc.status_code)
          (if is_truthy exc.detail
            then str exc.detail
            else codes "HTTP error " ++ decimal exc.status_code)
          none

  -- `str(exc.detail) if exc.detail else default`
  abbrev pub detail_or : Json → Text → Text
  detail_or detail default = if is_truthy detail then str detail else default

  -- `not_found_exception` of an HTTPException; of a NotFoundError it is `to_response`
  unfoldable pub not_found_exception : HttpException → Response
  unfolding to_response init
  not_found_exception exc = to_response (
      init not_found_error (record no_arguments {
        message = some (detail_or exc.detail (codes "Resource not found"));
      }))

  -- `bad_request_exception`, likewise
  unfoldable pub bad_request_exception : HttpException → Response
  unfolding to_response init
  bad_request_exception exc = to_response (
      init request_error
        (record no_arguments { message = some (detail_or exc.detail (codes "Bad request")) }))

  -- `conflict_exception`, likewise
  unfoldable pub conflict_exception : HttpException → Response
  unfolding to_response init
  conflict_exception exc = to_response (
      init conflict_error
        (record no_arguments { message = some (detail_or exc.detail (codes "Conflict")) }))

  -- `exc.meta.get("retry_after", 60)`, as text
  abbrev pub retry_after : Context → Text
  retry_after meta = elim (find (codes "retry_after") meta) [ none ↦ codes "60" | some v ↦ str v ]

  -- `service_unavailable_exception`
  unfoldable pub service_unavailable_exception : ServiceException → Response
  unfolding to_response decimal
  service_unavailable_exception exc = record (to_response exc) {
    headers = put (codes "Retry-After") (retry_after exc.meta) [];
  }

-- `server_error_exception`, of an exception with the given `str`
unfoldable pub server_error_exception : Text → Response
unfolding to_response init
server_error_exception exc =
    to_response (init internal_server_error (record no_arguments { message = some exc }))

-- `service_exception_handler`
unfoldable pub service_exception_handler : ServiceException → Response
unfolding to_response
service_exception_handler exc = to_response exc

-- The classes are distinct.
unfoldable pub tag : DomainClass → ℕ
tag domain_error = 0
tag domain_validation_error = 1
tag entity_not_found_error = 2
tag domain_conflict_error = 3
tag domain_state_error = 4
tag domain_authorization_error = 5
tag domain_invariant_error = 6
tag aggregate_root_error = 7
tag ai_generation_error = 8
tag prompt_validation_error = 9
tag token_limit_exceeded_error = 10
tag generation_failed_error = 11
tag quota_exhausted_error = 12

-- `isinstance(exc, class)`
unfoldable pub is_instance : DomainError → DomainClass → Bool
unfolding mro tag
is_instance exc class = any (λ c. tag c == tag class) (mro exc.class)

-- The status of `domain_exception_handler`.
unfoldable pub domain_status : DomainError → ℕ
unfolding is_instance
domain_status exc =
    if is_instance exc entity_not_found_error
    then 404
    else if is_instance exc domain_conflict_error
    then 409
    else if is_instance exc domain_authorization_error
    then 403
    else if is_instance exc domain_state_error
    then 422
    else if is_instance exc domain_validation_error
    then 400
    else 400

-- `domain_exception_handler`
unfoldable pub domain_exception_handler : DomainError → Response
unfolding build_error_response domain_status
domain_exception_handler exc =
    build_error_response (domain_status exc) exc.code exc.message (shown exc.context)

-- `unhandled_exception_handler`, of an exception with the given `str`
unfoldable pub unhandled_exception_handler : Text → Response
unfolding build_error_response value
unhandled_exception_handler exc =
    build_error_response 500 (value ErrorCode.internal_server_error)
      (codes "An unexpected error occurred. Please try again later.") none

-- `create_response` of KinoneeErrorFormatter, over its `format_error`
unfoldable pub create_response : ℕ → Text → Text → Option Context → Response
create_response status_code code message details = record {
  status_code = status_code;
  success = false;
  code = code;
  message = message;
  context = shown (or_empty details);
  headers = [];
}
