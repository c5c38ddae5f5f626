-- ===== src/Security/Timeout.antt =====
-- The timeouts: the decorator of backend/core/security/timeout.py and the middleware of
-- backend/core/api/middleware/request_timeout.py. A call takes some time and then has an outcome;
-- `asyncio.wait_for` cancels it once the timeout has passed. Logs are left out.
use backend_prod_ready.Prelude.{
  Bool, Option, Text, [], arith, codes, false, if◌then◌else◌, leb, ltb, none, refl, some, suc,
  text_eq, true, zero, ℕ, ◌++◌, ◌||◌, ◌∷◌, ◌≡◌, ◌≤◌,
}
use backend_prod_ready.Dict.{find}
use backend_prod_ready.Exec.{Result, ok, raised}
use backend_prod_ready.Responses.{Response, number, text, find_shown}
use backend_prod_ready.Responses.Classes.{request_timeout_error}
use backend_prod_ready.Responses.Service.{ServiceException, init, no_arguments, to_response}
use backend_prod_ready.Responses.Handlers.{service_exception_handler}
use backend_prod_ready.Security.Admission.{is_exempt}

-- A call: how long it runs and how it ends.
pub record Call (A : Type 0) : Type 0 where
  pub duration : ℕ
  pub outcome : A

-- `asyncio.wait_for`: the time that passes, and the outcome if there is one in time
unfoldable pub wait_for : {A : Type 0} → ℕ → Call A → ℕ × Option A
wait_for timeout call =
    if leb timeout call.duration then (timeout, none) else (call.duration, some call.outcome)

-- The response of the middleware to a request that timed out.
abbrev pub timeout_response : ℕ → Response
timeout_response timeout = record {
  status_code = 504;
  success = false;
  code = codes "REQUEST_TIMEOUT";
  message = codes "Request timed out. Please try again.";
  context = some (
      (codes "timeout_seconds", number timeout)
      ∷ (
        codes "suggestion",
        text (
            codes "The server took too long to respond. "
            ++ codes "Try again or reduce the complexity of your request."),
      )
      ∷ []);
  headers = (codes "Retry-After", codes "5") ∷ [];
}

-- Whether a call ends with a TimeoutError: `wait_for` raises one once the timeout has passed, and what
-- the call raises may be one, which `is_timeout` tells.
abbrev pub times_out : {E A : Type 0} → (E → Bool) → Option (Result E A) → Bool
times_out is_timeout none = true
times_out is_timeout (some (ok a)) = false
times_out is_timeout (some (raised e)) = is_timeout e

-- `except TimeoutError` of the middleware
unfoldable pub answer_to :
    {E : Type 0} → (E → Bool) → ℕ → Option (Result E Response) → Result E Response
answer_to is_timeout timeout none = ok (timeout_response timeout)
answer_to is_timeout timeout (some (ok response)) = ok response
answer_to is_timeout timeout (some (raised e)) =
    if is_timeout e then ok (timeout_response timeout) else raised e

-- `dispatch` of RequestTimeoutMiddleware: the time that passes, and the response. `_is_exempt` is
-- that of the admission control, over the same paths. A call that raises is one with that outcome.
unfoldable pub dispatch :
    {E : Type 0} → (E → Bool) → ℕ → Text → Call (Result E Response) → ℕ × Result E Response
unfolding wait_for answer_to
dispatch is_timeout timeout path call =
    if is_exempt path
    then (call.duration, call.outcome)
    else ((wait_for timeout call).0, answer_to is_timeout timeout (wait_for timeout call).1)

-- A request on a path that is not exempt holds the server no longer than the timeout, and is answered
-- with 504 if it takes that long or its handler raises a TimeoutError, and else by its handler; an
-- exempt one takes as long as it takes.
pub dispatch_bounded :
    {E : Type 0} (is_timeout : E → Bool) (timeout : ℕ) (path : Text)
    (call : Call (Result E Response))
    → dispatch is_timeout timeout path call ≡ (
        if is_exempt path
        then (call.duration, call.outcome)
        else if ltb call.duration timeout
        then (
          call.duration,
          (if times_out is_timeout (some call.outcome)
              then ok (timeout_response timeout)
              else call.outcome),
        )
        else (timeout, ok (timeout_response timeout)))
unfolding dispatch wait_for
dispatch_bounded is_timeout timeout path call = ground arith

-- What the wrapper of the decorator `timeout` reads and writes of its first argument: its
-- `_timeout_occurred`, if it has one.
abbrev pub Flag : Type 0
Flag = Option Bool

-- What may leave the wrapper: what the function raises, or a RequestTimeoutError.
pub data Left (E : Type 0) : Type 0 where
  own : E → Left E
  request_timeout : ServiceException → Left E

-- `RequestTimeoutError(message=…, meta=…)`
unfoldable pub timeout_error : ServiceException
unfolding init
timeout_error = init request_timeout_error (record no_arguments {
  message = some (codes "Request timed out. Please try again.");
  meta = some (
      (codes "retry_after", number 5)
      ∷ (
        codes "suggestion",
        text (codes "System is under load. Please retry with exponential backoff."),
      )
      ∷ []);
})

-- What is left in the flag after a timeout.
abbrev pub set_flag : Bool → Flag → Flag
set_flag true (some occurred) = some true
set_flag true none = none
set_flag false occurred = occurred

-- `except TimeoutError` of the wrapper
unfoldable pub end_of :
    {E A : Type 0} → (E → Bool) → Bool → Flag → Option (Result E A) → Flag × Result (Left E) A
unfolding timeout_error
end_of is_timeout set_timeout_occurred occurred none =
    (set_flag set_timeout_occurred occurred, raised (request_timeout timeout_error))
end_of is_timeout set_timeout_occurred occurred (some (ok a)) = (occurred, ok a)
end_of is_timeout set_timeout_occurred occurred (some (raised e)) =
    if is_timeout e
    then (set_flag set_timeout_occurred occurred, raised (request_timeout timeout_error))
    else (occurred, raised (own e))

-- `_wrap_async_function`: the time that passes, and how a call of the decorated function ends, with
-- the flag.
unfoldable pub wrapped :
    {E A : Type 0}
    → (E → Bool)
    → ℕ
    → Bool
    → Flag
    → Call (Result E A)
    → ℕ × (Flag × Result (Left E) A)
unfolding wait_for end_of
wrapped is_timeout seconds set_timeout_occurred occurred call = (
  (wait_for seconds call).0,
  end_of is_timeout set_timeout_occurred occurred (wait_for seconds call).1,
)

-- `timeout`: a timeout of 0 raises ValueError, here none
unfoldable pub timeout :
    {E A : Type 0}
    → (E → Bool)
    → ℕ
    → Bool
    → Option (Flag → Call (Result E A) → ℕ × (Flag × Result (Left E) A))
unfolding wrapped
timeout is_timeout zero set_timeout_occurred = none
timeout is_timeout (suc n) set_timeout_occurred =
    some (wrapped is_timeout (suc n) set_timeout_occurred)

-- A decorated call that takes as long as the timeout ends then with an error that the handler of
-- service exceptions answers with 408 and the context to retry, and with the flag set if the decorator
-- is to set it and the object has one.
pub wrapped_timed_out :
    {E A : Type 0} (is_timeout : E → Bool) (seconds : ℕ) (set_timeout_occurred : Bool)
    (occurred : Bool) (call : Call (Result E A))
    → seconds ≤ call.duration
    → (exc : ServiceException) × (wrapped is_timeout seconds set_timeout_occurred
          (some occurred)
          call
        ≡ (seconds, (some (set_timeout_occurred || occurred), raised (request_timeout exc))))
      × ((service_exception_handler exc).status_code ≡ 408)
      × (find_shown (codes "retry_after") (service_exception_handler exc).context ≡ some (number 5))
unfolding wrapped wait_for timeout_error init service_exception_handler to_response find_shown find
    text_eq
wrapped_timed_out is_timeout seconds set_timeout_occurred occurred call h =
    (timeout_error, ground arith, refl, refl)
