-- ===== src/Responses/Answers.antt =====
-- What a client sees of an exception: the handlers that backend/features/main.py registers,
-- composed with the exceptions of backend/core/exceptions and backend/core/domain.
pub mod Shape
pub mod DomainStatus
use backend_prod_ready.Prelude.{
  Bool, List, Text, [], arith, none, refl, some, text_eq, true, ◌++◌, ◌∷◌, ◌≡◌, Option, codes, map,
  false, if◌then◌else◌, sym, ℕ, ◌∙◌,
}
use backend_prod_ready.Dict.{find}
use backend_prod_ready.Responses.{Json, Response, Context, build_error_response, or_empty, shown}
use backend_prod_ready.Responses.Domain.{class_name, mro, DomainClass}
use backend_prod_ready.Responses.Classes.{ServiceClass}
use backend_prod_ready.Responses.Service.{
  Arguments, init, to_response, number_or, text_or, code_or, code_text, member,
}
use backend_prod_ready.Responses.Handlers.{
  Request, domain_exception_handler, http_exception_handler, service_exception_handler,
  unhandled_exception_handler,
}
use backend_prod_ready.Responses.Validation.{validation_exception}
use backend_prod_ready.Responses.RateLimit.{rate_limit_exceeded_handler}
use backend_prod_ready.Responses.Registered.{
  Handler, IsByClass, Lookup, Raised, another, classes, domain, domain_handler, handle, http,
  http_handler, is_unregistered, pydantic_invalid, rate_limit_handler, rate_limited, registered,
  request_invalid, respond, service, service_handler, unhandled_handler, validation_handler,
}

-- The classes of an exception between its own and the first that has a handler have none.
abbrev pub is_plain : Raised → Bool
is_plain (service names exc) = is_unregistered names
is_plain (another names exc) = is_unregistered names
is_plain _ = true

-- What the handler of an exception answers.
abbrev pub answer : (Json → Text) → Request → Raised → Response
answer str request (request_invalid errors) = validation_exception errors
answer str request (pydantic_invalid errors) = validation_exception errors
answer str request (rate_limited detail) = rate_limit_exceeded_handler detail
answer str request (service _ exc) = service_exception_handler exc
answer str request (http exc) = http_exception_handler str request exc
answer str request (domain exc) = domain_exception_handler exc
answer str request (another _ exc) = unhandled_exception_handler exc

-- The handler of the first name that has one.
unfoldable pub first_handler : List Text → Option Handler
first_handler [] = none
first_handler (name ∷ names) = elim (find name registered) [
  | some handler ↦ some handler
  | none ↦ first_handler names
]

first_handler-append :
    (names more : List Text)
    → is_unregistered names ≡ true
    → first_handler (names ++ more) ≡ first_handler more
unfolding first_handler
first_handler-append [] more h = refl
first_handler-append (name ∷ names) more h = ground (arith, first_handler-append names more)

domain_first :
    (class : DomainClass)
    → first_handler (map class_name (mro class) ++ codes "Exception" ∷ []) ≡ some domain_handler
unfolding first_handler class_name mro find text_eq
domain_first class = ground arith

-- The handler that reads an exception.
abbrev pub own_handler : Raised → Handler
own_handler (request_invalid _) = validation_handler
own_handler (pydantic_invalid _) = validation_handler
own_handler (rate_limited _) = rate_limit_handler
own_handler (service _ _) = service_handler
own_handler (http _) = http_handler
own_handler (domain _) = domain_handler
own_handler (another _ _) = unhandled_handler

first_handler-classes :
    (exc : Raised) → is_plain exc ≡ true → first_handler (classes exc) ≡ some (own_handler exc)
unfolding first_handler classes find text_eq
first_handler-classes (request_invalid errors) h = refl
first_handler-classes (pydantic_invalid errors) h = refl
first_handler-classes (rate_limited detail) h = refl
first_handler-classes (service names exc) h = first_handler-append names _ h
first_handler-classes (http exc) h = refl
first_handler-classes (domain exc) h = domain_first exc.class
first_handler-classes (another names exc) h = first_handler-append names _ h

alike :
    (exc exc' : Text)
    → ◌≡◌ {A = Option Response}
        (some (unhandled_exception_handler exc))
        (some (unhandled_exception_handler exc'))
unfolding unhandled_exception_handler
alike exc exc' = refl

module _ (str : Json → Text) (lookup : Lookup) (by_class : IsByClass lookup) where
  open by_class use {lookup_nil, lookup_cons}

  lookup-first : (names : List Text) → lookup names registered ≡ first_handler names
  unfolding first_handler
  lookup-first [] = lookup_nil registered
  lookup-first (name ∷ names) =
      ground (arith, lookup_cons name names registered, lookup-first names)

  handle-own :
      (request : Request) (exc : Raised)
      → handle str lookup request exc (own_handler exc) ≡ some (answer str request exc)
  unfolding handle
  handle-own request exc = ground arith

  -- Every exception is answered by the handler of its kind, if the classes between its own and the
  -- first that has a handler have none, under a lookup that takes the first class with a handler.
  pub respond_exact :
      (request : Request) (exc : Raised)
      → is_plain exc ≡ true
      → respond str lookup request exc ≡ some (answer str request exc)
  unfolding respond
  respond_exact request exc h =
      rw (respond, lookup-first (classes exc), first_handler-classes exc h) (handle-own request exc)

  -- Exceptions of no kind that a handler is registered for are answered alike, whatever their class,
  -- their text and the request, under a lookup that takes the first class with a handler.
  pub another_uniform :
      (request later : Request) (names others : List Text) (exc exc' : Text)
      → is_unregistered names ≡ true
      → is_unregistered others ≡ true
      → respond str lookup request (another names exc)
        ≡ respond str lookup later (another others exc')
  another_uniform request later names others exc exc' h k =
      respond_exact request (another names exc) h
      ∙ (alike exc exc' ∙ sym (respond_exact later (another others exc') k))

  -- A new service exception, of a class whose name has no handler of its own, is answered with the
  -- status, the message and the code that it was given, or else those of its class, and with no
  -- header, under a lookup that takes the first class with a handler.
  pub service_answer :
      (request : Request) (names : List Text) (class : ServiceClass) (given : Arguments)
      → is_unregistered names ≡ true
      → (response : Response) × (respond str lookup request (service names (init class given))
          ≡ some response)
        × (response.status_code ≡ number_or given.status_code class.status_code)
        × (response.message ≡ text_or given.message class.message)
        × (response.code ≡ code_text (code_or given.code (member class.code)))
        × (response.headers ≡ [])
  unfolding service_exception_handler to_response init
  service_answer request names class given h = (
    service_exception_handler (init class given),
    respond_exact request (service names (init class given)) h,
    refl,
    refl,
    refl,
    refl,
  )
