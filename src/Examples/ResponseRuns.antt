-- ===== src/Examples/ResponseRuns.antt =====
-- The theorems on responses at concrete inputs.
use backend_prod_ready.Prelude.{List, Text, [], codes, none, refl, some, text_eq, ◌++◌, ◌∷◌, ◌≡◌}
use backend_prod_ready.Dict.{find}
use backend_prod_ready.Responses.{Json, Response, text, find_shown}
use backend_prod_ready.Responses.Classes.{service_unavailable_error}
use backend_prod_ready.Responses.Service.{no_arguments, init, code_text, member}
use backend_prod_ready.Responses.Domain.{DomainError, init_state, mro}
use backend_prod_ready.Responses.Handlers.{Request, domain_exception_handler}
use backend_prod_ready.Responses.Registered.{Lookup, IsByClass, respond, service, another, classes}
use backend_prod_ready.Responses.Answers.{service_answer}
use backend_prod_ready.Responses.Answers.Shape.{respond-shape, IsShaped}
use backend_prod_ready.Responses.Answers.DomainStatus.{domain_answer, first_documented}
use backend_prod_ready.Responses.Logged.{Exceptions, ErrorHandler, handle_exception, is_sensitive}
use backend_prod_ready.Responses.Logged.Secrets.{handle_exception-Alike, nil, same, secret}

by_class : Lookup
by_class [] table = none
by_class (c ∷ classes) table = elim (find c table) [
  | some h ↦ some h
  | none ↦ by_class classes table
]

by_class-IsByClass : IsByClass by_class
unfolding by_class
by_class-IsByClass = record { lookup_nil = λ table. refl; lookup_cons = λ c classes table. refl }

abbrev shown_as : Json → Text
shown_as v = codes "value"

abbrev get_ready : Request
get_ready = record { path = codes "/ready"; method = codes "GET" }

abbrev unavailable : List Text
unavailable = codes "ServiceUnavailableError" ∷ []

service_answer_example :
    (response : Response) × (respond shown_as by_class get_ready
        (service unavailable (init service_unavailable_error no_arguments))
      ≡ some response)
    × (response.status_code ≡ 503)
    × (response.message ≡ codes "Service Unavailable")
    × (response.code ≡ code_text (member service_unavailable_error.code))
    × (response.headers ≡ [])
unfolding find text_eq
service_answer_example =
    service_answer shown_as by_class by_class-IsByClass get_ready unavailable
      service_unavailable_error no_arguments refl

respond-shape_example :
    (response : Response) × (respond shown_as by_class get_ready
        (another (codes "KeyError" ∷ []) (codes "k"))
      ≡ some response)
    × IsShaped response
unfolding find text_eq
respond-shape_example =
    respond-shape shown_as by_class by_class-IsByClass get_ready
      (another (codes "KeyError" ∷ []) (codes "k")) refl

abbrev not_paid : DomainError
unfolding init_state
not_paid = init_state (codes "not paid") (some (codes "Order")) (some (codes "NEW")) none none

domain_answer_example :
    let response = domain_exception_handler not_paid in
    (some response.status_code ≡ first_documented (mro not_paid.class))
    × (response.code ≡ not_paid.code)
    × (response.message ≡ not_paid.message)
    × (find_shown (codes "current_state") response.context
        ≡ find (codes "current_state") not_paid.context)
domain_answer_example = domain_answer not_paid (codes "current_state")

-- An exception is its text, and a class one that it equals.
abbrev texts_as_exceptions : Exceptions
texts_as_exceptions = record {
  Exc = Text;
  Class = Text;
  is_instance = λ exc class. text_eq exc class;
  str = λ exc. exc;
  type_name = λ exc. exc;
  with_message = λ class message. some (class ++ message);
  without_message = λ class. class;
}

abbrev handler : ErrorHandler texts_as_exceptions Text
handler = record {
  default_exception = codes "ServiceError";
  exception_map = [];
  preserve_exceptions = [];
  context_extractors = (codes "user_id", λ value. some (text value)) ∷ [];
}

handle_exception-Alike_example :
    handle_exception texts_as_exceptions Text handler
      (codes "boom")
      (codes "login")
      []
      ((codes "Password", codes "p") ∷ (codes "name", codes "n") ∷ [])
    ≡ handle_exception texts_as_exceptions Text handler
        (codes "boom")
        (codes "login")
        []
        ((codes "Password", codes "q") ∷ (codes "name", codes "n") ∷ [])
unfolding is_sensitive text_eq
handle_exception-Alike_example =
    handle_exception-Alike texts_as_exceptions Text handler (codes "boom") (codes "login") []
      ((codes "Password", codes "p") ∷ (codes "name", codes "n") ∷ [])
      ((codes "Password", codes "q") ∷ (codes "name", codes "n") ∷ [])
      (secret (codes "Password") (codes "p") (codes "q") refl (same (codes "name") (codes "n") nil))
