-- ===== src/Responses/Answers/DomainStatus.antt =====
-- The statuses of domain exceptions: `domain_exception_handler` of
-- backend/core/exceptions/handlers.py.
use backend_prod_ready.Prelude.{
  List, Option, Text, [], codes, none, some, text_eq, ℕ, ◌∷◌, ◌≡◌, arith, refl,
}
use backend_prod_ready.Dict.{Dict, find}
use backend_prod_ready.Responses.{shown, or_empty, Context, build_error_response, find_shown}
use backend_prod_ready.Responses.Domain.{DomainClass, DomainError, class_name, mro}
use backend_prod_ready.Responses.Handlers.{
  is_instance, tag, domain_status, domain_exception_handler, is_instance,
}

-- The table of the documentation of the handler.
abbrev pub documented : Dict ℕ
documented =
    (codes "DomainValidationError", 400)
    ∷ (codes "EntityNotFoundError", 404)
    ∷ (codes "DomainConflictError", 409)
    ∷ (codes "DomainAuthorizationError", 403)
    ∷ (codes "DomainStateError", 422)
    ∷ (codes "DomainError", 400)
    ∷ []

-- The entry of the first of some classes that has one.
abbrev pub first_documented : List DomainClass → Option ℕ
first_documented [] = none
first_documented (class ∷ more) = elim (find (class_name class) documented) [
  | some status ↦ some status
  | none ↦ first_documented more
]

domain_status-documented :
    (exc : DomainError) → some (domain_status exc) ≡ first_documented (mro exc.class)
unfolding domain_status is_instance mro class_name find text_eq tag
domain_status-documented exc = ground arith

shown_twice :
    (key : Text) (context : Context)
    → find_shown key (shown (or_empty (shown context))) ≡ find key context
unfolding find_shown find
shown_twice key [] = refl
shown_twice key (entry ∷ context) = refl

-- The status of a domain exception is that of the first of its classes in the table of the
-- documentation, and its response has its code and its message and shows its context.
pub domain_answer :
    (exc : DomainError) (key : Text)
    → let response = domain_exception_handler exc in
      (some response.status_code ≡ first_documented (mro exc.class))
      × (response.code ≡ exc.code)
      × (response.message ≡ exc.message)
      × (find_shown key response.context ≡ find key exc.context)
unfolding domain_exception_handler build_error_response
domain_answer exc key = (domain_status-documented exc, refl, refl, shown_twice key exc.context)
