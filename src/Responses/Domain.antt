-- ===== src/Responses/Domain.antt =====
-- The exceptions of backend/core/domain/exceptions.py and of
-- backend/features/ai_generation/exceptions: what each `__init__` makes of its arguments. That
-- `context or {}` is the caller's own dict where it is not empty is left out.
use backend_prod_ready.Prelude.{
  List, Option, Text, [], codes, if◌then◌else◌, is_empty, none, some, ℕ, ◌++◌, ◌∷◌,
}
use backend_prod_ready.Dict.{put}
use backend_prod_ready.Responses.{Context, Json, is_nil, null, number, or_empty, text, texts}

pub data DomainClass : Type 0 where
  domain_error domain_validation_error entity_not_found_error : DomainClass
  domain_conflict_error domain_state_error domain_authorization_error : DomainClass
  domain_invariant_error aggregate_root_error : DomainClass
  ai_generation_error prompt_validation_error token_limit_exceeded_error : DomainClass
  generation_failed_error quota_exhausted_error : DomainClass

-- `__class__.__name__`
unfoldable pub class_name : DomainClass → Text
class_name domain_error = codes "DomainError"
class_name domain_validation_error = codes "DomainValidationError"
class_name entity_not_found_error = codes "EntityNotFoundError"
class_name domain_conflict_error = codes "DomainConflictError"
class_name domain_state_error = codes "DomainStateError"
class_name domain_authorization_error = codes "DomainAuthorizationError"
class_name domain_invariant_error = codes "DomainInvariantError"
class_name aggregate_root_error = codes "AggregateRootError"
class_name ai_generation_error = codes "AiGenerationError"
class_name prompt_validation_error = codes "PromptValidationError"
class_name token_limit_exceeded_error = codes "TokenLimitExceededError"
class_name generation_failed_error = codes "GenerationFailedError"
class_name quota_exhausted_error = codes "QuotaExhaustedError"

-- `__mro__` up to DomainError
unfoldable pub mro : DomainClass → List DomainClass
mro domain_error = domain_error ∷ []
mro domain_validation_error = domain_validation_error ∷ domain_error ∷ []
mro entity_not_found_error = entity_not_found_error ∷ domain_error ∷ []
mro domain_conflict_error = domain_conflict_error ∷ domain_error ∷ []
mro domain_state_error = domain_state_error ∷ domain_error ∷ []
mro domain_authorization_error = domain_authorization_error ∷ domain_error ∷ []
mro domain_invariant_error = domain_invariant_error ∷ domain_error ∷ []
mro aggregate_root_error = aggregate_root_error ∷ domain_error ∷ []
mro ai_generation_error = ai_generation_error ∷ domain_error ∷ []
mro prompt_validation_error = prompt_validation_error ∷ domain_validation_error ∷ domain_error ∷ []
mro token_limit_exceeded_error =
    token_limit_exceeded_error ∷ ai_generation_error ∷ domain_error ∷ []
mro generation_failed_error = generation_failed_error ∷ ai_generation_error ∷ domain_error ∷ []
mro quota_exhausted_error = quota_exhausted_error ∷ ai_generation_error ∷ domain_error ∷ []

-- The attributes of an exception that its handler reads.
pub record DomainError : Type 0 where
  pub class : DomainClass
  pub message : Text
  pub code : Text
  pub context : Context

-- `DomainError.__init__`
unfoldable pub init : DomainClass → Text → Option Text → Option Context → DomainError
unfolding class_name
init class message code context = record {
  class = class;
  message = message;
  code = elim code [
    | none ↦ class_name class
    | some c ↦ if is_empty c then class_name class else c
  ];
  context = or_empty context;
}

-- `if value: ctx[key] = value`
abbrev pub set_text : Text → Option Text → Context → Context
set_text key none ctx = ctx
set_text key (some value) ctx = if is_empty value then ctx else put key (text value) ctx

abbrev pub set_texts : Text → Option (List Text) → Context → Context
set_texts key none ctx = ctx
set_texts key (some values) ctx = if is_nil values then ctx else put key (texts values) ctx

-- `if value is not None: ctx[key] = value`
abbrev pub set_value : Text → Json → Context → Context
set_value key null ctx = ctx
set_value key value ctx = put key value ctx

abbrev pub set_number : Text → Option ℕ → Context → Context
set_number key none ctx = ctx
set_number key (some value) ctx = put key (number value) ctx

-- `DomainValidationError.__init__`, of the class or of one that inherits it
unfoldable pub init_validation :
    DomainClass → Text → Option Text → Json → Option Context → DomainError
unfolding init
init_validation class message field value context =
    init class message (some (codes "VALIDATION_ERROR"))
      (some (set_value (codes "value") value (set_text (codes "field") field (or_empty context))))

-- `AggregateRootError.__init__`
unfoldable pub init_aggregate : Text → Option Text → Option Context → DomainError
unfolding init
init_aggregate message aggregate_type context =
    init aggregate_root_error message (some (codes "AGGREGATE_ERROR"))
      (some (set_text (codes "aggregate_type") aggregate_type (or_empty context)))

-- `DomainInvariantError.__init__`
unfoldable pub init_invariant : Text → Option Text → Option Context → DomainError
unfolding init
init_invariant message invariant context =
    init domain_invariant_error message (some (codes "INVARIANT_VIOLATED"))
      (some (set_text (codes "invariant") invariant (or_empty context)))

-- `DomainAuthorizationError.__init__`
unfoldable pub init_authorization :
    Text → Option Text → Option Text → Option Text → Option Context → DomainError
unfolding init
init_authorization message actor_id resource_type action context =
    init domain_authorization_error message (some (codes "AUTHORIZATION_FAILED")) (
      some (
        set_text (codes "action") action (
          set_text (codes "resource_type") resource_type
            (set_text (codes "actor_id") actor_id (or_empty context)))))

-- `DomainStateError.__init__`
unfoldable pub init_state :
    Text → Option Text → Option Text → Option (List Text) → Option Context → DomainError
unfolding init
init_state message entity_type current_state expected_states context =
    init domain_state_error message (some (codes "INVALID_STATE")) (
      some (
        set_texts (codes "expected_states") expected_states (
          set_text (codes "current_state") current_state
            (set_text (codes "entity_type") entity_type (or_empty context)))))

-- `AiGenerationError.__init__`, of the class or of one that inherits it
unfoldable pub init_generation : DomainClass → Text → Option Text → Option Context → DomainError
unfolding init
init_generation class message code context =
    init class message
      (some (elim code [
        | none ↦ codes "AI_GENERATION_ERROR"
        | some c ↦ if is_empty c then codes "AI_GENERATION_ERROR" else c
      ]))
      context

-- `PromptValidationError.__init__`
unfoldable pub init_prompt : Text → Option ℕ → Option Context → DomainError
unfolding init_validation
init_prompt message prompt_length context =
    init_validation prompt_validation_error message (some (codes "prompt")) null
      (some (set_number (codes "prompt_length") prompt_length (or_empty context)))

-- `TokenLimitExceededError.__init__`
unfoldable pub init_token_limit : Text → Option ℕ → Option ℕ → Option Context → DomainError
unfolding init_generation
init_token_limit message requested_tokens max_tokens context =
    init_generation token_limit_exceeded_error message (some (codes "TOKEN_LIMIT_EXCEEDED")) (
      some (
        set_number (codes "max_tokens") max_tokens
          (set_number (codes "requested_tokens") requested_tokens (or_empty context))))

-- `GenerationFailedError.__init__`
unfoldable pub init_generation_failed :
    Text → Option Text → Option Text → Option Context → DomainError
unfolding init_generation
init_generation_failed message model reason context =
    init_generation generation_failed_error message (some (codes "GENERATION_FAILED"))
      (some (set_text (codes "reason") reason (set_text (codes "model") model (or_empty context))))

-- `QuotaExhaustedError.__init__`
unfoldable pub init_quota : Text → Option Text → Option Context → DomainError
unfolding init_generation
init_quota message user_id context =
    init_generation quota_exhausted_error message (some (codes "QUOTA_EXHAUSTED"))
      (some (set_text (codes "user_id") user_id (or_empty context)))

module _ (str : Json → Text) where
  -- `if entity_id is not None: ctx["entity_id"] = str(entity_id)`
  abbrev pub set_id : Json → Context → Context
  set_id null ctx = ctx
  set_id entity_id ctx = put (codes "entity_id") (text (str entity_id)) ctx

  -- `EntityNotFoundError.__init__`
  unfoldable pub init_not_found : Text → Json → Option Context → DomainError
  unfolding init
  init_not_found entity_type entity_id context =
      init entity_not_found_error
        (entity_type ++ codes " with id '" ++ str entity_id ++ codes "' not found")
        (some (codes "ENTITY_NOT_FOUND"))
        (some (
          put (codes "entity_id") (text (str entity_id))
            (put (codes "entity_type") (text entity_type) (or_empty context))))

  -- `DomainConflictError.__init__`
  unfoldable pub init_conflict : Text → Option Text → Json → Option Context → DomainError
  unfolding init
  init_conflict message entity_type entity_id context =
      init domain_conflict_error message (some (codes "CONFLICT"))
        (some (set_id entity_id (set_text (codes "entity_type") entity_type (or_empty context))))
