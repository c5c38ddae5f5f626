-- ===== src/Responses.antt =====
-- The responses to errors: the exceptions of backend/core/exceptions and backend/core/domain and the
-- handlers of backend/core/exceptions/handlers.py and error_to_response.py. Logs are left out.
pub mod Codes
pub mod Digits
pub mod Classes
pub mod Service
pub mod Domain
pub mod Handlers
pub mod RateLimit
pub mod Registered
pub mod Answers
pub mod Validation
pub mod Logged
use backend_prod_ready.Prelude.{
  Bool, List, Option, Text, [], false, if◌then◌else◌, is_empty, ltb, none, not, refl, some, suc,
  true, zero, ℕ, ◌%◌, ◌++◌, ◌+◌, ◌/◌, ◌==◌, ◌∷◌, ◌≡◌,
}
use backend_prod_ready.Dict.{Dict, find}

-- A value of a context: `Any`. Other values are known by their truth value and their identity.
pub data Json : Type 0 where
  null : Json
  flag : Bool → Json
  number : ℕ → Json
  text : Text → Json
  texts : List Text → Json
  objects : List (Dict Text) → Json
  object : Bool → ℕ → Json

abbrev pub is_nil {ℓ} : {A : Type ℓ} → List A → Bool
is_nil [] = true
is_nil (_ ∷ _) = false

-- `bool(value)`
abbrev pub is_truthy : Json → Bool
is_truthy null = false
is_truthy (flag b) = b
is_truthy (number n) = not (n == 0)
is_truthy (text t) = not (is_empty t)
is_truthy (texts ts) = not (is_nil ts)
is_truthy (objects os) = not (is_nil os)
is_truthy (object b _) = b

abbrev pub Context : Type 0
Context = Dict Json

-- A JSONResponse in the standard format: the content is `success` and `error`, which holds the code,
-- the message and, if there is one, the context.
pub record Response : Type 0 where
  pub status_code : ℕ
  pub success : Bool
  pub code : Text
  pub message : Text
  pub context : Option Context
  pub headers : Dict Text

-- `if context: error_content["context"] = context`
abbrev pub shown : Context → Option Context
shown [] = none
shown (entry ∷ context) = some (entry ∷ context)

-- `context or {}`
abbrev pub or_empty : Option Context → Context
or_empty none = []
or_empty (some context) = context

-- `context.get(key)` on the context of a response
unfoldable pub find_shown : Text → Option Context → Option Json
find_shown key context = find key (or_empty context)

-- `_build_error_response` of handlers.py
unfoldable pub build_error_response : ℕ → Text → Text → Option Context → Response
build_error_response status_code code message context = record {
  status_code = status_code;
  success = false;
  code = code;
  message = message;
  context = shown (or_empty context);
  headers = [];
}

find_shown-shown :
    (key : Text) (context : Context) → find_shown key (shown context) ≡ find key context
unfolding find_shown find
find_shown-shown key [] = refl
find_shown-shown key (entry ∷ context) = refl

-- The decimal digits of a number, given as many rounds as its digits.
unfoldable pub digits : ℕ → ℕ → Text
digits zero n = []
digits (suc fuel) n =
    let rest = digits fuel (n / 10) in
    if ltb n 10 then (b'0' + n) ∷ [] else rest ++ ((b'0' + n % 10) ∷ [])

-- `str(n)`
unfoldable pub decimal : ℕ → Text
unfolding digits
decimal n = digits (n + 1) n
