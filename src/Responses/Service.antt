-- ===== src/Responses/Service.antt =====
-- `ServiceException` of backend/core/exceptions/http_exceptions.py: a new instance and its response.
use backend_prod_ready.Prelude.{
  Option, Text, [], arith, codes, false, if◌then◌else◌, is_empty, none, some, text_eq, ℕ, ◌&&◌,
  ◌==◌, ◌≡◌,
}
use backend_prod_ready.Dict.{find, put}
use backend_prod_ready.Dict.Laws.{find-put}
use backend_prod_ready.Responses.Codes.{ErrorCode, value}
use backend_prod_ready.Responses.Classes.{ServiceClass}
use backend_prod_ready.Responses.{
  Context, Json, Response, find_shown, is_truthy, null, or_empty, shown, find_shown-shown,
}

-- `str | ErrorCode`
pub data Code : Type 0 where
  member : ErrorCode → Code
  named : Text → Code

-- `str(code)`
unfoldable pub code_text : Code → Text
unfolding value
code_text (member c) = value c
code_text (named t) = t

-- The arguments of `__init__`; None for `errors` is null.
pub record Arguments : Type 0 where
  pub message : Option Text
  pub code : Option Code
  pub errors : Json
  pub status_code : Option ℕ
  pub meta : Option Context

abbrev pub no_arguments : Arguments
no_arguments = record {
  message = none;
  code = none;
  errors = null;
  status_code = none;
  meta = none;
}

-- An instance. Its payload holds the message, the code and the errors if they are truthy; only the
-- errors are read from it.
pub record ServiceException : Type 0 where
  pub status_code : ℕ
  pub message : Text
  pub code : Code
  pub errors : Option Json
  pub meta : Context

-- `if message: self.message = message`, and so on: a falsy argument leaves what the class says.
abbrev pub text_or : Option Text → Text → Text
text_or none t = t
text_or (some s) t = if is_empty s then t else s

abbrev pub number_or : Option ℕ → ℕ → ℕ
number_or none n = n
number_or (some m) n = if m == 0 then n else m

abbrev pub code_or : Option Code → Code → Code
code_or none c = c
code_or (some (member d)) c = member d
code_or (some (named t)) c = if is_empty t then c else named t

-- `ServiceException.__init__`
unfoldable pub init : ServiceClass → Arguments → ServiceException
init class given = record {
  status_code = number_or given.status_code class.status_code;
  message = text_or given.message class.message;
  code = code_or given.code (member class.code);
  errors = if is_truthy given.errors then some given.errors else none;
  meta = or_empty given.meta;
}

-- The context of `to_response`, built from the metadata and the errors.
abbrev pub response_context : ServiceException → Context
response_context exc = elim exc.errors [
  | none ↦ exc.meta
  | some errors ↦ put (codes "errors") errors exc.meta
]

-- `to_response`
unfoldable pub to_response : ServiceException → Response
unfolding code_text
to_response exc = record {
  status_code = exc.status_code;
  success = false;
  code = code_text exc.code;
  message = exc.message;
  context = shown (response_context exc);
  headers = [];
}

-- The response of a new exception shows, under each key of its context, the errors if there are any
-- under "errors", and else what the metadata hold.
pub to_response-init :
    (class : ServiceClass) (given : Arguments) (key : Text)
    → find_shown key (to_response (init class given)).context ≡ (
        if is_truthy given.errors && text_eq (codes "errors") key
        then some given.errors
        else find key (or_empty given.meta))
unfolding to_response init
to_response-init class given key = ground (
  arith,
  find_shown-shown key (or_empty given.meta),
  find_shown-shown key (put (codes "errors") given.errors (or_empty given.meta)),
  find-put (codes "errors") key given.errors (or_empty given.meta),
)
