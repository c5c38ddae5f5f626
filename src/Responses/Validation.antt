-- ===== src/Responses/Validation.antt =====
-- Validation errors of backend/core/exceptions/error_to_response.py: their translation for the user
-- and the response.
pub mod Messages
pub mod Summary
use backend_prod_ready.Prelude.{
  Bool, List, Option, Text, [], any, codes, if◌then◌else◌, is_empty, keep, lower, map, none, some,
  starts_with, text_eq, true, ℕ, ◌&&◌, ◌++◌, ◌||◌, ◌∷◌,
}
use backend_prod_ready.Dict.{Dict}
use backend_prod_ready.Responses.{Response, is_nil, objects}
use backend_prod_ready.Responses.Classes.{validation_error}
use backend_prod_ready.Responses.Service.{ServiceException, init, to_response, no_arguments}

-- An entry of the location of an error.
pub data Part : Type 0 where
  text_part : Text → Part
  number_part : ℕ → Part

-- An entry of `exc.errors()`
pub record ErrorDetails : Type 0 where
  pub loc : List Part
  pub error_type : Text
  pub msg : Text

-- `needle in text`
unfoldable pub contains : Text → Text → Bool
unfolding starts_with
contains needle [] = is_empty needle
contains needle (c ∷ s) =
    let rest = contains needle s in if starts_with needle (c ∷ s) then true else rest

-- `sep.join(parts)`
unfoldable pub join : Text → List Text → Text
join sep [] = []
join sep (part ∷ []) = part
join sep (part ∷ next ∷ parts) = part ++ (sep ++ join sep (next ∷ parts))

-- `t in ts`
abbrev pub has_text : List Text → Text → Bool
has_text ts t = any (λ s. text_eq s t) ts

-- The prefixes of a location that say where in the request it is.
abbrev pub prefixes : List Text
prefixes = codes "body" ∷ codes "query" ∷ codes "path" ∷ codes "header" ∷ codes "cookie" ∷ []

-- The loop of `_format_field_path`.
unfoldable pub field_parts : List Part → List Text
field_parts [] = []
field_parts (text_part t ∷ loc) =
    let rest = field_parts loc in if has_text prefixes t then rest else t ∷ rest
field_parts (number_part n ∷ loc) = field_parts loc

-- `_format_field_path`
unfoldable pub format_field_path : List Part → Text
unfolding field_parts join
format_field_path [] = codes "request"
format_field_path (part ∷ loc) =
    let parts = field_parts (part ∷ loc) in
    if is_nil parts then codes "request body" else join (codes ".") parts

-- `f"'{field}'{rest}"`
abbrev pub about : Text → Text → Text
about field rest = codes "'" ++ field ++ codes "'" ++ rest

-- `translate_validation_error` of a type_error
unfoldable pub translate_type_error : Text → Text → Text
unfolding contains
translate_type_error error_msg field =
    if contains (codes "str") error_msg && contains (codes "int") error_msg
    then about field (codes " must be a number, not text.")
    else if contains (codes "int") error_msg && contains (codes "str") error_msg
    then about field (codes " must be text, not a number.")
    else if contains (codes "bool") error_msg
    then about field (codes " must be true or false.")
    else if contains (codes "none") (lower error_msg)
    then about field (codes " cannot be null.")
    else about field (codes " has an invalid data type.")

-- Of a string_too_short, string_too_long or value_error.
unfoldable pub translate_value_error : Text → Text → Text → Text
unfolding contains
translate_value_error error_type error_msg field =
    if contains (codes "too_short") error_msg || text_eq error_type (codes "string_too_short")
    then about field (codes " is too short.")
    else if contains (codes "too_long") error_msg || text_eq error_type (codes "string_too_long")
    then about field (codes " is too long.")
    else if contains (codes "invalid") error_msg
    then about field (codes " contains an invalid value.")
    else about field (codes " has an invalid value.")

-- Of an error of the formats and bounds.
unfoldable pub translate_format_error : Text → Text → Text → Text
unfolding contains
translate_format_error error_type error_msg field =
    if has_text (codes "url_type" ∷ codes "url_parsing" ∷ []) error_type
    then about field (codes " must be a valid URL.")
    else if text_eq error_type (codes "email_type") || contains (codes "email") error_type
    then about field (codes " must be a valid email address.")
    else if has_text (codes "uuid_type" ∷ codes "uuid_parsing" ∷ []) error_type
    then about field (codes " must be a valid UUID.")
    else if has_text (codes "datetime_type" ∷ codes "datetime_parsing" ∷ []) error_type
    then about field (codes " must be a valid date/time.")
    else if has_text (codes "date_type" ∷ codes "date_parsing" ∷ []) error_type
    then about field (codes " must be a valid date.")
    else if contains (codes "greater_than") error_type
    then about field (codes " is too small.")
    else if contains (codes "less_than") error_type
    then about field (codes " is too large.")
    else about field (codes " is invalid: " ++ error_msg)

-- Of an error of the shape, and of any other.
unfoldable pub translate_shape_error : Text → Text → Text → Text
unfolding translate_format_error
translate_shape_error error_type error_msg field =
    if text_eq error_type (codes "enum")
    then about field (codes " must be one of the allowed values.")
    else if text_eq error_type (codes "list_type")
    then about field (codes " must be a list.")
    else if text_eq error_type (codes "dict_type")
    then about field (codes " must be an object.")
    else if text_eq error_type (codes "string_type")
    then about field (codes " must be a string.")
    else if text_eq error_type (codes "int_type")
    then about field (codes " must be an integer.")
    else if text_eq error_type (codes "float_type")
    then about field (codes " must be a number.")
    else if text_eq error_type (codes "bool_type")
    then about field (codes " must be true or false.")
    else translate_format_error error_type error_msg field

abbrev pub json_invalid_message : Text
json_invalid_message =
    codes
      "The request body contains invalid JSON. Please check for syntax errors like missing quotes, commas, or brackets."

-- `translate_validation_error` for the field that its location or its path names.
unfoldable pub translate_for : Text → Text → Text → Text
unfolding translate_type_error translate_value_error translate_shape_error
translate_for error_type error_msg field =
    if text_eq error_type (codes "json_invalid")
    then json_invalid_message
    else if text_eq error_type (codes "type_error")
    then translate_type_error error_msg field
    else if text_eq error_type (codes "missing")
    then about field (codes " is required.")
    else if has_text (codes "string_too_short" ∷ codes "string_too_long" ∷ codes "value_error" ∷ [])
        error_type
    then translate_value_error error_type error_msg field
    else translate_shape_error error_type error_msg field

-- `translate_validation_error`, whose field is the location's if there is one
unfoldable pub translate_validation_error : Text → Text → Text → Option (List Part) → Text
unfolding translate_for format_field_path
translate_validation_error error_type error_msg field_path none =
    translate_for error_type error_msg field_path
translate_validation_error error_type error_msg field_path (some loc) =
    translate_for error_type error_msg (if is_nil loc then field_path else format_field_path loc)

-- An entry of `extract_validation_errors`
pub record FieldError : Type 0 where
  pub field : Text
  pub message : Text
  pub error_type : Text

-- One round of the loop of `extract_validation_errors`.
unfoldable pub details_of : ErrorDetails → FieldError
unfolding format_field_path translate_validation_error
details_of error = record {
  field = format_field_path error.loc;
  message =
      translate_validation_error error.error_type error.msg (format_field_path error.loc)
        (some error.loc);
  error_type = error.error_type;
}

-- `extract_validation_errors`
unfoldable pub extract_validation_errors : List ErrorDetails → List FieldError
unfolding details_of
extract_validation_errors = map details_of

-- `e["type"] == error_type`
abbrev pub is_type : Text → FieldError → Bool
is_type error_type e = text_eq e.error_type error_type

-- `', '.join(e["field"] for e in errors)`
abbrev pub fields_of : List FieldError → Text
fields_of errors = join (codes ", ") (map (λ e. e.field) errors)

abbrev pub missing_message : List FieldError → Text
missing_message (e ∷ []) = codes "Required field " ++ about e.field (codes " is missing.")
missing_message errors = codes "Required fields are missing: " ++ fields_of errors

abbrev pub failed_message : List FieldError → Text
failed_message (e ∷ []) = e.message
failed_message errors = codes "Validation failed for: " ++ fields_of errors

-- `overall_message`; the types of the details are those of the errors
unfoldable pub overall_message : List FieldError → Text
unfolding join
overall_message errors =
    if any (is_type (codes "json_invalid")) errors
    then codes "Invalid JSON in request body. Please check for syntax errors."
    else if any (is_type (codes "missing")) errors
    then missing_message (keep (is_type (codes "missing")) errors)
    else failed_message errors

abbrev pub error_object : FieldError → Dict Text
error_object e =
    (codes "field", e.field) ∷ (codes "message", e.message) ∷ (codes "type", e.error_type) ∷ []

-- The exception that `validation_exception` makes.
unfoldable pub validation_failure : List ErrorDetails → ServiceException
unfolding extract_validation_errors overall_message init
validation_failure errors =
    let details = extract_validation_errors errors in
    init validation_error (record no_arguments {
      message = some (overall_message details);
      errors = objects (map error_object details);
    })

-- `validation_exception` of errors that FastAPI or Pydantic found; of a ValidationError it is
-- `to_response`
unfoldable pub validation_exception : List ErrorDetails → Response
unfolding validation_failure to_response
validation_exception errors = to_response (validation_failure errors)
