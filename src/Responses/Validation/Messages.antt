-- ===== src/Responses/Validation/Messages.antt =====
-- What the messages of backend/core/exceptions/error_to_response.py say of the field.
use backend_prod_ready.Prelude.{
  Bool, Text, [], arith, codes, false, if◌then◌else◌, refl, starts_with, true, ◌++◌, ◌∷◌, ◌≡◌, List,
  lower, some, text_eq, ◌&&◌, if_cases,
}
use backend_prod_ready.Responses.Validation.{
  about, translate_type_error, Part, contains, format_field_path, translate_for,
  translate_format_error, translate_validation_error, translate_value_error, translate_shape_error,
  json_invalid_message,
}

-- The message starts with the field in quotes.
abbrev pub IsAbout : Text → Text → Type 0
IsAbout field message = starts_with (codes "'" ++ field ++ codes "'") message ≡ true

pub starts_with-append : (p s : Text) → starts_with p (p ++ s) ≡ true
unfolding starts_with
starts_with-append [] s = refl
starts_with-append (c ∷ p) s = ground (arith, starts_with-append p s)

starts_with-field : (field p rest : Text) → starts_with (field ++ p) (field ++ p ++ rest) ≡ true
unfolding starts_with
starts_with-field [] p rest = starts_with-append p rest
starts_with-field (c ∷ field) p rest = ground (arith, starts_with-field field p rest)

about_lem : (field rest : Text) → IsAbout field (about field rest)
unfolding starts_with
about_lem field rest = starts_with-field field (codes "'") rest

if_IsAbout :
    (field : Text) (b : Bool) (s t : Text)
    → IsAbout field s
    → IsAbout field t
    → IsAbout field (if b then s else t)
if_IsAbout field true s t h k = h
if_IsAbout field false s t h k = k

branch_IsAbout :
    (field rest : Text) (b : Bool) (t : Text)
    → IsAbout field t
    → IsAbout field (if b then about field rest else t)
branch_IsAbout field rest b t h = if_IsAbout field b (about field rest) t (about_lem field rest) h

translate_type_error-IsAbout : (msg field : Text) → IsAbout field (translate_type_error msg field)
unfolding translate_type_error
translate_type_error-IsAbout msg field = search (if_IsAbout, about_lem)

translate_value_error-IsAbout :
    (error_type msg field : Text) → IsAbout field (translate_value_error error_type msg field)
unfolding translate_value_error
translate_value_error-IsAbout error_type msg field = search (if_IsAbout, about_lem)

translate_format_error-IsAbout :
    (error_type msg field : Text) → IsAbout field (translate_format_error error_type msg field)
unfolding translate_format_error
translate_format_error-IsAbout error_type msg field = search (branch_IsAbout, about_lem) depth 9

translate_shape_error-IsAbout :
    (error_type msg field : Text) → IsAbout field (translate_shape_error error_type msg field)
unfolding translate_shape_error
translate_shape_error-IsAbout error_type msg field =
    search (branch_IsAbout, translate_format_error-IsAbout) depth 9

translate_for-IsAbout :
    (error_type msg field : Text)
    → text_eq error_type (codes "json_invalid") ≡ false
    → IsAbout field (translate_for error_type msg field)
unfolding translate_for
translate_for-IsAbout error_type msg field h =
    if_cases (IsAbout field) (text_eq error_type (codes "json_invalid")) json_invalid_message _
      (λ e. ground arith)
      (λ e. search (
        if_IsAbout, about_lem, translate_type_error-IsAbout, translate_value_error-IsAbout,
        translate_shape_error-IsAbout,
      ))

-- The message for an error at a location starts with the path of its field in quotes, whatever the
-- error but invalid JSON.
pub translate-names_field :
    (error_type msg field_path : Text) (part : Part) (loc : List Part)
    → text_eq error_type (codes "json_invalid") ≡ false
    → starts_with
        (codes "'" ++ format_field_path (part ∷ loc) ++ codes "'")
        (translate_validation_error error_type msg field_path (some (part ∷ loc)))
      ≡ true
unfolding translate_validation_error
translate-names_field error_type msg field_path part loc h =
    translate_for-IsAbout error_type msg (format_field_path (part ∷ loc)) h

-- The branch of a type_error for a number in the place of a text is never taken: its condition is
-- that of the branch before.
type_error_branch_dead :
    (msg field : Text)
    → translate_type_error msg field ≡ (
        if contains (codes "str") msg && contains (codes "int") msg
        then about field (codes " must be a number, not text.")
        else if contains (codes "bool") msg
        then about field (codes " must be true or false.")
        else if contains (codes "none") (lower msg)
        then about field (codes " cannot be null.")
        else about field (codes " has an invalid data type."))
unfolding translate_type_error
type_error_branch_dead msg field = ground arith
