-- ===== src/Responses/Validation/Summary.antt =====
-- The response to validation errors of backend/core/exceptions/error_to_response.py.
use backend_prod_ready.Prelude.{
  List, Text, [], arith, refl, starts_with, true, ◌++◌, ◌∷◌, ◌≡◌, Bool, any, codes, keep, map,
  map-append, false, some, text_eq,
}
use backend_prod_ready.Dict.{put}
use backend_prod_ready.Responses.Service.{init, to_response, text_or}
use backend_prod_ready.Responses.Validation.{
  validation_failure, contains, join, FieldError, fields_of, missing_message, ErrorDetails,
  error_object, extract_validation_errors, format_field_path, is_type, overall_message,
  validation_exception, init, to_response, details_of, objects,
}
use backend_prod_ready.Responses.Validation.Messages.{starts_with-append}

contains_self : (needle s : Text) → starts_with needle s ≡ true → contains needle s ≡ true
unfolding contains starts_with
contains_self [] [] h = refl
contains_self (c ∷ needle) [] h = cc
contains_self needle (c ∷ s) h = rw h refl

contains-append : (needle s t : Text) → contains needle t ≡ true → contains needle (s ++ t) ≡ true
unfolding contains
contains-append needle [] t h = h
contains-append needle (c ∷ s) t h = ground (arith, contains-append needle s t h)

starts_with-append_right : (p s t : Text) → starts_with p s ≡ true → starts_with p (s ++ t) ≡ true
unfolding starts_with
starts_with-append_right [] s t h = refl
starts_with-append_right (c ∷ p) [] t h = cc
starts_with-append_right (c ∷ p) (d ∷ s) t h = ground (arith, starts_with-append_right p s t)

contains-append_right :
    (needle s t : Text) → contains needle s ≡ true → contains needle (s ++ t) ≡ true
unfolding contains starts_with
contains-append_right [] [] [] h = refl
contains-append_right [] [] (d ∷ t) h = refl
contains-append_right (c ∷ needle) [] t h = cc
contains-append_right needle (d ∷ s) t h =
    ground (arith, contains-append_right needle s t, starts_with-append_right needle (d ∷ s) t)

starts_with_refl : (s : Text) → starts_with s s ≡ true
unfolding starts_with
starts_with_refl [] = refl
starts_with_refl (c ∷ s) = ground (arith, starts_with_refl s)

contains-field : (field t : Text) → contains field (field ++ t) ≡ true
contains-field field t = contains_self field (field ++ t) (starts_with-append field t)

-- A part is contained in what it is joined to.
contains-join :
    (sep : Text) (before : List Text) (field : Text) (after : List Text)
    → contains field (join sep (before ++ field ∷ after)) ≡ true
unfolding join
contains-join sep [] field [] = contains_self field field (starts_with_refl field)
contains-join sep [] field (next ∷ after) = contains-field field (sep ++ join sep (next ∷ after))
contains-join sep (part ∷ []) field after =
    contains-append field part _ (contains-append field sep _ (contains-join sep [] field after))
contains-join sep (part ∷ next ∷ before) field after =
    contains-append field part _
      (contains-append field sep _ (contains-join sep (next ∷ before) field after))

-- The errors of a type, in the list from one on.
keep_split :
    {A : Type 0} (p : A → Bool) (before : List A) (e : A) (after : List A)
    → p e ≡ true
    → keep p (before ++ e ∷ after) ≡ keep p before ++ e ∷ keep p after
keep_split p [] e after h = rw h refl
keep_split p (x ∷ before) e after h = ground (arith, keep_split p before e after h)

any_split :
    {A : Type 0} (p : A → Bool) (before : List A) (e : A) (after : List A)
    → p e ≡ true
    → any p (before ++ e ∷ after) ≡ true
any_split p [] e after h = rw h refl
any_split p (x ∷ before) e after h = ground (arith, any_split p before e after h)

fields_named :
    (before : List FieldError) (e : FieldError) (after : List FieldError)
    → contains e.field (fields_of (before ++ e ∷ after)) ≡ true
fields_named before e after =
    rw (map-append (λ d. d.field) before (e ∷ after))
      (contains-join (codes ", ") (map (λ d. d.field) before) e.field (map (λ d. d.field) after))

missing_named :
    (before : List FieldError) (e : FieldError) (after : List FieldError)
    → contains e.field (missing_message (before ++ e ∷ after)) ≡ true
missing_named [] e [] =
    contains-append e.field (codes "Required field '")
      (e.field ++ codes "'" ++ codes " is missing.")
      (contains-append_right e.field (e.field ++ codes "'") (codes " is missing.")
        (contains-field e.field (codes "'")))
missing_named [] e (d ∷ after) =
    contains-append e.field (codes "Required fields are missing: ") (fields_of (e ∷ d ∷ after))
      (fields_named [] e (d ∷ after))
missing_named (c ∷ []) e after =
    contains-append e.field (codes "Required fields are missing: ") (fields_of (c ∷ e ∷ after))
      (fields_named (c ∷ []) e after)
missing_named (c ∷ b ∷ before) e after =
    contains-append e.field (codes "Required fields are missing: ")
      (fields_of (c ∷ b ∷ before ++ e ∷ after)) (fields_named (c ∷ b ∷ before) e after)

overall_message-missing :
    (before : List FieldError) (e : FieldError) (after : List FieldError)
    → any (is_type (codes "json_invalid")) (before ++ e ∷ after) ≡ false
    → is_type (codes "missing") e ≡ true
    → contains e.field (overall_message (before ++ e ∷ after)) ≡ true
unfolding overall_message
overall_message-missing before e after valid missing =
    rw
      (
        valid,
        any_split (is_type (codes "missing")) before e after missing,
        keep_split (is_type (codes "missing")) before e after missing,
      )
      (missing_named (keep (is_type (codes "missing")) before) e
        (keep (is_type (codes "missing")) after))

extract-append :
    (before after : List ErrorDetails)
    → extract_validation_errors (before ++ after)
      ≡ extract_validation_errors before ++ extract_validation_errors after
unfolding extract_validation_errors
extract-append before after = map-append details_of before after

any-extract :
    (error_type : Text) (errors : List ErrorDetails)
    → any (is_type error_type) (extract_validation_errors errors)
      ≡ any (λ e. text_eq e.error_type error_type) errors
unfolding extract_validation_errors
any-extract error_type [] = refl
any-extract error_type (e ∷ errors) = rw (any-extract error_type errors) refl

contains-text_or :
    (needle s t : Text) → contains needle s ≡ true → contains needle (text_or (some s) t) ≡ true
unfolding contains starts_with
contains-text_or [] [] t h = contains_self [] t refl
contains-text_or (c ∷ needle) [] t h = cc
contains-text_or needle (d ∷ s) t h = h

-- The message of the response names every missing field, unless one of the errors is invalid JSON.
pub missing_fields_named :
    (before : List ErrorDetails) (e : ErrorDetails) (after : List ErrorDetails)
    → any (λ d. text_eq d.error_type (codes "json_invalid")) (before ++ e ∷ after) ≡ false
    → text_eq e.error_type (codes "missing") ≡ true
    → contains (format_field_path e.loc) (validation_exception (before ++ e ∷ after)).message ≡ true
unfolding validation_exception validation_failure init to_response
missing_fields_named before e after valid missing =
    let found = extract_validation_errors before in
    let rest = extract_validation_errors after in
    contains-text_or (format_field_path e.loc)
      (overall_message (extract_validation_errors (before ++ e ∷ after))) (codes "Validation Error")
      (rw (extract-append before (e ∷ after)) (
        overall_message-missing found (details_of e) rest
          (rw
            (
              ← extract-append before (e ∷ after),
              any-extract (codes "json_invalid") (before ++ e ∷ after),
            )
            valid)
          missing))

-- The response to validation errors has the status 422 and the code VALIDATION_ERROR, and its context
-- shows the field, the message and the type of every error, in order.
pub validation_exception_exact :
    (e : ErrorDetails) (errors : List ErrorDetails)
    → let response = validation_exception (e ∷ errors) in
      (response.status_code ≡ 422)
      × ((response.code ≡ codes "VALIDATION_ERROR")
          × (response.context
              ≡ some (
                  (
                    codes "errors",
                    objects (map error_object (extract_validation_errors (e ∷ errors))),
                  )
                  ∷ [])))
unfolding validation_exception validation_failure init to_response put
validation_exception_exact e errors = (refl, (refl, refl))
