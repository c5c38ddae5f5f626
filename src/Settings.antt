-- ===== src/Settings.antt =====
-- The validators of `Settings` in backend/core/conf/settings.py, in the order in which pydantic runs
-- them; the first that raises ends the validation. Only the settings that they read are modelled.
pub mod Accepted
use backend_prod_ready.Prelude.{
  Bool, List, Option, Text, [], all, any, codes, false, if◌then◌else◌, is_empty, length, ltb, none,
  not, some, true, ℕ, ◌&&◌, ◌∷◌, text_eq, leb, ◌==◌,
}
use backend_prod_ready.Exec.{Result, ok, raised}

pub data Environment : Type 0 where
  local dev prod : Environment

pub record Settings : Type 0 where
  pub environment : Environment
  -- os.getenv("JWT_SECRET"), None as the empty text
  pub env_jwt_secret : Text
  pub admin_password : Text
  pub mfa_enabled : Bool
  pub mfa_secret : Text
  pub cors_origins : List Text
  pub trusted_proxy_cidrs : List Text

-- The messages of the ValueErrors.
pub data Invalid : Type 0 where
  jwt_secret_missing : Invalid
  password_too_short password_too_simple password_weak : Invalid
  mfa_disabled mfa_secret_missing : Invalid
  cors_origins_missing : Invalid
  cidrs_default cidrs_too_broad : Invalid

abbrev pub is_prod : Environment → Bool
is_prod prod = true
is_prod _ = false

-- One validator: an error or nothing.
abbrev pub Validator : Type 0
Validator = Settings → Option Invalid

-- `validate_jwt_secret`
unfoldable pub validate_jwt_secret : Validator
validate_jwt_secret s =
    if is_prod s.environment && is_empty s.env_jwt_secret then some jwt_secret_missing else none

-- The characters of the class of special characters.
abbrev pub special_characters : Text
special_characters = codes "!@#$%^&*(),.?\":{}|<>_-+=[]\\/;~`"

abbrev pub is_upper : ℕ → Bool
is_upper c = leb b'A' c && leb c b'Z'

abbrev pub is_lower : ℕ → Bool
is_lower c = leb b'a' c && leb c b'z'

abbrev pub is_special : ℕ → Bool
is_special c = any (λ d. d == c) special_characters

abbrev pub weak_passwords : List Text
weak_passwords =
    codes "admin123" ∷ codes "password123" ∷ codes "Admin123456" ∷ codes "Password1234!" ∷ []

-- `x in xs` for texts
abbrev pub has_text : List Text → Text → Bool
has_text xs x = any (λ y. text_eq y x) xs

abbrev pub dev_only_defaults : List Text
dev_only_defaults =
    codes "127.0.0.0/8"
    ∷ codes "::1/128"
    ∷ codes "172.17.0.0/16"
    ∷ codes "172.18.0.0/16"
    ∷ codes "172.19.0.0/16"
    ∷ []

abbrev pub overly_broad_cidrs : List Text
overly_broad_cidrs = codes "10.0.0.0/8" ∷ codes "192.168.0.0/16" ∷ codes "172.16.0.0/12" ∷ []

-- `validate_mfa_settings`
unfoldable pub validate_mfa_settings : Validator
validate_mfa_settings s =
    if is_prod s.environment && not s.mfa_enabled
    then some mfa_disabled
    else if s.mfa_enabled && is_empty s.mfa_secret
    then some mfa_secret_missing
    else none

abbrev pub is_nil : List Text → Bool
is_nil [] = true
is_nil (_ ∷ _) = false

-- `validate_cors_origins`
unfoldable pub validate_cors_origins : Validator
validate_cors_origins s =
    if is_nil s.cors_origins && is_prod s.environment then some cors_origins_missing else none

-- `validate_trusted_proxy_cidrs`
unfoldable pub validate_trusted_proxy_cidrs : Validator
validate_trusted_proxy_cidrs s =
    if not (is_prod s.environment)
    then none
    else if all (has_text dev_only_defaults) s.trusted_proxy_cidrs
    then some cidrs_default
    else if any (has_text overly_broad_cidrs) s.trusted_proxy_cidrs
    then some cidrs_too_broad
    else none

-- `is_digit` is what the class `\d` matches in a text: the decimal digits of Unicode.
module _ (is_digit : ℕ → Bool) where
  -- `_has_upper and _has_lower and _has_digit and _has_special`
  abbrev pub is_complex : Text → Bool
  is_complex password =
      any is_upper password
      && (any is_lower password && (any is_digit password && any is_special password))

  -- `validate_admin_password`
  unfoldable pub validate_admin_password : Validator
  validate_admin_password s =
      if not (is_prod s.environment)
      then none
      else if ltb (length s.admin_password) 16
      then some password_too_short
      else if not (is_complex s.admin_password)
      then some password_too_simple
      else if has_text weak_passwords s.admin_password
      then some password_weak
      else none

  -- The validators, in the order of their definition.
  abbrev pub validators : List Validator
  validators =
      validate_jwt_secret ∷ validate_admin_password ∷ validate_mfa_settings ∷ validate_cors_origins
      ∷ validate_trusted_proxy_cidrs ∷ []

first_error : List Validator → Settings → Option Invalid
first_error [] s = none
first_error (v ∷ vs) s = let rest = first_error vs s in elim (v s) [ some e ↦ some e | none ↦ rest ]

-- `Settings(…)`: the settings, or the error of the first validator that raises.
unfoldable pub validate : (ℕ → Bool) → Settings → Result Invalid Settings
unfolding first_error
validate is_digit s = elim (first_error (validators is_digit) s) [ none ↦ ok s | some e ↦ raised e ]
