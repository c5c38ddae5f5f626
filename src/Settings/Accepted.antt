-- ===== src/Settings/Accepted.antt =====
-- Which settings start the application.
use backend_prod_ready.Prelude.{
  Bool, Bool-cases, Text, all, any, ap, arith, codes, false, inl, inr, is_empty, leb, length, ltb,
  not, text_eq, text_eq_iff, true, ℕ, ◌&&◌, ◌↔◌, ◌≡◌, ◌≢◌, refl, if◌then◌else◌,
}
use backend_prod_ready.Exec.{ok}
use backend_prod_ready.Settings.{
  Settings, dev_only_defaults, has_text, is_complex, is_nil, overly_broad_cidrs, prod, validate,
  validate_admin_password, validate_cors_origins, validate_jwt_secret, validate_mfa_settings,
  validate_trusted_proxy_cidrs, weak_passwords,
}

length_ne : (s t : Text) → length s ≢ length t → text_eq s t ≡ false
length_ne s t h = elim (Bool-cases (text_eq s t)) [
  | inl e ↦ absurd (h (ap length ((text_eq_iff s t).0 e)))
  | inr e ↦ e
]

short_ne : (s t : Text) → ltb (length s) 16 ≡ true → ltb (length t) 16 ≡ false → text_eq s t ≡ false
short_ne s t short long = length_ne s t (λ e. ground arith)

or_false : {a b : Bool} → a ≡ false → b ≡ false → (if a then true else b) ≡ false
or_false h k = ground arith

-- No weak password is long enough to reach the test for weak passwords.
weak_short :
    (password : Text) → ltb (length password) 16 ≡ false → has_text weak_passwords password ≡ false
weak_short password long =
    let a = short_ne (codes "admin123") password refl long in
    let b = short_ne (codes "password123") password refl long in
    let c = short_ne (codes "Admin123456") password refl long in
    let d = short_ne (codes "Password1234!") password refl long in
    or_false a (or_false b (or_false c (or_false d refl)))

module _ (is_digit : ℕ → Bool) where
  -- What production asks of the settings.
  abbrev pub is_hardened : Settings → Bool
  is_hardened s =
      not (is_empty s.env_jwt_secret)
      && (leb 16 (length s.admin_password)
          && (is_complex is_digit s.admin_password
              && (s.mfa_enabled
                  && (not (is_empty s.mfa_secret)
                      && (not (is_nil s.cors_origins)
                          && (not (all (has_text dev_only_defaults) s.trusted_proxy_cidrs)
                              && not (any (has_text overly_broad_cidrs) s.trusted_proxy_cidrs)))))))

  -- In production the settings are accepted exactly if they are hardened in all eight ways: the test
  -- for weak passwords refuses nothing that the other tests let through.
  pub validate_prod :
      (s : Settings) → s.environment ≡ prod → (validate is_digit s ≡ ok s) ↔ (is_hardened s ≡ true)
  unfolding validate validate_jwt_secret validate_admin_password validate_mfa_settings
      validate_cors_origins validate_trusted_proxy_cidrs
  validate_prod s e = (
    λ h. ground (arith, weak_short s.admin_password),
    λ h. ground (arith, weak_short s.admin_password),
  )

  -- Outside production the settings are accepted exactly if MFA is off or has its secret.
  pub validate_not_prod :
      (s : Settings)
      → s.environment ≢ prod
      → (validate is_digit s ≡ ok s) ↔ (s.mfa_enabled && is_empty s.mfa_secret ≡ false)
  unfolding validate validate_jwt_secret validate_admin_password validate_mfa_settings
      validate_cors_origins validate_trusted_proxy_cidrs
  validate_not_prod s e = (λ h. ground arith, λ h. ground arith)
