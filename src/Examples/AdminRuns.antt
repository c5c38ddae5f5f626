-- ===== src/Examples/AdminRuns.antt =====
-- The theorems on the admin sessions at concrete inputs, over a small class in the place of the
-- package's, which knows one password.
use backend_prod_ready.Prelude.{
  Bool, Text, [], arith, codes, false, if◌then◌else◌, none, refl, some, strip, text_eq, true, ◌∷◌,
  ◌≡◌, ◌≢◌,
}
use backend_prod_ready.Dict.{find, put}
use backend_prod_ready.Dict.Laws.{find-put}
use backend_prod_ready.Exec.{ok}
use backend_prod_ready.Settings.{
  validate, validate_admin_password, validate_cors_origins, validate_jwt_secret,
  validate_mfa_settings, validate_trusted_proxy_cidrs,
}
use backend_prod_ready.Examples.SecurityRuns.{lib}
use backend_prod_ready.Examples.SettingsRuns.{hardened, is_ascii_digit}
use backend_prod_ready.Security.Proxy.{extract_client_ip_secure}
use backend_prod_ready.Security.AdminSession.{
  AdminBackend, Entry, IsPlain, Request, Session, admin_authenticated, admitted, authenticate_admin,
  flag, is_truthy, is_verified, login_admin, mfa_verified, redirected,
}
use backend_prod_ready.Security.AdminSession.Mfa.{
  visits, production_admits_nobody, login_visit, authenticate_visit,
}
use backend_prod_ready.Security.AdminSession.Origin.{outsider_refused}

abbrev password_login : Text → Session → Bool × Session
password_login form s =
    if text_eq form (codes "pw") then (true, put admin_authenticated (flag true) s) else (false, s)

abbrev backend : AdminBackend
backend = record {
  Form = Text;
  login = password_login;
  logout = λ s. (true, []);
  authenticate = λ s. (if is_truthy (find admin_authenticated s) then admitted else redirected, s);
}

other_key : (s : Session) (e : Entry) → is_verified (put admin_authenticated e s) ≡ is_verified s
unfolding text_eq
other_key s e = rw (find-put admin_authenticated mfa_verified e s) refl

backend-IsPlain : IsPlain backend
unfolding find
backend-IsPlain = record {
  login_plain = λ form s h. ground (arith, other_key s (flag true));
  logout_plain = λ s h. refl;
  authenticate_plain = λ s h. h;
  admitted_authenticated = λ s h. ground arith;
}

abbrev request : Request Text
request = record { x_forwarded_for = none; client = some (codes "9.9.9.9"); form = codes "pw" }

hardened_valid : validate is_ascii_digit hardened ≡ ok hardened
unfolding validate validate_jwt_secret validate_admin_password validate_mfa_settings
    validate_cors_origins validate_trusted_proxy_cidrs text_eq
hardened_valid = refl

production_admits_nobody_example :
    (authenticate_admin lib backend hardened [] request
      (visits lib backend hardened [] [] (login_visit request ∷ authenticate_visit request ∷ []))).0
    ≢ ok admitted
production_admits_nobody_example =
    production_admits_nobody lib backend hardened [] backend-IsPlain is_ascii_digit refl
      hardened_valid (login_visit request ∷ authenticate_visit request ∷ []) []
      (unfold find in refl) request

outsider_refused_example :
    (login_admin lib backend hardened (codes "8.8.8.8" ∷ []) request [] ≡ (ok false, []))
    × (authenticate_admin lib backend hardened (codes "8.8.8.8" ∷ []) request []
        ≡ (ok redirected, []))
unfolding extract_client_ip_secure text_eq strip
outsider_refused_example =
    outsider_refused lib backend hardened (codes "8.8.8.8" ∷ []) request [] (codes "9.9.9.9") refl
      refl refl
