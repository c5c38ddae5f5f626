-- ===== src/Security/AdminSession.antt =====
-- `AdminAuthBackend` of backend/core/infrastructure/admin/auth_backend.py: login, logout and
-- authenticate over the session of the request. The class that it extends is the package
-- identity-plan-kit's and a parameter. Logs are left out, so is the reading of the form for them.
pub mod Mfa
pub mod Origin
use backend_prod_ready.Prelude.{
  Bool, List, Option, Text, codes, false, if◌then◌else◌, is_empty, none, not, some, true, ◌&&◌, ◌≡◌,
}
use backend_prod_ready.Dict.{Dict, find, put}
use backend_prod_ready.Dict.Laws.{}
use backend_prod_ready.Exec.{Exec, ok, pure, ◌>>=◌}
use backend_prod_ready.Settings.{Settings, validate, prod, is_nil}
use backend_prod_ready.Settings.Accepted.{is_hardened, validate_prod}
use backend_prod_ready.Security.Proxy.{ConfigurationError, IpAddress, extract_client_ip_secure}
use backend_prod_ready.Security.Allowlist.{check_ip_allowed}

-- What a session holds under a key.
pub data Entry : Type 0 where
  text : Text → Entry
  flag : Bool → Entry

abbrev pub Session : Type 0
Session = Dict Entry

abbrev pub is_truthy : Option Entry → Bool
is_truthy none = false
is_truthy (some (text t)) = not (is_empty t)
is_truthy (some (flag b)) = b

abbrev pub admin_authenticated : Text
admin_authenticated = codes "admin_authenticated"

abbrev pub admin_client_ip : Text
admin_client_ip = codes "admin_client_ip"

abbrev pub mfa_verified : Text
mfa_verified = codes "mfa_verified"

abbrev pub is_verified : Session → Bool
is_verified s = is_truthy (find mfa_verified s)

-- A redirection is to the page of the login.
pub data Access : Type 0 where
  admitted redirected : Access

-- `identity_plan_kit.admin.AdminAuthBackend`
pub record AdminBackend : Type 1 where
  pub Form : Type 0
  pub login : Form → Session → Bool × Session
  pub logout : Session → Bool × Session
  pub authenticate : Session → Access × Session

-- The package knows nothing of the second factor, and admits nobody who has not logged in.
pub record IsPlain (parent : AdminBackend) : Type 0 where
  pub login_plain :
      (form : parent.Form) (s : Session)
      → is_verified s ≡ false
      → is_verified (parent.login form s).1 ≡ false
  pub logout_plain : (s : Session) → is_verified s ≡ false → is_verified (parent.logout s).1 ≡ false
  pub authenticate_plain :
      (s : Session) → is_verified s ≡ false → is_verified (parent.authenticate s).1 ≡ false
  pub admitted_authenticated :
      (s : Session)
      → (parent.authenticate s).0 ≡ admitted
      → is_truthy (find admin_authenticated s) ≡ true

pub record Request (Form : Type 0) : Type 0 where
  pub x_forwarded_for : Option Text
  pub client : Option Text
  pub form : Form

module _ (lib : IpAddress) (parent : AdminBackend) (settings : Settings)
    (allowed_ips : List Text) where
  open parent use {Form, login, logout, authenticate}

  abbrev pub Call : Type 0 → Type 0
  Call A = Request Form → Exec Session ConfigurationError A

  -- `_get_client_ip`
  unfoldable pub get_client_ip : Call Text
  get_client_ip request s = (
    extract_client_ip_secure lib settings.trusted_proxy_cidrs request.x_forwarded_for
        request.client,
    s,
  )

  -- `_check_ip_allowed`, which asks for the address only if a list is configured
  unfoldable pub check_request_ip : Call Bool
  check_request_ip request =
      if is_nil allowed_ips
      then pure true
      else get_client_ip request >>= (λ ip. pure (check_ip_allowed lib allowed_ips ip))

  -- The end of `login` after a login that the package accepts.
  unfoldable pub login_accepted : Call Bool
  login_accepted request = get_client_ip request >>= (λ ip s. (
    ok true,
    (let logged = put admin_client_ip (text ip) s in
        if settings.mfa_enabled then put mfa_verified (flag false) logged else logged),
  ))

  -- `login`
  unfoldable pub login_admin : Call Bool
  login_admin request = check_request_ip request >>= (λ allowed s.
      if allowed
      then (let result = login request.form s in
          if result.0 then login_accepted request result.1 else (ok false, result.1))
      else (ok false, s))

  -- `logout`, which asks for the address whether the session has one or not
  unfoldable pub logout_admin : Call Bool
  logout_admin request =
      get_client_ip request >>= (λ ip s. let result = logout s in (ok result.0, result.1))

  -- A redirection, which first asks for the address to log it.
  unfoldable pub redirect_logged : Call Access
  unfolding get_client_ip
  redirect_logged request = get_client_ip request >>= (λ ip s. (ok redirected, s))

  -- `authenticate` after the check of the address
  unfoldable pub authenticate_allowed : Request Form → Bool → Exec Session ConfigurationError Access
  unfolding redirect_logged
  authenticate_allowed request allowed s =
      if allowed
      then (if settings.mfa_enabled
            && (is_truthy (find admin_authenticated s) && not (is_verified s))
          then redirect_logged request s
          else (let result = authenticate s in (ok result.0, result.1)))
      else redirect_logged request s

  -- `authenticate`
  unfoldable pub authenticate_admin : Call Access
  unfolding authenticate_allowed
  authenticate_admin request = check_request_ip request >>= authenticate_allowed request
