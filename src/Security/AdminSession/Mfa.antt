-- ===== src/Security/AdminSession/Mfa.antt =====
-- The second factor of the admin sessions: `login` marks the session as not verified, and nothing in
-- backend/core/infrastructure/admin/auth_backend.py or elsewhere in the repository verifies it.
use backend_prod_ready.Prelude.{
  List, Text, [], ◌∷◌, ◌≡◌, Bool, false, if_cases, if◌then◌else◌, refl, text_eq, true, arith, ◌≢◌,
  ℕ,
}
use backend_prod_ready.Dict.{put}
use backend_prod_ready.Dict.Laws.{find-put, find-put_self}
use backend_prod_ready.Exec.{Exec, Result, continue, ok, raised, pure, ◌>>=◌}
use backend_prod_ready.Settings.{Settings, validate, prod, is_nil}
use backend_prod_ready.Settings.Accepted.{is_hardened, validate_prod}
use backend_prod_ready.Security.Proxy.{ConfigurationError, IpAddress}
use backend_prod_ready.Security.Allowlist.{check_ip_allowed}
use backend_prod_ready.Security.AdminSession.{
  AdminBackend, Request, Session, authenticate_admin, check_request_ip, get_client_ip, login_admin,
  logout_admin, admin_client_ip, flag, is_verified, mfa_verified, text, IsPlain, admitted,
  login_accepted, authenticate_allowed, redirect_logged, redirected,
}

-- Hardened settings enable MFA.
hardened_mfa :
    (settings : Settings) (is_digit : ℕ → Bool)
    → is_hardened is_digit settings ≡ true
    → settings.mfa_enabled ≡ true
hardened_mfa settings is_digit h = ground arith

module _ (lib : IpAddress) (parent : AdminBackend) (settings : Settings)
    (allowed_ips : List Text) where
  open parent use {Form}

  -- A request that reaches the backend.
  pub data Visit : Type 0 where
    login_visit logout_visit authenticate_visit : Request Form → Visit

  -- What a visit leaves of the session, whether it raises or not.
  unfoldable pub visit : Session → Visit → Session
  visit s (login_visit r) = (login_admin lib parent settings allowed_ips r s).1
  visit s (logout_visit r) = (logout_admin lib parent settings allowed_ips r s).1
  visit s (authenticate_visit r) = (authenticate_admin lib parent settings allowed_ips r s).1

  unfoldable pub visits : Session → List Visit → Session
  visits s [] = s
  visits s (v ∷ vs) = visits (visit s v) vs

  -- The invariant of the visits: nothing says that the second factor was verified.
  abbrev IsUnverified : Session → Type 0
  IsUnverified s = is_verified s ≡ false

  abbrev Method : Type 0 → Type 0
  Method A = Exec Session ConfigurationError A

  abbrev IsKept : {A : Type 0} → Method A → Type 0
  IsKept m = (s : Session) → IsUnverified s → IsUnverified (m s).1

  continue_kept :
      {A B : Type 0} (c : Result ConfigurationError A × Session) (f : A → Method B)
      → IsUnverified c.1
      → ((a : A) → IsKept (f a))
      → IsUnverified (continue c f).1
  continue_kept (ok a, s) f u q = q a s u
  continue_kept (raised e, s) f u q = u

  bind-IsKept :
      {A B : Type 0} (m : Method A) (f : A → Method B)
      → IsKept m
      → ((a : A) → IsKept (f a))
      → IsKept (m >>= f)
  bind-IsKept m f p q s u = continue_kept (m s) f (p s u) q

  get_client_ip-IsKept :
      (r : Request Form) → IsKept (get_client_ip lib parent settings allowed_ips r)
  unfolding get_client_ip
  get_client_ip-IsKept r s u = u

  check_request_ip-IsKept :
      (r : Request Form) → IsKept (check_request_ip lib parent settings allowed_ips r)
  unfolding check_request_ip
  check_request_ip-IsKept r =
      if_cases IsKept (is_nil allowed_ips) (pure true)
        (get_client_ip lib parent settings allowed_ips r
          >>= (λ ip. pure (check_ip_allowed lib allowed_ips ip)))
        (λ h s u. u)
        (λ h.
          bind-IsKept (get_client_ip lib parent settings allowed_ips r)
            (λ ip. pure (check_ip_allowed lib allowed_ips ip)) (get_client_ip-IsKept r)
            (λ ip s u. u))

  logged-IsUnverified :
      (mfa : Bool) (ip : Text) (s : Session)
      → IsUnverified s
      → IsUnverified (
          let logged = put admin_client_ip (text ip) s in
          if mfa then put mfa_verified (flag false) logged else logged)
  unfolding text_eq
  logged-IsUnverified true ip s p =
      rw (find-put_self mfa_verified (flag false) (put admin_client_ip (text ip) s)) refl
  logged-IsUnverified false ip s p = rw (find-put admin_client_ip mfa_verified (text ip) s) p

  login_accepted-IsKept :
      (r : Request Form) → IsKept (login_accepted lib parent settings allowed_ips r)
  unfolding login_accepted
  login_accepted-IsKept r =
      bind-IsKept (get_client_ip lib parent settings allowed_ips r) _ (get_client_ip-IsKept r)
        (λ ip s u. logged-IsUnverified settings.mfa_enabled ip s u)

  module _ (plain : IsPlain parent) where
    open plain use {login_plain, logout_plain, authenticate_plain, admitted_authenticated}

    login_admin-IsKept : (r : Request Form) → IsKept (login_admin lib parent settings allowed_ips r)
    unfolding login_admin
    login_admin-IsKept r =
        bind-IsKept (check_request_ip lib parent settings allowed_ips r) _
          (check_request_ip-IsKept r)
          (λ allowed s u.
            ground (arith, login_plain r.form s, login_accepted-IsKept r (parent.login r.form s).1))

    logout_admin-IsKept :
        (r : Request Form) → IsKept (logout_admin lib parent settings allowed_ips r)
    unfolding logout_admin
    logout_admin-IsKept r =
        bind-IsKept (get_client_ip lib parent settings allowed_ips r) _ (get_client_ip-IsKept r)
          (λ ip s u. logout_plain s u)

    redirect_refuses :
        (r : Request Form) (s : Session)
        → (redirect_logged lib parent settings allowed_ips r s).0 ≢ ok admitted
    unfolding redirect_logged
    redirect_refuses r s = refused (get_client_ip lib parent settings allowed_ips r s)
      where
        refused :
            (c : Result ConfigurationError Text × Session)
            → (continue c (λ ip s. (ok redirected, s))).0 ≢ ok admitted
        refused (ok ip, s') h = ground arith
        refused (raised e, s') h = ground arith

    redirect_logged-IsKept :
        (r : Request Form) → IsKept (redirect_logged lib parent settings allowed_ips r)
    unfolding redirect_logged
    redirect_logged-IsKept r =
        bind-IsKept (get_client_ip lib parent settings allowed_ips r) _ (get_client_ip-IsKept r)
          (λ ip s u. u)

    authenticate_admin-IsKept :
        (r : Request Form) → IsKept (authenticate_admin lib parent settings allowed_ips r)
    unfolding authenticate_admin authenticate_allowed
    authenticate_admin-IsKept r =
        bind-IsKept (check_request_ip lib parent settings allowed_ips r) _
          (check_request_ip-IsKept r)
          (λ allowed s u. ground (arith, authenticate_plain s, redirect_logged-IsKept r s))

    visits_kept : (vs : List Visit) (s : Session) → IsUnverified s → IsUnverified (visits s vs)
    unfolding visits visit
    visits_kept [] s u = u
    visits_kept (login_visit r ∷ vs) s u =
        visits_kept vs (login_admin lib parent settings allowed_ips r s).1
          (login_admin-IsKept r s u)
    visits_kept (logout_visit r ∷ vs) s u =
        visits_kept vs (logout_admin lib parent settings allowed_ips r s).1
          (logout_admin-IsKept r s u)
    visits_kept (authenticate_visit r ∷ vs) s u =
        visits_kept vs (authenticate_admin lib parent settings allowed_ips r s).1
          (authenticate_admin-IsKept r s u)

    admitted_verified :
        (c : Result ConfigurationError Bool × Session) (r : Request Form)
        → settings.mfa_enabled ≡ true
        → IsUnverified c.1
        → (continue c (authenticate_allowed lib parent settings allowed_ips r)).0 ≢ ok admitted
    unfolding authenticate_allowed
    admitted_verified (ok true, s') r mfa u h =
        ground (arith, admitted_authenticated s', redirect_refuses r s')
    admitted_verified (ok false, s') r mfa u h = redirect_refuses r s' h
    admitted_verified (raised e, s') r mfa u h = ground arith

    -- With MFA enabled, no request is admitted, whatever logins, logouts and requests came before it
    -- from a session that is not verified, over a package that knows nothing of the second factor and
    -- admits nobody who has not logged in.
    pub mfa_admits_nobody :
        settings.mfa_enabled ≡ true
        → (vs : List Visit) (s : Session) → is_verified s ≡ false
        → (r : Request Form)
        → (authenticate_admin lib parent settings allowed_ips r (visits s vs)).0 ≢ ok admitted
    unfolding authenticate_admin authenticate_allowed
    mfa_admits_nobody mfa vs s u r =
        let now = visits s vs in
        admitted_verified (check_request_ip lib parent settings allowed_ips r now) r mfa
          (check_request_ip-IsKept r now (visits_kept vs s u))

    -- With production settings that pass their validators, no request is admitted, whatever logins,
    -- logouts and requests came before it from a session that is not verified, over a package that
    -- knows nothing of the second factor and admits nobody who has not logged in.
    pub production_admits_nobody :
        (is_digit : ℕ → Bool)
        → settings.environment ≡ prod
        → validate is_digit settings ≡ ok settings
        → (vs : List Visit) (s : Session) → is_verified s ≡ false
        → (r : Request Form)
        → (authenticate_admin lib parent settings allowed_ips r (visits s vs)).0 ≢ ok admitted
    production_admits_nobody is_digit e valid =
        mfa_admits_nobody
          (hardened_mfa settings is_digit ((validate_prod is_digit settings e).0 valid))
