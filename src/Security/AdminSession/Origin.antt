-- ===== src/Security/AdminSession/Origin.antt =====
-- The addresses from which the admin backend of
-- backend/core/infrastructure/admin/auth_backend.py lets anybody in.
use backend_prod_ready.Prelude.{List, Text, any, false, refl, ◌≡◌}
use backend_prod_ready.Exec.{ok}
use backend_prod_ready.Settings.{Settings, is_nil}
use backend_prod_ready.Security.Proxy.{IpAddress, extract_client_ip_secure}
use backend_prod_ready.Security.Allowlist.{check_ip_allowed-any, entry_admits}
use backend_prod_ready.Security.AdminSession.{
  AdminBackend, Request, Session, authenticate_admin, authenticate_allowed, check_request_ip,
  get_client_ip, login_admin, redirect_logged, redirected,
}

module _ (lib : IpAddress) (parent : AdminBackend) (settings : Settings)
    (allowed_ips : List Text) where
  open parent use {Form}

  -- The test of the address in terms of the entries of the list.
  check_request_ip_exact :
      (r : Request Form) (s : Session) (ip : Text)
      → is_nil allowed_ips ≡ false
      → extract_client_ip_secure lib settings.trusted_proxy_cidrs r.x_forwarded_for r.client ≡ ok ip
      → check_request_ip lib parent settings allowed_ips r s
        ≡ (ok (any (entry_admits lib ip) allowed_ips), s)
  unfolding check_request_ip get_client_ip
  check_request_ip_exact r s ip listed h =
      rw (listed, h, check_ip_allowed-any lib allowed_ips ip, listed) refl

  -- If a list is configured and no entry admits the address of the client, a login fails, a request
  -- is redirected to the login, and both leave the session as it was.
  pub outsider_refused :
      (r : Request Form) (s : Session) (ip : Text)
      → is_nil allowed_ips ≡ false
      → extract_client_ip_secure lib settings.trusted_proxy_cidrs r.x_forwarded_for r.client ≡ ok ip
      → any (entry_admits lib ip) allowed_ips ≡ false
      → (login_admin lib parent settings allowed_ips r s ≡ (ok false, s))
        × (authenticate_admin lib parent settings allowed_ips r s ≡ (ok redirected, s))
  unfolding login_admin authenticate_admin authenticate_allowed redirect_logged get_client_ip
  outsider_refused r s ip listed h out =
      let e = check_request_ip_exact r s ip listed h in (rw (e, out) refl, rw (e, out, h) refl)
