-- ===== src/Examples/SettingsRuns.antt =====
-- The theorems on the settings at concrete inputs.
use backend_prod_ready.Prelude.{Bool, [], codes, leb, refl, true, ℕ, ◌&&◌, ◌↔◌, ◌∷◌, ◌≡◌}
use backend_prod_ready.Exec.{ok}
use backend_prod_ready.Settings.{Settings, prod, validate}
use backend_prod_ready.Settings.Accepted.{is_hardened, validate_prod}

abbrev pub is_ascii_digit : ℕ → Bool
is_ascii_digit c = leb b'0' c && leb c b'9'

abbrev pub hardened : Settings
hardened = record {
  environment = prod;
  env_jwt_secret = codes "k";
  admin_password = codes "Correct-horse-9-staple";
  mfa_enabled = true;
  mfa_secret = codes "s";
  cors_origins = codes "https://example.org" ∷ [];
  trusted_proxy_cidrs = codes "10.1.0.0/24" ∷ [];
}

validate_prod_example :
    (validate is_ascii_digit hardened ≡ ok hardened) ↔ (is_hardened is_ascii_digit hardened ≡ true)
validate_prod_example = validate_prod is_ascii_digit hardened refl
