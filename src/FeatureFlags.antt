-- ===== src/FeatureFlags.antt =====
-- `FeatureFlagService` of backend/core/infrastructure/feature_flags.py, over any cache with the methods
-- of `CacheService`. Logs are left out. `str.lower` is the one of the ASCII letters: no other character
-- becomes a letter of a flag value.
pub mod Meaning
pub mod Lifetime
use backend_prod_ready.Prelude.{
  Bool, List, Option, Text, [], any, codes, false, if◌then◌else◌, lower, none, not, some, strip,
  text_eq, true, ℕ, ◌++◌, ◌∷◌,
}
use backend_prod_ready.Exec.{Exec, pure, ◌>>=◌, ◌>>◌}
use backend_prod_ready.Cache.Service.{CacheError}
use backend_prod_ready.Cache.Store.{CacheStore}

pub data FeatureFlag : Type 0 where
  paddle_webhooks_enabled stripe_webhooks_enabled subscription_renewals_enabled : FeatureFlag
  telegram_notifications_enabled email_notifications_enabled : FeatureFlag
  rate_limiting_enabled new_user_registration_enabled : FeatureFlag
  maintenance_mode read_only_mode : FeatureFlag

-- `flag.value`
abbrev pub value : FeatureFlag → Text
value paddle_webhooks_enabled = codes "paddle_webhooks_enabled"
value stripe_webhooks_enabled = codes "stripe_webhooks_enabled"
value subscription_renewals_enabled = codes "subscription_renewals_enabled"
value telegram_notifications_enabled = codes "telegram_notifications_enabled"
value email_notifications_enabled = codes "email_notifications_enabled"
value rate_limiting_enabled = codes "rate_limiting_enabled"
value new_user_registration_enabled = codes "new_user_registration_enabled"
value maintenance_mode = codes "maintenance_mode"
value read_only_mode = codes "read_only_mode"

-- `list(FeatureFlag)`
abbrev pub all_flags : List FeatureFlag
all_flags =
    paddle_webhooks_enabled ∷ stripe_webhooks_enabled ∷ subscription_renewals_enabled
    ∷ telegram_notifications_enabled ∷ email_notifications_enabled ∷ rate_limiting_enabled
    ∷ new_user_registration_enabled ∷ maintenance_mode ∷ read_only_mode ∷ []

-- `flag in CRITICAL_FLAGS`
abbrev pub is_critical : FeatureFlag → Bool
is_critical paddle_webhooks_enabled = true
is_critical stripe_webhooks_enabled = true
is_critical subscription_renewals_enabled = true
is_critical maintenance_mode = true
is_critical read_only_mode = true
is_critical rate_limiting_enabled = true
is_critical _ = false

-- TEMPORARY_TTL
abbrev pub temporary_ttl : ℕ
temporary_ttl = 3600

-- `_build_key`
unfoldable pub build_key : FeatureFlag → Text
build_key flag = codes "feature_flag" ++ (codes ":" ++ value flag)

abbrev pub truthy_values : List Text
truthy_values = codes "true" ∷ codes "1" ∷ codes "yes" ∷ codes "enabled" ∷ []

abbrev pub falsy_values : List Text
falsy_values = codes "false" ∷ codes "0" ∷ codes "no" ∷ codes "disabled" ∷ []

abbrev pub has_text : List Text → Text → Bool
has_text xs x = any (λ y. text_eq y x) xs

-- What `is_enabled` makes of the value in the cache.
unfoldable pub parse_value : Bool → Option Text → Bool
parse_value default none = default
parse_value default (some v) =
    let normalized = strip (lower v) in
    if has_text truthy_values normalized
    then true
    else if has_text falsy_values normalized
    then false
    else default

-- The lifetime that `set_flag` chooses.
unfoldable pub ttl_of : FeatureFlag → Option Bool → Option ℕ
ttl_of flag none = if is_critical flag then none else some temporary_ttl
ttl_of flag (some persistent) = if persistent then none else some temporary_ttl

abbrev pub text_of : Bool → Text
text_of enabled = if enabled then codes "true" else codes "false"

module _ (c : CacheStore) where
  abbrev pub Action : Type 0 → Type 0
  Action A = Exec c.State CacheError A

  -- `is_enabled`
  unfoldable pub is_enabled : FeatureFlag → Bool → Action Bool
  is_enabled flag default = do v ← c.get (build_key flag); pure (parse_value default v)

  -- `is_disabled`
  unfoldable pub is_disabled : FeatureFlag → Bool → Action Bool
  unfolding is_enabled
  is_disabled flag default = do enabled ← is_enabled flag default; pure (not enabled)

  -- `set_flag`
  unfoldable pub set_flag : FeatureFlag → Bool → Option Bool → Action (Unit {0})
  set_flag flag enabled persistent = do
    c.set (build_key flag) (text_of enabled) (ttl_of flag persistent)
    pure tt

  -- `clear_flag`
  unfoldable pub clear_flag : FeatureFlag → Action (Unit {0})
  clear_flag flag = do c.delete (build_key flag); pure tt

  -- The loop of `get_all_flags`, with the default of `is_enabled`.
  unfoldable pub get_flags : List FeatureFlag → Action (List (Text × Bool))
  unfolding is_enabled
  get_flags [] = pure []
  get_flags (flag ∷ flags) = do
    enabled ← is_enabled flag true
    rest ← get_flags flags
    pure ((value flag, enabled) ∷ rest)

  -- `get_all_flags`
  unfoldable pub get_all_flags : Action (List (Text × Bool))
  unfolding get_flags
  get_all_flags = get_flags all_flags

  -- `set_maintenance_mode`
  unfoldable pub set_maintenance_mode : Bool → Action (Unit {0})
  unfolding set_flag
  set_maintenance_mode enabled = set_flag maintenance_mode enabled none

  -- `is_maintenance_mode`
  unfoldable pub is_maintenance_mode : Action Bool
  unfolding is_enabled
  is_maintenance_mode = is_enabled maintenance_mode false
