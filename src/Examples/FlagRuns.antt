-- ===== src/Examples/FlagRuns.antt =====
-- The theorems on feature flags at concrete inputs.
use backend_prod_ready.Prelude.{false, none, true, ◌≡◌}
use backend_prod_ready.Exec.{ok}
use backend_prod_ready.Cache.Redis.{connected}
use backend_prod_ready.Cache.Service.{prod}
use backend_prod_ready.Cache.Store.Connected.{connected-IsFaithful}
use backend_prod_ready.Cache.Store.Fallback.{service}
use backend_prod_ready.FeatureFlags.{is_enabled, set_flag, stripe_webhooks_enabled}
use backend_prod_ready.FeatureFlags.Meaning.{is_enabled-set_flag}
use backend_prod_ready.Examples.Server.{
  connected_world, connected_world-IsConnected, server-IsReliable, server_with,
}

is_enabled-set_flag_example :
    (is_enabled
      (service (server_with connected) prod)
      stripe_webhooks_enabled
      true
      (set_flag
        (service (server_with connected) prod)
        stripe_webhooks_enabled
        false
        none
        connected_world).1).0
    ≡ ok false
is_enabled-set_flag_example =
    is_enabled-set_flag (service (server_with connected) prod)
      (connected-IsFaithful (server_with connected) prod server-IsReliable) stripe_webhooks_enabled
      false true none connected_world connected_world-IsConnected
