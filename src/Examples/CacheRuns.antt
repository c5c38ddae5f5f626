-- ===== src/Examples/CacheRuns.antt =====
-- The theorems on the cache at concrete inputs.
use backend_prod_ready.Prelude.{List, [], false, refl, ◌∷◌, ◌≡◌}
use backend_prod_ready.Cache.Memory.{view}
use backend_prod_ready.Cache.Redis.{connected, connection_error}
use backend_prod_ready.Cache.Service.{dev, prod}
use backend_prod_ready.Cache.Service.Connection.{
  Event, IsConsistent, call, failed_attempt_is_last, react, react_all, react_all-IsConsistent, wait,
}
use backend_prod_ready.Cache.Store.{IsFaithful}
use backend_prod_ready.Cache.Store.Connected.{IsConnected, connected-IsFaithful}
use backend_prod_ready.Cache.Store.Fallback.{service, service-IsFaithful, InFallback, memory_of}
use backend_prod_ready.Examples.Server.{fresh_world, server_with, server-IsReliable}

abbrev events : List (Event (server_with connection_error) dev)
events = call ∷ wait 5 ∷ call ∷ []

react_all-IsConsistent_example :
    IsConsistent dev
      (react_all (server_with connection_error) dev (fresh_world connection_error) events).service
react_all-IsConsistent_example =
    react_all-IsConsistent (server_with connection_error) dev (fresh_world connection_error) events
      (record {
        delay = refl;
        prod_memory = λ e. (refl, refl);
        fallback_has_memory = λ e. absurd (cc e);
      })

failed_attempt_is_last_example :
    let after = react (server_with connection_error) dev (fresh_world connection_error) call in
    ((react_all (server_with connection_error) dev after events).service ≡ after.service)
    × ((react_all (server_with connection_error) dev after events).service.redis_client ≡ false)
failed_attempt_is_last_example =
    failed_attempt_is_last (server_with connection_error) dev (fresh_world connection_error) events
      refl refl refl refl

service-IsFaithful_example :
    IsFaithful
      (service (server_with connected) prod)
      (λ w. view w.clock (memory_of (server_with connected) prod w))
      (InFallback (server_with connected) prod)
service-IsFaithful_example = service-IsFaithful (server_with connected) prod

connected-IsFaithful_example :
    IsFaithful
      (service (server_with connected) prod)
      (λ w. view w.clock w.db)
      (IsConnected (server_with connected) prod server-IsReliable)
connected-IsFaithful_example = connected-IsFaithful (server_with connected) prod server-IsReliable
