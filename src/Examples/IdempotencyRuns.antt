-- ===== src/Examples/IdempotencyRuns.antt =====
-- The theorems on the idempotency service at concrete inputs, over the cache with a connection.
use backend_prod_ready.Prelude.{
  List, Option, Text, [], codes, none, refl, some, true, ◌∷◌, ◌≡◌, ◌≤◌,
}
use backend_prod_ready.Exec.{ok, raised}
use backend_prod_ready.Dict.{find}
use backend_prod_ready.Cache.Memory.{view}
use backend_prod_ready.Cache.Redis.{connected, connection_error}
use backend_prod_ready.Cache.Service.{World, init, prod}
use backend_prod_ready.Cache.Store.{CacheStore, IsFaithful}
use backend_prod_ready.Cache.Store.Connected.{IsConnected, connected-IsFaithful}
use backend_prod_ready.Cache.Store.Fallback.{service}
use backend_prod_ready.Idempotency.{
  answer, build_key, check, duplicate, idempotency_cache_error, in_progress, new, store,
}
use backend_prod_ready.Idempotency.NonAtomic.{outcome}
use backend_prod_ready.Idempotency.Protocol.{check-outcome}
use backend_prod_ready.Idempotency.Completion.{check_after_new, check-store}
use backend_prod_ready.Idempotency.Traces.{
  NoEmpty, Request, check_fail_closed, count_new, count_new-le-one,
}
use backend_prod_ready.Idempotency.Interleaved.{news, run_schedule, start}
use backend_prod_ready.Idempotency.Interleaved.Exclusion.{interleaved-le-one}
use backend_prod_ready.Examples.Server.{
  codec, codec-HasHexDigest, connected_world, connected_world-IsConnected, empty_memory,
  server-IsReliable, server_with,
}

abbrev store_here : CacheStore
store_here = service (server_with connected) prod

abbrev faithful :
    IsFaithful store_here
      (λ w. view w.clock w.db)
      (IsConnected (server_with connected) prod server-IsReliable)
faithful = connected-IsFaithful (server_with connected) prod server-IsReliable

abbrev world : World (server_with connected)
world = connected_world

no_empty : NoEmpty codec codec-HasHexDigest store_here faithful world
unfolding view find
no_empty k e = absurd (cc e)

abbrev webhook : Option Text
webhook = some (codes "webhook")

check-outcome_example :
    ((check codec store_here (codes "k1") webhook world).0
      ≡ ok (outcome codec codec-HasHexDigest store_here faithful world (codes "k1") webhook))
    × IsConnected
        (server_with connected)
        prod
        server-IsReliable
        (check codec store_here (codes "k1") webhook world).1
check-outcome_example =
    check-outcome codec codec-HasHexDigest store_here faithful (codes "k1") webhook world
      connected_world-IsConnected (no_empty (build_key codec (codes "k1") webhook))

first_is_new : (check codec store_here (codes "k1") webhook world).0 ≡ ok (answer codec new none)
unfolding view find
first_is_new =
    (check-outcome codec codec-HasHexDigest store_here faithful (codes "k1") webhook world
      connected_world-IsConnected (no_empty (build_key codec (codes "k1") webhook))).0

check_after_new_example :
    (check codec store_here
      (codes "k1")
      webhook
      (check codec store_here (codes "k1") webhook world).1).0
    ≡ ok (answer codec in_progress none)
check_after_new_example =
    check_after_new codec codec-HasHexDigest store_here faithful (codes "k1") webhook world
      connected_world-IsConnected (no_empty (build_key codec (codes "k1") webhook)) first_is_new

check-store_example :
    (check codec store_here
      (codes "k1")
      webhook
      (store codec store_here (codes "k1") (codes "done") (some 60) webhook world).1).0
    ≡ ok (answer codec duplicate (some (codes "done")))
check-store_example =
    check-store codec codec-HasHexDigest store_here faithful (codes "k1") (codes "done") (some 60)
      webhook world (codes "done") connected_world-IsConnected refl refl refl

abbrev requests : List Request
requests =
    record { key = codes "k1"; namespace = webhook }
    ∷ record { key = codes "k1"; namespace = webhook }
    ∷ []

count_new-le-one_example :
    count_new codec store_here (build_key codec (codes "k1") webhook) requests world ≤ 1
count_new-le-one_example =
    count_new-le-one codec codec-HasHexDigest store_here faithful
      (build_key codec (codes "k1") webhook) requests world connected_world-IsConnected no_empty

interleaved-le-one_example :
    news codec store_here
      (build_key codec (codes "k1") webhook)
      (run_schedule codec store_here (0 ∷ 1 ∷ 1 ∷ 0 ∷ []) (start codec store_here requests) world).0
    ≤ 1
interleaved-le-one_example =
    interleaved-le-one codec codec-HasHexDigest store_here faithful
      (build_key codec (codes "k1") webhook) requests (0 ∷ 1 ∷ 1 ∷ 0 ∷ []) world
      connected_world-IsConnected

abbrev without_cache : World (server_with connection_error)
without_cache = record {
  clock = 100;
  service = record init { initialized = true };
  db = empty_memory;
}

check_fail_closed_example :
    check codec (service (server_with connection_error) prod) (codes "k1") webhook without_cache
    ≡ (raised idempotency_cache_error, without_cache)
check_fail_closed_example =
    check_fail_closed codec (server_with connection_error) prod (codes "k1") webhook without_cache
      refl refl refl
