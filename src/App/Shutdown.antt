-- ===== src/App/Shutdown.antt =====
-- `shutdown_infrastructure` of backend/core/infrastructure/container.py: how long it takes, and that
-- it raises nothing of what it closes.
use backend_prod_ready.Prelude.{Bool, Option, arith, false, max, min, none, some, true, ℕ, ◌≡◌}
use backend_prod_ready.Security.Timeout.{Call, wait_for}

-- How closing one resource ends.
pub data CloseEnd : Type 0 where
  closed : CloseEnd
  -- ConnectionError or RuntimeError, logged; any other exception
  expected_error other_error : CloseEnd

-- `_close_redis` and `_dispose_postgres`: the time that passes, and whether an exception leaves it.
-- `shield` lets the closing itself run on after the five seconds.
unfoldable pub close_resource : Call CloseEnd → Call Bool
unfolding wait_for
close_resource call = record {
  duration = (wait_for 5 call).0;
  outcome = escapes (wait_for 5 call).1;
}
  where
    escapes : Option CloseEnd → Bool
    escapes (some other_error) = true
    escapes (some _) = false
    escapes none = false

-- `asyncio.gather(…, return_exceptions=True)`: it ends with the last, and raises nothing
unfoldable pub gather : Call Bool → Call Bool → Call (Unit {0})
gather first second = record { duration = max first.duration second.duration; outcome = tt }

-- `shutdown_infrastructure`: the time it takes; a timeout is logged
unfoldable pub shutdown_infrastructure : Call CloseEnd → Call CloseEnd → ℕ → ℕ
unfolding close_resource gather wait_for
shutdown_infrastructure redis postgres shutdown_timeout =
    (wait_for shutdown_timeout (gather (close_resource redis) (close_resource postgres))).0

-- The shutdown waits for both resources, but no longer than five seconds and no longer than its
-- timeout.
pub shutdown_time :
    (redis postgres : Call CloseEnd) (shutdown_timeout : ℕ)
    → shutdown_infrastructure redis postgres shutdown_timeout
      ≡ min shutdown_timeout (min 5 (max redis.duration postgres.duration))
unfolding shutdown_infrastructure
shutdown_time redis postgres shutdown_timeout = ground arith
