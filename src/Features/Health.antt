-- ===== src/Features/Health.antt =====
-- The health checks of backend/features/system: the service, its domain objects and the handlers. The
-- latencies are arguments. What becomes of the query on the database is one too.
use backend_prod_ready.Prelude.{
  Bool, Option, Text, arith, codes, false, if◌then◌else◌, is_none, none, not, some, true, ℕ, ◌&&◌,
  ◌++◌, ◌≡◌,
}
use backend_prod_ready.Exec.{Result, ok, raised}
use backend_prod_ready.Cache.Redis.{Redis}
use backend_prod_ready.Cache.Service.{CacheError, World, Environment}
use backend_prod_ready.Cache.Service.Methods

pub record HealthStatus : Type 0 where
  pub healthy : Bool
  pub message : Text
  pub latency_ms : Option ℕ

pub record SystemHealth : Type 0 where
  pub status : Text
  pub database : HealthStatus
  pub cache : HealthStatus

-- `is_ready`, and `is_healthy`, which is the same
abbrev pub is_ready : SystemHealth → Bool
is_ready health = health.database.healthy

-- `from_components`
unfoldable pub from_components : HealthStatus → HealthStatus → SystemHealth
from_components database cache = record {
  status =
      if database.healthy && cache.healthy
      then codes "healthy"
      else if database.healthy
      then codes "degraded"
      else codes "unhealthy";
  database = database;
  cache = cache;
}

-- `check_database`, where an exception in the `try` is known by the name of its type
unfoldable pub check_database : ℕ → Option Text → HealthStatus
check_database latency none = record {
  healthy = true;
  message = codes "Database connection successful";
  latency_ms = some latency;
}
check_database latency (some type_name) = record {
  healthy = false;
  message = codes "Database connection failed: " ++ type_name;
  latency_ms = some latency;
}

-- How `check_cache` reads the result of the ping; the only exception here is one that the service
-- does not name.
unfoldable pub cache_status : {E : Type 0} → ℕ → (E → Text) → Result E Bool → HealthStatus
cache_status latency type_name (ok true) = record {
  healthy = true;
  message = codes "Redis connection successful";
  latency_ms = some latency;
}
cache_status latency type_name (ok false) = record {
  healthy = false;
  message = codes "Redis client not available";
  latency_ms = some latency;
}
cache_status latency type_name (raised e) = record {
  healthy = false;
  message = codes "Redis connection failed: " ++ type_name e;
  latency_ms = some latency;
}

-- The DTOs of the response, which hold what the domain objects hold, and the name of the service.
pub record SystemHealthResponse : Type 0 where
  pub status : Text
  pub service : Text
  pub database : HealthStatus
  pub cache : HealthStatus

-- `HealthMapper.to_health_response_dto`
unfoldable pub to_health_response_dto : Text → SystemHealth → SystemHealthResponse
to_health_response_dto app_name health = record {
  status = health.status;
  service = app_name;
  database = health.database;
  cache = health.cache;
}

-- A response of a handler: the status code, `success` of the ResponseModel, and its data.
pub record Answer : Type 0 where
  pub status_code : ℕ
  pub success : Bool
  pub data_dto : SystemHealthResponse

-- `ready`, for the health that the service found
unfoldable pub ready : Text → SystemHealth → Answer
unfolding to_health_response_dto
ready app_name health =
    if not (is_ready health)
    then record {
      status_code = 503;
      success = false;
      data_dto = to_health_response_dto app_name health;
    }
    else record {
      status_code = 200;
      success = true;
      data_dto = to_health_response_dto app_name health;
    }

-- `status`, which answers 200 whatever it shows
unfoldable pub status_handler : Text → SystemHealth → Answer
unfolding to_health_response_dto
status_handler app_name health = record {
  status_code = 200;
  success = true;
  data_dto = to_health_response_dto app_name health;
}

module _ (R : Redis) (env : Environment) (error_name : CacheError → Text) where
  -- `check_cache`
  unfoldable pub check_cache : ℕ → World R → HealthStatus × World R
  unfolding cache_status
  check_cache latency w =
      let result = Methods.ping R env w in (cache_status latency error_name result.0, result.1)

  -- `get_system_health`; the two checks share nothing, so their order is the only one
  unfoldable pub get_system_health : ℕ → ℕ → Option Text → World R → SystemHealth × World R
  unfolding check_cache check_database from_components
  get_system_health db_latency cache_latency failure w =
      let result = check_cache cache_latency w in
      (from_components (check_database db_latency failure) result.0, result.1)

  -- `ready` over the service: it answers 503 with the status unhealthy exactly if the query on the
  -- database fails; else 200, healthy if the ping of the cache gives true, and degraded if not.
  pub ready_exact :
      (app_name : Text) (db_latency cache_latency : ℕ) (failure : Option Text) (w : World R)
      → let answer = ready app_name (get_system_health db_latency cache_latency failure w).0 in
        ◌≡◌ {A = ℕ × Text}
          (answer.status_code, answer.data_dto.status)
          (if not (is_none failure) then (503, codes "unhealthy") else (
            200,
            elim (Methods.ping R env w).0 [
              | ok alive ↦ if alive then codes "healthy" else codes "degraded"
              | raised e ↦ codes "degraded"
            ],
          ))
  unfolding ready get_system_health check_cache cache_status check_database from_components
      to_health_response_dto
  ready_exact app_name db_latency cache_latency failure w = ground arith
