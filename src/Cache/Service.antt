-- ===== src/Cache/Service.antt =====
-- `CacheService` of backend/core/infrastructure/cache/service.py: the connection with its backoff
-- state, and the methods that go to the in-memory fallback or to Redis. `clock` is `time.time()`.
-- Metrics and logs are left out. The delays are whole seconds.
pub mod Connection
pub mod Methods
use backend_prod_ready.Prelude.{
  Bool, Option, false, if◌then◌else◌, is_none, leb, min, none, some, true, ℕ, ◌&&◌, ◌*◌, ◌+◌, ◌-◌,
  ◌==◌, ◌||◌,
}
use backend_prod_ready.Exec.{Exec, Result, ok, raised}
use backend_prod_ready.Cache.Memory
use backend_prod_ready.Cache.Memory.{Memory}
use backend_prod_ready.Cache.Redis.{Connect, Redis, config_error, connected, connection_error}

abbrev pub initial_retry_delay : ℕ
initial_retry_delay = 1

abbrev pub max_retry_delay : ℕ
max_retry_delay = 60

abbrev pub retry_backoff_factor : ℕ
retry_backoff_factor = 2

-- SETTINGS.APP.ENVIRONMENT
pub data Environment : Type 0 where
  local dev prod : Environment

pub record Service : Type 0 where
  -- `_redis_client is not None`
  pub redis_client : Bool
  pub in_memory_cache : Option Memory
  pub initialized : Bool
  pub using_fallback : Bool
  pub last_connection_attempt : ℕ
  pub connection_retry_delay : ℕ
  pub consecutive_failures : ℕ

-- `CacheService()`
abbrev pub init : Service
init = record {
  redis_client = false;
  in_memory_cache = none;
  initialized = false;
  using_fallback = false;
  last_connection_attempt = 0;
  connection_retry_delay = initial_retry_delay;
  consecutive_failures = 0;
}

-- `_should_use_fallback`
unfoldable pub should_use_fallback : Environment → Bool
should_use_fallback local = true
should_use_fallback dev = true
should_use_fallback prod = false

-- `_should_attempt_connection`
unfoldable pub should_attempt_connection : ℕ → Service → Bool
should_attempt_connection now s =
    (s.consecutive_failures == 0) || leb s.connection_retry_delay (now - s.last_connection_attempt)

-- `_record_connection_success`
unfoldable pub record_connection_success : ℕ → Service → Service
record_connection_success now s = record s {
  consecutive_failures = 0;
  connection_retry_delay = initial_retry_delay;
  last_connection_attempt = now;
}

-- `_record_connection_failure`
unfoldable pub record_connection_failure : ℕ → Service → Service
record_connection_failure now s = record s {
  consecutive_failures = s.consecutive_failures + 1;
  last_connection_attempt = now;
  connection_retry_delay = min (s.connection_retry_delay * retry_backoff_factor) max_retry_delay;
}

-- The handlers of a failed attempt in `_ensure_connected`, which do the same to the state.
connection_failed : Environment → ℕ → Service → Service
unfolding record_connection_failure should_use_fallback
connection_failed env now s =
    let s' = record_connection_failure now (record s { redis_client = false }) in
    if should_use_fallback env
    then record s' {
      in_memory_cache = some (Memory.new 10000);
      using_fallback = true;
      initialized = true;
    }
    else record s' { initialized = true }

-- The backoff branch of `_ensure_connected`.
skip_attempt : Environment → Service → Service
unfolding should_use_fallback
skip_attempt env s =
    if should_use_fallback env && is_none s.in_memory_cache
    then record s { in_memory_cache = some (Memory.new 10000); using_fallback = true }
    else s

-- `_using_fallback and _in_memory_cache`
unfoldable pub fallback_memory : Service → Option Memory
fallback_memory s = if s.using_fallback then s.in_memory_cache else none

pub data CacheError : Type 0 where
  -- an exception that no handler of the service names
  unexpected : CacheError

module _ (R : Redis) where
  open R use {Db, connect, call}

  pub record World : Type 0 where
    pub clock : ℕ
    pub service : Service
    pub db : Db

  abbrev pub Action : Type 0 → Type 0
  Action A = Exec World CacheError A

module _ (R : Redis) (env : Environment) where
  -- the end of the `try` of `_ensure_connected`
  after_connect : Connect × R.Db → World R → Result CacheError (Unit {0}) × World R
  unfolding connection_failed record_connection_success
  after_connect (connected, db) w = (
    ok tt,
    record w {
      db = db;
      service =
          record_connection_success w.clock
            (record w.service { redis_client = true; initialized = true });
    },
  )
  after_connect (connection_error, db) w =
      (ok tt, record w { db = db; service = connection_failed env w.clock w.service })
  after_connect (config_error, db) w =
      (ok tt, record w { db = db; service = connection_failed env w.clock w.service })
  after_connect (Connect.other_error, db) w =
      (raised unexpected, record w { db = db; service = record w.service { redis_client = true } })

  -- `_ensure_connected`
  unfoldable pub ensure_connected : Action R (Unit {0})
  unfolding after_connect should_attempt_connection skip_attempt
  ensure_connected w =
      if w.service.initialized
      then (ok tt, w)
      else if should_attempt_connection w.clock w.service
      then after_connect (R.connect w.db) w
      else (ok tt, record w { service = skip_attempt env w.service })
