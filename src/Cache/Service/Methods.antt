-- ===== src/Cache/Service/Methods.antt =====
-- The methods of `CacheService` (backend/core/infrastructure/cache/service.py) that the services
-- above it call. Each first ensures the connection; with the in-memory fallback active it hands the
-- call on, and otherwise it sends the command through `_execute_redis_operation`.
use backend_prod_ready.Prelude.{
  Bool, Option, Text, codes, false, if◌then◌else◌, is_none, none, some, true, ℕ, zero,
}
use backend_prod_ready.Exec.{Result, ok, raised, ◌>>◌}
use backend_prod_ready.Cache.Memory
use backend_prod_ready.Cache.Memory.{Memory}
use backend_prod_ready.Cache.Redis.{Redis, Reply, breaker_failed, done, redis_error, value_error}
use backend_prod_ready.Cache.Service.{
  Action, CacheError, Environment, ensure_connected, fallback_memory, unexpected, World,
}

-- The replies of the Lua script of the idempotency check.
pub data LuaReply : Type 0 where
  duplicate : Text → LuaReply
  new : LuaReply
  in_progress : LuaReply

module _ (R : Redis) where
  -- The handlers of `_execute_redis_operation`: all but an unnamed exception give the default.
  unfoldable pub settle :
      {A : Type 0} → A → World R → Reply A × R.Db → Result CacheError A × World R
  settle default w (done a, db) = (ok a, record w { db = db })
  settle default w (redis_error, db) = (ok default, record w { db = db })
  settle default w (value_error, db) = (ok default, record w { db = db })
  settle default w (breaker_failed, db) = (ok default, record w { db = db })
  settle default w (Reply.other_error, db) = (raised unexpected, record w { db = db })

  -- what a method does with the in-memory cache, put back into the service
  abbrev pub with_memory : {A : Type 0} → World R → A × Memory → Result CacheError A × World R
  with_memory w r = (ok r.0, record w { service = record w.service { in_memory_cache = some r.1 } })

  -- `IDEMPOTENCY_CHECK_LUA_SCRIPT` of backend/core/infrastructure/idempotency/service.py, which the
  -- server runs as one command: GET of the completed key, then SET NX EX of the in-progress key.
  unfoldable pub check_script : ℕ → Text → Text → ℕ → R.Db → LuaReply × R.Db
  check_script now completed_key in_progress_key ttl db =
      let (cached, db') = R.get now completed_key db in
      elim cached [
        | some value ↦ (duplicate value, db')
        | none ↦
            let (acquired, db'') = R.set_nx now in_progress_key (codes "1") (some ttl) db' in
            (if acquired then new else in_progress, db'')
      ]

module _ (R : Redis) (env : Environment) where
  -- `_execute_redis_operation`
  unfoldable pub execute_redis_operation : {A : Type 0} → (ℕ → R.Db → A × R.Db) → A → Action R A
  unfolding settle
  execute_redis_operation {A} operation default = do
    ensure_connected R env
    (λ w.
        if w.service.redis_client
        then settle R default w (R.call A (operation w.clock) w.db)
        else (ok default, w))

  -- One method: the fallback if it is active, else the operation on Redis.
  unfoldable pub dispatch :
      {A : Type 0} → (ℕ → Memory → A × Memory) → (ℕ → R.Db → A × R.Db) → A → Action R A
  unfolding fallback_memory execute_redis_operation
  dispatch {A} local_operation operation default = do
    ensure_connected R env
    (λ w. elim (fallback_memory w.service) [
      | some m ↦ with_memory R w (local_operation w.clock m)
      | none ↦ execute_redis_operation operation default w
    ])

  -- `get`
  unfoldable pub get : Text → Action R (Option Text)
  unfolding dispatch
  get key = dispatch (λ now. Memory.get now key) (λ now. R.get now key) none

  -- `if ttl`: a lifetime of 0 counts as none
  abbrev pub truthy : Option ℕ → Option ℕ
  truthy (some zero) = none
  truthy ttl = ttl

  -- `set`
  unfoldable pub set : Text → Text → Option ℕ → Action R Bool
  unfolding dispatch
  set key value ttl =
      dispatch (λ now. Memory.set now key value ttl)
        (λ now db. (true, (R.set now key value (truthy ttl) db).1)) false

  -- `setnx`
  unfoldable pub setnx : Text → Text → Option ℕ → Action R Bool
  unfolding dispatch
  setnx key value ttl =
      dispatch (λ now. Memory.setnx now key value ttl) (λ now. R.set_nx now key value ttl) false

  -- `delete`
  unfoldable pub delete : Text → Action R Bool
  unfolding dispatch
  delete key = dispatch (λ now. Memory.delete key) (λ now. R.delete now key) false

  -- `ping`, which does not go through the circuit breaker; whatever `redis.ping` raises, of the
  -- errors that the method names, is `false`
  unfoldable pub ping : Action R Bool
  unfolding fallback_memory
  ping = do
    ensure_connected R env
    (λ w. elim (fallback_memory w.service) [
      | some m ↦ (ok true, w)
      | none ↦
          if w.service.redis_client
          then (let (alive, db) = R.ping w.db in (ok alive, record w { db = db }))
          else (ok false, w)
    ])

  -- `execute_lua_script` of the idempotency check: `none` in the fallback, without Redis, and after
  -- a Redis error
  unfoldable pub execute_check_script : Text → Text → ℕ → Action R (Option LuaReply)
  unfolding execute_redis_operation check_script
  execute_check_script completed_key in_progress_key ttl = do
    ensure_connected R env
    (λ w.
        if w.service.using_fallback
        then (ok none, w)
        else if w.service.redis_client
        then execute_redis_operation
            (λ now db.
              let (reply, db') = check_script R now completed_key in_progress_key ttl db in
              (some reply, db'))
            none w
        else (ok none, w))

  -- `close`, with the errors of the client's `close` left out
  unfoldable pub close : Action R (Unit {0})
  close w = (
    ok tt,
    record w {
      service = record w.service {
        in_memory_cache = none;
        using_fallback =
            if is_none w.service.in_memory_cache then w.service.using_fallback else false;
        redis_client = false;
        initialized = false;
      };
    },
  )
