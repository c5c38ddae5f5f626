-- ===== src/Cache/Json.antt =====
-- `get_json` and `set_json` of `CacheService` (backend/core/infrastructure/cache/service.py). orjson and
-- `datetime.fromisoformat` are parameters, and so is the circuit breaker around an operation that may
-- raise.
pub mod Restored
pub mod Stored
use backend_prod_ready.Prelude.{
  Bool, Option, Text, codes, false, if◌then◌else◌, none, some, true, ℕ,
}
use backend_prod_ready.Exec.{Result, ok, raised, ◌>>◌, ◌>>=◌}
use backend_prod_ready.Cache.Memory
use backend_prod_ready.Cache.Memory.{Memory}
use backend_prod_ready.Cache.Redis.{Redis, Reply, done, value_error}
use backend_prod_ready.Cache.Service.{
  Action, CacheError, Environment, World, ensure_connected, fallback_memory, unexpected,
}
use backend_prod_ready.Cache.Service.Methods.{settle, truthy, with_memory}

-- What `orjson.loads` makes of a text: a dict, another value, or a JSONDecodeError.
pub data Loaded (O : Type 0) : Type 0 where
  object : O → Loaded O
  not_object decode_error : Loaded O

-- A value of a dict: a text, a datetime, or anything else.
pub data FieldValue (D : Type 0) : Type 0 where
  text : Text → FieldValue D
  datetime : D → FieldValue D
  other : FieldValue D

pub record JsonCodec : Type 1 where
  -- dicts
  pub Object : Type 0
  pub Datetime : Type 0
  -- `orjson.dumps` with `default=str`; `none` for its JSONEncodeError, a TypeError
  pub dumps : Object → Option Text
  pub loads : Text → Loaded Object
  -- `value.get(field)`
  pub value_at : Text → Object → Option (FieldValue Datetime)
  -- `none` for its ValueError
  pub fromisoformat : Text → Option Datetime
  -- `value[field] = …`
  pub put_datetime : Text → Datetime → Object → Object

abbrev pub and_next : {A B : Type 0} → Reply A → (A → Reply B) → Reply B
and_next (done a) f = f a
and_next Reply.redis_error f = Reply.redis_error
and_next value_error f = value_error
and_next Reply.breaker_failed f = Reply.breaker_failed
and_next Reply.other_error f = Reply.other_error

module _ (codec : JsonCodec) where
  open codec use {Object, dumps, Datetime, loads, value_at, fromisoformat, put_datetime}

  -- A field that holds a text becomes a datetime.
  unfoldable pub restore_value : Text → Object → Option (FieldValue Datetime) → Reply Object
  restore_value field o (some (text t)) = elim (fromisoformat t) [
    | none ↦ value_error
    | some d ↦ done (put_datetime field d o)
  ]
  restore_value field o (some (datetime d)) = done o
  restore_value field o (some other) = done o
  restore_value field o none = done o

  unfoldable pub restore : Text → Object → Reply Object
  unfolding restore_value
  restore field o = restore_value field o (value_at field o)

  -- A value that is no dict has no `get`: an AttributeError.
  unfoldable pub restore_dates : Loaded Object → Reply Object
  unfolding restore
  restore_dates (object o) =
      and_next (restore (codes "created_at") o) (restore (codes "updated_at"))
  restore_dates not_object = Reply.other_error
  restore_dates decode_error = value_error

  -- What `get_json` makes of a cached text.
  unfoldable pub read_json : Option Text → Reply (Option Object)
  unfolding restore_dates
  read_json none = done none
  read_json (some t) = and_next (restore_dates (loads t)) (λ o. done (some o))

  -- Nothing is caught around the fallback.
  abbrev pub uncaught : {A : Type 0} → Reply A → Result CacheError A
  uncaught (done a) = ok a
  uncaught _ = raised unexpected

  module _ (R : Redis) (env : Environment)
      (protect : (A : Type 0) → (R.Db → Reply A × R.Db) → R.Db → Reply A × R.Db) where
    -- `_execute_redis_operation` of an operation that may raise
    unfoldable pub execute_raising : {A : Type 0} → (ℕ → R.Db → Reply A × R.Db) → A → Action R A
    unfolding settle
    execute_raising {A} operation default = do
      ensure_connected R env
      (λ w.
          if w.service.redis_client
          then settle R default w (protect A (operation w.clock) w.db)
          else (ok default, w))

    unfoldable pub get_local : Text → World R → Memory → Result CacheError (Option Object) × World R
    unfolding read_json
    get_local key w m =
        let read = Memory.get w.clock key m in
        (uncaught (read_json read.0), (with_memory R w read).1)

    -- `_get_json_operation`
    unfoldable pub get_remote : Text → ℕ → R.Db → Reply (Option Object) × R.Db
    unfolding read_json
    get_remote key now db = let (value, db') = R.get now key db in (read_json value, db')

    -- `get_json`
    unfoldable pub get_json : Text → Action R (Option Object)
    unfolding get_local get_remote execute_raising fallback_memory
    get_json key = do
      ensure_connected R env
      (λ w. elim (fallback_memory w.service) [
        | some m ↦ get_local key w m
        | none ↦ execute_raising (get_remote key) none w
      ])

    -- `_set_json_operation`
    unfoldable pub set_remote : Text → Option Text → Option ℕ → ℕ → R.Db → Reply Bool × R.Db
    set_remote key none ttl now db = (value_error, db)
    set_remote key (some t) ttl now db = (done true, (R.set now key t (truthy R env ttl) db).1)

    unfoldable pub set_local :
        Text → Option Text → Option ℕ → World R → Memory → Result CacheError Bool × World R
    set_local key none ttl w m = (raised unexpected, w)
    set_local key (some t) ttl w m = with_memory R w (Memory.set w.clock key t ttl m)

    -- `set_json`
    unfoldable pub set_json : Text → Object → Option ℕ → Action R Bool
    unfolding set_local set_remote execute_raising fallback_memory
    set_json key value ttl = do
      ensure_connected R env
      (λ w. elim (fallback_memory w.service) [
        | some m ↦ set_local key (dumps value) ttl w m
        | none ↦ execute_raising (set_remote key (dumps value) ttl) false w
      ])
