-- ===== src/Cache/Redis.antt =====
-- The Redis client, a package that backend/core/infrastructure/cache/service.py uses: a parameter
-- of the model. A command acts on the server's data at the server's clock; `call` sends one through
-- the client and the circuit breaker, and may fail with or without having run it.
use backend_prod_ready.Prelude.{
  ℕ, Text, Bool, Option, false, if◌then◌else◌, is_none, none, some, text_eq, true, ◌<◌, ◌≡◌, ◌≢◌,
  ◌⊎◌,
}

-- How a call ends: a value, or an exception by the handler that it meets.
pub data Reply (A : Type 0) : Type 0 where
  done : A → Reply A
  -- redis.RedisError
  redis_error : Reply A
  -- TypeError, ValueError, orjson.JSONDecodeError
  value_error : Reply A
  -- purgatory's CircuitBreakerFailed
  breaker_failed : Reply A
  other_error : Reply A

-- How `redis.from_url` and the first `ping` end.
pub data Connect : Type 0 where
  connected : Connect
  -- redis.ConnectionError, redis.TimeoutError
  connection_error : Connect
  -- ValueError, TypeError
  config_error : Connect
  other_error : Connect

pub record Redis : Type 1 where
  pub Db : Type 0
  pub connect : Db → Connect × Db
  pub get : ℕ → Text → Db → Option Text × Db
  pub set : ℕ → Text → Text → Option ℕ → Db → Bool × Db
  pub set_nx : ℕ → Text → Text → Option ℕ → Db → Bool × Db
  pub delete : ℕ → Text → Db → Bool × Db
  pub ping : Db → Bool × Db
  pub call : (A : Type 0) → (Db → A × Db) → Db → Reply A × Db

-- A server that keeps working, through a client and a circuit breaker that pass every call on: what the
-- documentation of the commands says of the value under a key at the server's clock. `Valid` is
-- whatever the server keeps of its own data; it may drop other keys to make room.
pub record IsReliable (R : Redis) (view : ℕ → R.Db → Text → Option Text) (Valid : R.Db → Type 0)
    : Type 1 where
  pub call_runs :
      (A : Type 0) (f : R.Db → A × R.Db) (db : R.Db) → R.call A f db ≡ (done (f db).0, (f db).1)
  pub ping_true : (db : R.Db) → Valid db → R.ping db ≡ (true, db)
  pub get_view : (now : ℕ) (k : Text) (db : R.Db) → Valid db → (R.get now k db).0 ≡ view now db k
  pub view_get :
      (now : ℕ) (k j : Text) (db : R.Db) → Valid db → view now (R.get now k db).1 j ≡ view now db j
  pub get_valid : (now : ℕ) (k : Text) (db : R.Db) → Valid db → Valid (R.get now k db).1
  -- SET with NX and EX
  pub set_nx_view :
      (now : ℕ) (k v : Text) (ttl : ℕ) (db : R.Db)
      → 0 < ttl
      → Valid db
      → (R.set_nx now k v (some ttl) db).0 ≡ is_none (view now db k)
  pub view_set_nx :
      (now : ℕ) (k v : Text) (ttl : ℕ) (db : R.Db) (j : Text)
      → 0 < ttl
      → Valid db
      → view now (R.set_nx now k v (some ttl) db).1 j ≡ (
          if text_eq k j
          then (if is_none (view now db k) then some v else view now db j)
          else view now db j)
  pub set_nx_valid :
      (now : ℕ) (k v : Text) (ttl : ℕ) (db : R.Db)
      → 0 < ttl
      → Valid db
      → Valid (R.set_nx now k v (some ttl) db).1
  -- SET, and SETEX for a lifetime, which is not 0
  pub view_set_self :
      (now : ℕ) (k v : Text) (ttl : Option ℕ) (db : R.Db)
      → ttl ≢ some 0
      → Valid db
      → view now (R.set now k v ttl db).1 k ≡ some v
  pub view_set_ne :
      (now : ℕ) (k v : Text) (ttl : Option ℕ) (db : R.Db) (j : Text)
      → ttl ≢ some 0
      → Valid db
      → text_eq k j ≡ false
      → (view now (R.set now k v ttl db).1 j ≡ view now db j)
        ⊎ (view now (R.set now k v ttl db).1 j ≡ none)
  pub set_valid :
      (now : ℕ) (k v : Text) (ttl : Option ℕ) (db : R.Db)
      → ttl ≢ some 0
      → Valid db
      → Valid (R.set now k v ttl db).1
  pub view_delete :
      (now : ℕ) (k j : Text) (db : R.Db)
      → Valid db
      → view now (R.delete now k db).1 j ≡ (if text_eq k j then none else view now db j)
  pub delete_valid : (now : ℕ) (k : Text) (db : R.Db) → Valid db → Valid (R.delete now k db).1
