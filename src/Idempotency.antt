-- ===== src/Idempotency.antt =====
-- `IdempotencyService` of backend/core/infrastructure/idempotency/service.py, over any cache with the
-- methods of `CacheService`. SHA-256 and orjson are parameters. Logs are left out.
pub mod Keys
pub mod NonAtomic
pub mod Protocol
pub mod Completion
pub mod Traces
pub mod Interleaved
pub mod Stuck
use backend_prod_ready.Prelude.{
  Option, Text, [], codes, if◌then◌else◌, is_empty, none, some, suc, zero, ℕ, ◌*◌, ◌++◌, ◌∷◌,
}
use backend_prod_ready.Exec.{Exec, Result, ok, pure, raise, raised, ◌>>=◌, ◌>>◌}
use backend_prod_ready.Cache.Service.{CacheError}
use backend_prod_ready.Cache.Service.Methods.{LuaReply}
use backend_prod_ready.Cache.Store.{CacheStore}

abbrev pub cache_prefix : Text
cache_prefix = codes "idempotency"

abbrev pub in_progress_suffix : Text
in_progress_suffix = codes ":in_progress"

-- 7 days
abbrev pub default_ttl : ℕ
default_ttl = 86400 * 7

-- 5 minutes
abbrev pub in_progress_ttl : ℕ
in_progress_ttl = 300

pub data IdempotencyStatus : Type 0 where
  new duplicate in_progress : IdempotencyStatus

-- The packages that the service calls: `hashlib.sha256(…).hexdigest()` over text, and orjson on the
-- values that the application passes as responses. `loads` of a JSONDecodeError and `dumps` of a
-- JSONEncodeError or TypeError are `none`.
pub record Codec : Type 1 where
  pub Json : Type 0
  pub sha256 : Text → Text
  pub dumps : Json → Option Text
  pub loads : Text → Option Json

-- What an `IdempotencyService` may raise.
pub data IdempotencyError : Type 0 where
  idempotency_cache_error : IdempotencyError
  -- an exception that came out of the cache
  from_cache : CacheError → IdempotencyError

module _ (codec : Codec) where
  open codec use {Json, sha256, dumps, loads}

  pub record IdempotencyResult : Type 0 where
    pub status : IdempotencyStatus
    pub cached_response : Option Json

  -- `_build_key`; a namespace that is None or empty is left out
  unfoldable pub build_key : Text → Option Text → Text
  build_key key none = cache_prefix ++ (codes ":" ++ sha256 key)
  build_key key (some namespace) =
      if is_empty namespace
      then cache_prefix ++ (codes ":" ++ sha256 key)
      else cache_prefix ++ (codes ":" ++ (namespace ++ (codes ":" ++ sha256 key)))

  -- `_build_in_progress_key`
  unfoldable pub build_in_progress_key : Text → Option Text → Text
  build_in_progress_key key namespace = build_key key namespace ++ in_progress_suffix

  abbrev pub answer : IdempotencyStatus → Option Json → IdempotencyResult
  answer status response = record { status = status; cached_response = response }

module _ (codec : Codec) (c : CacheStore) where
  open codec use {Json, dumps, loads}

  abbrev pub Action : Type 0 → Type 0
  Action A = Exec c.State IdempotencyError A

  abbrev lift_result : {A : Type 0} → Result CacheError A → Result IdempotencyError A
  lift_result (ok a) = ok a
  lift_result (raised e) = raised (from_cache e)

  -- a call of the cache
  abbrev pub on_cache : {A : Type 0} → Exec c.State CacheError A → Action A
  on_cache m s = let r = m s in (lift_result r.0, r.1)

  -- The end of `_check_non_atomic`: try to acquire the in-progress marker.
  unfoldable pub acquire_marker : Text → Action (IdempotencyResult codec)
  acquire_marker in_progress_key = do
    acquired ← on_cache (c.setnx in_progress_key (codes "1") (some in_progress_ttl))
    pure (answer codec (if acquired then new else in_progress) none)

  -- a cached text that does not decode counts as not there
  abbrev pub decode : Option Text → Option Json
  decode none = none
  decode (some cached) = loads cached

  unfoldable pub on_decoded : Text → Option Json → Action (IdempotencyResult codec)
  unfolding acquire_marker
  on_decoded in_progress_key (some response) = pure (answer codec duplicate (some response))
  on_decoded in_progress_key none = acquire_marker in_progress_key

  -- `_check_non_atomic`
  unfoldable pub check_non_atomic : Text → Option Text → Action (IdempotencyResult codec)
  unfolding on_decoded
  check_non_atomic key namespace = do
    cached ← on_cache (c.get (build_key codec key namespace))
    on_decoded (build_in_progress_key codec key namespace) (decode cached)

  -- The part of `check` after the script: the fallback, the refusal without a cache, or the check
  -- that is not atomic.
  unfoldable pub check_without_script : Text → Option Text → Action (IdempotencyResult codec)
  unfolding check_non_atomic
  check_without_script key namespace s =
      if c.in_fallback s
      then check_non_atomic key namespace s
      else (do
        alive ← on_cache c.ping
        if alive then check_non_atomic key namespace else raise idempotency_cache_error)
          s

  -- What `check` makes of the reply of the script.
  unfoldable pub on_reply : Text → Option Text → Option LuaReply → Action (IdempotencyResult codec)
  unfolding check_without_script
  on_reply key namespace none = check_without_script key namespace
  on_reply key namespace (some (LuaReply.duplicate [])) = pure (answer codec duplicate none)
  on_reply key namespace (some (LuaReply.duplicate (b ∷ bs))) = elim (loads (b ∷ bs)) [
    | some response ↦ pure (answer codec duplicate (some response))
    | none ↦ check_without_script key namespace
  ]
  on_reply key namespace (some LuaReply.new) = pure (answer codec new none)
  on_reply key namespace (some LuaReply.in_progress) = pure (answer codec in_progress none)

  -- `check`
  unfoldable pub check : Text → Option Text → Action (IdempotencyResult codec)
  unfolding on_reply
  check key namespace = do
    reply ← on_cache (
        c.check_script (build_key codec key namespace) (build_in_progress_key codec key namespace)
          in_progress_ttl)
    on_reply key namespace reply

  -- `ttl or DEFAULT_TTL`
  abbrev pub ttl_or_default : Option ℕ → ℕ
  ttl_or_default none = default_ttl
  ttl_or_default (some zero) = default_ttl
  ttl_or_default (some (suc n)) = suc n

  -- The `try` of `store`: what does not serialise is logged and not stored.
  unfoldable pub store_response : Text → Option Text → ℕ → Action (Unit {0})
  store_response full_key none ttl = pure tt
  store_response full_key (some serialized) ttl = do
    on_cache (c.set full_key serialized (some ttl))
    pure tt

  -- `store`
  unfoldable pub store : Text → Json → Option ℕ → Option Text → Action (Unit {0})
  unfolding store_response
  store key response ttl namespace = do
    store_response (build_key codec key namespace) (dumps response) (ttl_or_default ttl)
    on_cache (c.delete (build_in_progress_key codec key namespace))
    pure tt

  -- `clear_in_progress`
  unfoldable pub clear_in_progress : Text → Option Text → Action (Unit {0})
  clear_in_progress key namespace = do
    on_cache (c.delete (build_in_progress_key codec key namespace))
    pure tt

  -- `invalidate`
  unfoldable pub invalidate : Text → Option Text → Action (Unit {0})
  invalidate key namespace = do
    on_cache (c.delete (build_key codec key namespace))
    on_cache (c.delete (build_in_progress_key codec key namespace))
    pure tt
