-- ===== src/Cache/Service/Connection.antt =====
-- The connection state of `CacheService` over any sequence of calls.
use backend_prod_ready.Prelude.{
  List, [], false, is_none, min, none, true, ℕ, ◌+◌, ◌^◌, ◌∷◌, ◌≡◌, Bool, Bool-cases, all, ap,
  arith, inl, inr, refl, ◌*◌, ◌∙◌, if_cases,
}
use backend_prod_ready.Cache.Redis.{Redis, connection_error, Connect, config_error, connected}
use backend_prod_ready.Cache.Service.{
  Environment, Service, ensure_connected, max_retry_delay, prod, World, retry_backoff_factor,
  should_attempt_connection, skip_attempt, connection_failed, after_connect, CacheError, Result,
}
use backend_prod_ready.Cache.Service.Methods.{close}
use native.Mathlib.Numerals.{towards_suc}

module _ (R : Redis) (env : Environment) where
  -- What happens to a service: a call that ensures the connection, a `close`, time that passes, and
  -- whatever happens to the server's data meanwhile.
  pub data Event : Type 0 where
    call : Event
    shut : Event
    wait : ℕ → Event
    server : (R.Db → R.Db) → Event

  unfoldable pub react : World R → Event → World R
  unfolding close
  react w call = (ensure_connected R env w).1
  react w shut = (close R env w).1
  react w (wait n) = record w { clock = w.clock + n }
  react w (server f) = record w { db = f w.db }

  unfoldable pub react_all : World R → List Event → World R
  react_all w [] = w
  react_all w (e ∷ es) = react_all (react w e) es

-- `2 ^ n`, capped: the delay after n failed attempts in a row.
abbrev pub backoff : ℕ → ℕ
backoff n = min (2 ^ n) max_retry_delay

pub record IsConsistent (env : Environment) (s : Service) : Type 0 where
  pub delay : s.connection_retry_delay ≡ backoff s.consecutive_failures
  pub prod_memory : env ≡ prod → (s.in_memory_cache ≡ none) × (s.using_fallback ≡ false)
  pub fallback_has_memory : s.using_fallback ≡ true → is_none s.in_memory_cache ≡ false

backoff-suc : (n : ℕ) → min (backoff n * retry_backoff_factor) max_retry_delay ≡ backoff (n + 1)
backoff-suc n = omega (arith, two_pow n)
  where
    two_pow : (n : ℕ) → 2 ^ (n + 1) ≡ 2 * 2 ^ n
    two_pow n = simp towards_suc (omega arith)

connection_failed-IsConsistent :
    (env : Environment) (now : ℕ) (s : Service)
    → IsConsistent env s
    → IsConsistent env (connection_failed env now s)
unfolding connection_failed
connection_failed-IsConsistent env now s c = ground (arith, backoff-suc s.consecutive_failures)

skip_attempt-IsConsistent :
    (env : Environment) (s : Service) → IsConsistent env s → IsConsistent env (skip_attempt env s)
unfolding skip_attempt
skip_attempt-IsConsistent env s c = ground arith

module _ (R : Redis) (env : Environment) where
  after_connect-IsConsistent :
      (o : Connect) (db : R.Db) (w : World R)
      → IsConsistent env w.service
      → IsConsistent env (after_connect R env (o, db) w).1.service
  unfolding after_connect
  after_connect-IsConsistent connected db w c = ground arith
  after_connect-IsConsistent connection_error db w c =
      connection_failed-IsConsistent env w.clock w.service c
  after_connect-IsConsistent config_error db w c =
      connection_failed-IsConsistent env w.clock w.service c
  after_connect-IsConsistent Connect.other_error db w c = ground arith

  ensure_connected-IsConsistent :
      (w : World R)
      → IsConsistent env w.service
      → IsConsistent env (ensure_connected R env w).1.service
  unfolding ensure_connected
  ensure_connected-IsConsistent w c =
      let Goal : Result CacheError (Unit {0}) × World R → Type 0 =
        λ r. IsConsistent env r.1.service in
      if_cases Goal w.service.initialized _ _ (λ _. c)
        λ _.
          if_cases Goal (should_attempt_connection w.clock w.service) _ _
            (λ _. let (o, db) = R.connect w.db in after_connect-IsConsistent o db w c)
            (λ _. skip_attempt-IsConsistent env w.service c)

  react-IsConsistent :
      (w : World R) (e : Event R env)
      → IsConsistent env w.service
      → IsConsistent env (react R env w e).service
  unfolding react
  react-IsConsistent w call c = ensure_connected-IsConsistent w c
  react-IsConsistent w shut c = ground arith
  react-IsConsistent w (wait n) c = c
  react-IsConsistent w (server f) c = c

  -- Over any events, from a consistent service: the delay is 2 ^ n seconds after n failures in a
  -- row, at most 60; an active fallback has its cache; in production there is neither.
  pub react_all-IsConsistent :
      (w : World R) (es : List (Event R env))
      → IsConsistent env w.service
      → IsConsistent env (react_all R env w es).service
  unfolding react_all
  react_all-IsConsistent w [] c = c
  react_all-IsConsistent w (e ∷ es) c =
      react_all-IsConsistent (react R env w e) es (react-IsConsistent w e c)

  abbrev pub is_not_shut : Event R env → Bool
  is_not_shut shut = false
  is_not_shut _ = true

  react_initialized :
      (w : World R) (e : Event R env)
      → w.service.initialized ≡ true
      → is_not_shut e ≡ true
      → (react R env w e).service ≡ w.service
  unfolding react ensure_connected
  react_initialized w call i n = rw i
  react_initialized w shut i n = absurd (cc n)
  react_initialized w (wait n) i _ = refl
  react_initialized w (server f) i _ = refl

  react_all_initialized :
      (w : World R) (es : List (Event R env))
      → w.service.initialized ≡ true
      → all is_not_shut es ≡ true
      → (react_all R env w es).service ≡ w.service
  unfolding react_all
  react_all_initialized w [] i n = refl
  react_all_initialized w (e ∷ es) i n = elim (Bool-cases (is_not_shut e)) [
    | inl open_event ↦
        let same = react_initialized w e i open_event in
        react_all_initialized (react R env w e) es (ap (λ (s : Service). s.initialized) same ∙ i)
          (ground arith)
        ∙ same
    | inr shut_event ↦ absurd (ground arith)
  ]

  failed_attempt :
      (w : World R)
      → w.service.initialized ≡ false
      → w.service.consecutive_failures ≡ 0
      → (R.connect w.db).0 ≡ connection_error
      → ((react R env w call).service.initialized ≡ true)
        × ((react R env w call).service.redis_client ≡ false)
  unfolding react ensure_connected
  failed_attempt w i first failed = ground arith

  -- Once the first attempt has failed to connect, the service stays as it is, without a Redis
  -- client, over any events but `close`, however long it waits and whatever becomes of the
  -- server.
  pub failed_attempt_is_last :
      (w : World R) (es : List (Event R env))
      → w.service.initialized ≡ false
      → w.service.consecutive_failures ≡ 0
      → (R.connect w.db).0 ≡ connection_error
      → all is_not_shut es ≡ true
      → ((react_all R env (react R env w call) es).service ≡ (react R env w call).service)
        × ((react_all R env (react R env w call) es).service.redis_client ≡ false)
  failed_attempt_is_last w es i first failed n =
      let (marked, no_client) = failed_attempt w i first failed in
      let same = react_all_initialized (react R env w call) es marked n in
      (same, ap (λ (s : Service). s.redis_client) same ∙ no_client)
