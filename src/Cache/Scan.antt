-- ===== src/Cache/Scan.antt =====
-- The loops over SCAN: the commands of the Redis client that they use, a parameter, and
-- `delete_pattern` of `CacheService` (backend/core/infrastructure/cache/service.py). Python's loops
-- are on fuel, and out of it they give none. The semaphore that limits how many deletions run at once
-- is left out.
use backend_prod_ready.Prelude.{
  Bool, Bool-cases, List, Option, Text, [], all, arith, false, inl, inr, none, refl, some, suc,
  true, zero, ℕ, ◌+◌, ◌<◌, ◌==◌, ◌∷◌, ◌≡◌, ◌≤◌, ◌⊎◌,
}
use backend_prod_ready.Exec.{Result, ok}
use backend_prod_ready.Cache.Memory
use backend_prod_ready.Cache.Memory.{Memory}
use backend_prod_ready.Cache.Redis.{Redis, done}
use backend_prod_ready.Cache.Service.{
  CacheError, World, Action, Environment, ensure_connected, fallback_memory,
}
use backend_prod_ready.Cache.Service.Methods.{
  with_memory, dispatch, execute_redis_operation, settle,
}

-- SCAN with MATCH and COUNT from a cursor gives the next cursor and keys; DEL of some keys gives how
-- many it deleted; `direct` runs a command without the circuit breaker, and an exception is none.
pub record Scanning (Db : Type 0) : Type 1 where
  pub scan : ℕ → Text → ℕ → Db → (ℕ × List Text) × Db
  pub delete_keys : List Text → Db → ℕ × Db
  pub direct : (A : Type 0) → (Db → A × Db) → Db → Option A × Db
  -- `fnmatch` of the in-memory cache and the glob of the server
  pub matches : Text → Text → Bool

-- What the documentation of SCAN promises on data that does not grow, in terms of the rounds that an
-- iteration has left: each round but the last leaves fewer, and deletions leave no more. A round gives
-- keys that match, and a command that raises has run or has not.
pub record IsScan {Db : Type 0} (s : Scanning Db) (rounds : ℕ → Db → ℕ) : Type 1 where
  pub scan_less :
      (cursor : ℕ) (pattern : Text) (count : ℕ) (db : Db)
      → let ((next, keys), db') = s.scan cursor pattern count db in
        (next == 0) ≡ false → rounds next db' < rounds cursor db
  pub delete_rounds :
      (cursor : ℕ) (keys : List Text) (db : Db)
      → rounds cursor (s.delete_keys keys db).1 ≤ rounds cursor db
  pub scan_matches :
      (cursor : ℕ) (pattern : Text) (count : ℕ) (db : Db)
      → all (s.matches pattern) (s.scan cursor pattern count db).0.1 ≡ true
  pub direct_runs :
      (A : Type 0) (f : Db → A × Db) (db : Db) (a : A)
      → (s.direct A f db).0 ≡ some a
      → (a ≡ (f db).0) × ((s.direct A f db).1 ≡ (f db).1)
  pub direct_keeps :
      (A : Type 0) (f : Db → A × Db) (db : Db)
      → ((s.direct A f db).1 ≡ db) ⊎ ((s.direct A f db).1 ≡ (f db).1)

module _ {Db : Type 0} (s : Scanning Db) where
  open s use {scan, delete_keys}

  -- `if _keys: _deleted += await self._redis_client.delete(*_keys)`
  unfoldable pub delete_page : List Text → Db → ℕ × Db
  delete_page [] db = (0, db)
  delete_page (key ∷ keys) db = delete_keys (key ∷ keys) db

  -- The loop of `_delete_pattern_operation` from a cursor, with the number deleted so far.
  unfoldable pub delete_loop : ℕ → Text → ℕ → ℕ → ℕ → Db → Option ℕ × Db
  delete_loop zero pattern batch_size cursor deleted db = (none, db)
  delete_loop (suc fuel) pattern batch_size cursor deleted db =
      let ((next, keys), db') = scan cursor pattern batch_size db in
      let (removed, db'') = delete_page keys db' in
      elim (next == 0) [
        | true ↦ (some (deleted + removed), db'')
        | false ↦ delete_loop fuel pattern batch_size next (deleted + removed) db''
      ]

  module _ (rounds : ℕ → Db → ℕ) (is_scan : IsScan s rounds) where
    open is_scan use {scan_less, delete_rounds}

    delete_page-rounds :
        (cursor : ℕ) (keys : List Text) (db : Db)
        → rounds cursor (delete_page keys db).1 ≤ rounds cursor db
    unfolding delete_page
    delete_page-rounds cursor [] db = omega arith
    delete_page-rounds cursor (key ∷ keys) db = delete_rounds cursor (key ∷ keys) db

    -- The deletion by pattern ends: with more fuel than the iteration has rounds left it gives a
    -- number, and no smaller one than it started with.
    pub delete_loop_ends :
        (fuel : ℕ) (pattern : Text) (batch_size cursor deleted : ℕ) (db : Db)
        → rounds cursor db < fuel
        → (n : ℕ) × ((delete_loop fuel pattern batch_size cursor deleted db).0 ≡ some n)
          × (deleted ≤ n)
    unfolding delete_loop
    delete_loop_ends zero pattern batch_size cursor deleted db h = absurd (omega arith)
    delete_loop_ends (suc fuel) pattern batch_size cursor deleted db h =
        let page = scan cursor pattern batch_size db in
        let next = page.0.0 in
        let gone = delete_page page.0.1 page.1 in
        elim (Bool-cases (next == 0)) [
          | inl last ↦ (deleted + gone.0, rw (delete_loop, last) refl, omega arith)
          | inr more ↦
              let rest = delete_loop_ends fuel pattern batch_size next (deleted + gone.0) gone.1 (
                omega (
                  arith,
                  h,
                  scan_less cursor pattern batch_size db more,
                  delete_page-rounds next page.0.1 page.1,
                )) in
              (rest.0, rw (delete_loop, more) rest.1, omega (arith, rest.2))
        ]

module _ (R : Redis) (env : Environment) (s : Scanning R.Db) where
  -- The method of the in-memory cache.
  abbrev pub local_deletion : Text → ℕ → Memory → Option ℕ × Memory
  local_deletion pattern now m =
      let (deleted, m') = Memory.delete_pattern (s.matches pattern) m in (some deleted, m')

  -- `delete_pattern` of CacheService, with fuel for its loop; `invalidate_cache` is the same with
  -- another log
  unfoldable pub delete_pattern : ℕ → Text → ℕ → Action R (Option ℕ)
  unfolding dispatch delete_loop
  delete_pattern fuel pattern batch_size =
      dispatch R env (local_deletion pattern) (λ now. delete_loop s fuel pattern batch_size 0 0)
        (some 0)

  -- A service that has tried to connect does not try again.
  ensure_connected-ready :
      (w : World R) → w.service.initialized ≡ true → ensure_connected R env w ≡ (ok tt, w)
  unfolding ensure_connected
  ensure_connected-ready w ready = rw ready refl

  -- How a method ends then, through a client that passes every call on.
  module _ {A : Type 0} (here : ℕ → Memory → A × Memory) (operation : ℕ → R.Db → A × R.Db)
      (default : A) (P : A → Type 0) (w : World R) (ready : w.service.initialized ≡ true)
      (runs : (A : Type 0) (f : R.Db → A × R.Db) (db : R.Db)
        → R.call A f db ≡ (done (f db).0, (f db).1))
      (q : P (operation w.clock w.db).0) (d : P default) where
    execute-ready : (a : A) × ((execute_redis_operation R env operation default w).0 ≡ ok a) × P a
    unfolding execute_redis_operation settle
    execute-ready = elim (Bool-cases w.service.redis_client) [
      | inr missing ↦
          rw (execute_redis_operation, ensure_connected-ready w ready, missing) (default, refl, d)
      | inl there ↦
          rw (execute_redis_operation, ensure_connected-ready w ready, there, runs)
            ((operation w.clock w.db).0, refl, q)
    ]

    dispatched :
        ((m : Memory) → P (here w.clock m).0)
        → (x : Option Memory)
        → (a : A) × ((elim x as (λ _. Result CacheError A × World R) [
          | some m ↦ with_memory R w (here w.clock m)
          | none ↦ execute_redis_operation R env operation default w
        ]).0
            ≡ ok a)
          × P a
    dispatched p (some m) = ((here w.clock m).0, refl, p m)
    dispatched p none = execute-ready

    dispatch-ready :
        ((m : Memory) → P (here w.clock m).0)
        → (a : A) × ((dispatch R env here operation default w).0 ≡ ok a) × P a
    unfolding dispatch
    dispatch-ready p =
        rw (dispatch, ensure_connected-ready w ready) (dispatched p (fallback_memory w.service))

  -- A deletion by pattern ends with a number: on a service that has tried to connect, through a
  -- client that passes every call on, with more fuel than an iteration of SCAN has rounds.
  pub delete_pattern_ends :
      (rounds : ℕ → R.Db → ℕ)
      → IsScan s rounds
      → ((A : Type 0) (f : R.Db → A × R.Db) (db : R.Db) → R.call A f db ≡ (done (f db).0, (f db).1))
      → (fuel : ℕ) (pattern : Text) (batch_size : ℕ) (w : World R) → w.service.initialized ≡ true
      → rounds 0 w.db < fuel
      → (n : ℕ) × ((delete_pattern fuel pattern batch_size w).0 ≡ ok (some n))
  unfolding delete_pattern
  delete_pattern_ends rounds is_scan runs fuel pattern batch_size w ready r =
      let (n, e, le) = delete_loop_ends s rounds is_scan fuel pattern batch_size 0 0 w.db r in
      let (o, result, known) =
        dispatch-ready (local_deletion pattern) (λ now. delete_loop s fuel pattern batch_size 0 0)
          (some 0) (λ o. (k : ℕ) × (o ≡ some k)) w ready runs (n, e) (0, refl)
          (λ m. ((Memory.delete_pattern (s.matches pattern) m).0, refl)) in
      (known.0, rw (← known.1) result)
