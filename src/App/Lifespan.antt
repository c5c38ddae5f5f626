-- ===== src/App/Lifespan.antt =====
-- The start and the end of the application: `lifespan` and `_initialize_database` of
-- backend/features/main.py, with the tests for errors that are not retried of
-- backend/core/infrastructure/database/error_handler.py. tenacity is a parameter. How the steps end is
-- given, and the steps are recorded; logs are left out.
pub mod Attempts
pub mod Cleanup
use backend_prod_ready.Prelude.{
  Bool, List, Option, [], false, if◌then◌else◌, none, not, some, suc, true, ℕ, ◌++◌, ◌==◌, ◌∷◌, ◌≡◌,
}
use backend_prod_ready.Exec.{Exec, Result, ok, raised, ◌>>◌, ◌>>=◌}

-- `exception.args[0]` of a gaierror: a number, or one below zero, which is -(n + 1).
pub data Errno : Type 0 where
  pos negsuc : ℕ → Errno

-- An exception of the database, by what the tests for it ask.
pub data DatabaseError : Type 0 where
  gaierror : Errno → DatabaseError
  invalid_password_error invalid_authorization_specification_error : DatabaseError
  another_error : DatabaseError

abbrev is_eight : Errno → Bool
is_eight (pos n) = n == 8
is_eight (negsuc n) = false

unfoldable pub is_dns_resolution_error : DatabaseError → Bool
is_dns_resolution_error (gaierror errno) = is_eight errno
is_dns_resolution_error _ = false

unfoldable pub is_auth_error : DatabaseError → Bool
is_auth_error invalid_password_error = true
is_auth_error invalid_authorization_specification_error = true
is_auth_error _ = false

-- `_should_retry_db_error`, of an attempt that raised
unfoldable pub should_retry_db_error : DatabaseError → Bool
unfolding is_dns_resolution_error is_auth_error
should_retry_db_error e = if is_dns_resolution_error e then false else not (is_auth_error e)

pub data Event : Type 0 where
  database_attempt cache_connect kit_startup serving kit_shutdown infrastructure_shutdown : Event

-- What leaves the context.
pub data Failure : Type 0 where
  database_failure : DatabaseError → Failure
  cache_failure kit_failure body_failure cancelled : Failure

-- The steps so far, and how the attempts on the database that follow end: all after the list succeed.
pub record World : Type 0 where
  pub log : List Event
  pub database : List (Option DatabaseError)

unfoldable pub happen : Event → World → World
happen event w = record w { log = w.log ++ (event ∷ []) }

-- The body of `_initialize_database`, by how the next attempts end.
unfoldable pub attempt_end :
    List (Option DatabaseError) → World → Result DatabaseError (Unit {0}) × World
unfolding happen
attempt_end [] w = (ok tt, happen database_attempt w)
attempt_end (none ∷ rest) w = (ok tt, record (happen database_attempt w) { database = rest })
attempt_end (some e ∷ rest) w = (raised e, record (happen database_attempt w) { database = rest })

unfoldable pub attempt : Exec World DatabaseError (Unit {0})
unfolding attempt_end
attempt w = attempt_end w.database w

-- `tenacity.retry` with `stop_after_attempt(n)`, `retry=should_retry` and `reraise=True`.
pub record Tenacity : Type 0 where
  pub retry :
      ℕ
      → (DatabaseError → Bool)
      → Exec World DatabaseError (Unit {0})
      → Exec World DatabaseError (Unit {0})

-- What follows an attempt that is not the last.
abbrev pub after_attempt :
    (DatabaseError → Bool)
    → Exec World DatabaseError (Unit {0})
    → Result DatabaseError (Unit {0}) × World
    → Result DatabaseError (Unit {0}) × World
after_attempt should_retry more (ok a, w) = (ok a, w)
after_attempt should_retry more (raised e, w) = if should_retry e then more w else (raised e, w)

-- It repeats the call until one ends that is not to be retried, or the attempts are used up.
pub record Repeats (t : Tenacity) : Type 0 where
  pub last :
      (should_retry : DatabaseError → Bool) (call : Exec World DatabaseError (Unit {0})) (w : World)
      → t.retry 1 should_retry call w ≡ call w
  pub again :
      (n : ℕ) (should_retry : DatabaseError → Bool) (call : Exec World DatabaseError (Unit {0}))
      (w : World)
      → t.retry (suc (suc n)) should_retry call w
        ≡ after_attempt should_retry (t.retry (suc n) should_retry call) (call w)

-- How the other steps end.
pub data StepEnd : Type 0 where
  done failed was_cancelled : StepEnd

pub record Ends : Type 0 where
  pub cache : StepEnd
  pub startup : StepEnd
  pub body : StepEnd
  pub kit_end : StepEnd
  pub infrastructure_end : StepEnd

abbrev pub Action : Type 0
Action = Exec World Failure (Unit {0})

-- A step that is recorded and ends in a way.
unfoldable pub step : Event → Failure → StepEnd → Action
unfolding happen
step event failure done w = (ok tt, happen event w)
step event failure failed w = (raised failure, happen event w)
step event failure was_cancelled w = (raised cancelled, happen event w)

abbrev as_failure : Result DatabaseError (Unit {0}) × World → Result Failure (Unit {0}) × World
as_failure (ok a, w) = (ok a, w)
as_failure (raised e, w) = (raised (database_failure e), w)

module _ (t : Tenacity) where
  -- `_initialize_database`
  unfoldable pub initialize_database : Exec World DatabaseError (Unit {0})
  unfolding attempt
  initialize_database = t.retry 3 should_retry_db_error attempt

  -- The `try` of `lifespan`, with the body of the context.
  unfoldable pub serve : Ends → Action
  unfolding initialize_database step
  serve ends = do
    (λ w. as_failure (initialize_database w))
    step cache_connect cache_failure ends.cache
    step kit_startup kit_failure ends.startup
    step serving body_failure ends.body

  -- The shielded shutdown; whatever it raises is caught.
  unfoldable pub shut_down : Ends → World → World
  unfolding step
  shut_down ends w = (step infrastructure_shutdown body_failure ends.infrastructure_end w).1

  -- Its `finally`: `except Exception` does not catch a cancellation of the shutdown of the kit.
  unfoldable pub clean_up : Ends → StepEnd → Action
  unfolding shut_down happen
  clean_up ends was_cancelled w = (raised cancelled, happen kit_shutdown w)
  clean_up ends done w = (ok tt, shut_down ends (happen kit_shutdown w))
  clean_up ends failed w = (ok tt, shut_down ends (happen kit_shutdown w))

  abbrev pub after_cleanup :
      Result Failure (Unit {0})
      → Result Failure (Unit {0}) × World
      → Result Failure (Unit {0}) × World
  after_cleanup r (ok _, w) = (r, w)
  after_cleanup r (raised e, w) = (raised e, w)

  -- `lifespan`
  unfoldable pub lifespan : Ends → Action
  unfolding clean_up
  lifespan ends w = let (r, w') = serve ends w in after_cleanup r (clean_up ends ends.kit_end w')
