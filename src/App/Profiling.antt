-- ===== src/App/Profiling.antt =====
-- backend/core/api/middleware/profiling.py: which requests are profiled, and the middleware around the
-- application. How the application and the saving of a profile end is given; a profiler is known by
-- being started and stopped. The files, the durations and logs are left out.
pub mod Decided
use backend_prod_ready.Prelude.{
  Bool, List, Option, Text, [], all, any, codes, false, if◌then◌else◌, ltb, none, some, text_eq,
  true, ℕ, ◌&&◌, ◌+◌, ◌∷◌,
}
use backend_prod_ready.Dict.{Dict, put}
use backend_prod_ready.Exec.{Result, ok, raised}

-- ProfilingSettings, without the rates and the retention.
pub record ProfilingSettings : Type 0 where
  pub profiling_enabled : Bool
  pub require_profile_header : Bool
  pub profile_header_token : Text
  pub profiled_endpoints : List Text

pub record Request : Type 0 where
  pub path : Text
  -- the header X-Profile-Token
  pub profile_token : Option Text
  -- the query parameter profile
  pub profile : Option Text

abbrev pub is_ascii : Text → Bool
is_ascii = all (λ c. ltb c 128)

-- `hmac.compare_digest` of two texts: a TypeError if one of them is not ASCII.
unfoldable pub compare_digest : Text → Text → Option Bool
compare_digest a b = if is_ascii a && is_ascii b then some (text_eq a b) else none

-- `request.headers.get("X-Profile-Token") or ""`
abbrev pub token_of : Option Text → Text
token_of none = []
token_of (some token) = token

-- `request.query_params.get("profile") == "true"`
abbrev pub asks_for_profile : Option Text → Bool
asks_for_profile none = false
asks_for_profile (some value) = text_eq value (codes "true")

-- The endpoint filter lets the path through.
abbrev pub passes_filter : List Text → Text → Bool
passes_filter [] path = true
passes_filter (endpoint ∷ endpoints) path = any (text_eq path) (endpoint ∷ endpoints)

-- The header test: whether the decision goes on, or a TypeError.
unfoldable pub check_header : ProfilingSettings → Request → Option Bool
unfolding compare_digest
check_header settings request =
    if settings.require_profile_header
    then compare_digest (token_of request.profile_token) settings.profile_header_token
    else some true

-- The rest of the decision; `sampled` is whether the draw is below the sample rate.
unfoldable pub choose : ProfilingSettings → Request → Bool → Bool
choose settings request sampled =
    if asks_for_profile request.profile
    then true
    else if passes_filter settings.profiled_endpoints request.path
    then sampled
    else false

abbrev pub go_on : Option Bool → Bool → Option Bool
go_on none chosen = none
go_on (some true) chosen = some chosen
go_on (some false) chosen = some false

-- `_should_profile_request`; `none` is the TypeError
unfoldable pub should_profile_request : ProfilingSettings → Request → Bool → Option Bool
unfolding check_header choose
should_profile_request settings request sampled =
    if settings.profiling_enabled
    then go_on (check_header settings request) (choose settings request sampled)
    else some false

-- What the application does with a request.
pub data Ended : Type 0 where
  responded : Dict Text → Ended
  failed was_cancelled : Ended

-- `_save_profile_locally`: a path of the HTML file, `none` after an OSError, or another exception.
pub data Saved : Type 0 where
  saved_at : Text → Saved
  not_saved save_failed : Saved

pub data Failure : Type 0 where
  application_error cancelled save_error token_error : Failure

-- The profilers that were started and stopped.
pub record World : Type 0 where
  pub started : ℕ
  pub stopped : ℕ

unfoldable pub start_profiler : World → World
start_profiler w = record w { started = w.started + 1 }

unfoldable pub stop_profiler : World → World
stop_profiler w = record w { stopped = w.stopped + 1 }

-- The headers that point to a profile; the path is shown outside production.
unfoldable pub add_headers : Bool → Text → Text → Dict Text → Dict Text
add_headers production duration html_path headers =
    let marked =
      put (codes "X-Profile-Duration-Ms") duration
        (put (codes "X-Profiled") (codes "true") headers) in
    if production then marked else put (codes "X-Profile-Path") html_path marked

abbrev pub Outcome : Type 0
Outcome = Result Failure (Dict Text) × World

module _ (production : Bool) (duration : Text) where
  -- After a response.
  unfoldable pub on_response : Saved → Dict Text → World → Outcome
  unfolding add_headers
  on_response (saved_at path) headers w = (ok (add_headers production duration path headers), w)
  on_response not_saved headers w = (ok headers, w)
  on_response save_failed headers w = (raised save_error, w)

  -- After an exception: it is raised again, unless saving raises another.
  unfoldable pub on_failure : Saved → World → Outcome
  on_failure save_failed w = (raised save_error, w)
  on_failure (saved_at path) w = (raised application_error, w)
  on_failure not_saved w = (raised application_error, w)

  -- The application inside a running profiler; `except Exception` does not catch a cancellation.
  unfoldable pub profiled : Ended → Saved → World → Outcome
  unfolding on_response on_failure stop_profiler
  profiled (responded headers) save w = on_response save headers (stop_profiler w)
  profiled failed save w = on_failure save (stop_profiler w)
  profiled was_cancelled save w = (raised cancelled, w)

  unfoldable pub passed_on : Ended → World → Outcome
  passed_on (responded headers) w = (ok headers, w)
  passed_on failed w = (raised application_error, w)
  passed_on was_cancelled w = (raised cancelled, w)

  -- `profiling_middleware`
  unfoldable pub profiling_middleware :
      ProfilingSettings → Request → Bool → Ended → Saved → World → Outcome
  unfolding should_profile_request profiled passed_on start_profiler
  profiling_middleware settings request sampled ended save w =
      elim (should_profile_request settings request sampled) [
        | none ↦ (raised token_error, w)
        | some false ↦ passed_on ended w
        | some true ↦ profiled ended save (start_profiler w)
      ]
