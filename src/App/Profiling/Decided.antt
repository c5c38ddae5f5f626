-- ===== src/App/Profiling/Decided.antt =====
-- Who is profiled, and what is left of it.
use backend_prod_ready.Prelude.{
  Bool, Option, Text, arith, codes, false, none, refl, some, text_eq, text_eq_iff, true, ◌+◌, ◌∙◌,
  ◌≡◌, ◌≢◌,
}
use backend_prod_ready.Dict.{Dict, find, put}
use backend_prod_ready.Dict.Laws.{find-put}
use backend_prod_ready.Exec.{ok, raised}
use backend_prod_ready.App.Profiling.{
  Ended, Outcome, ProfilingSettings, Request, Saved, World, add_headers, check_header,
  compare_digest, failed, is_ascii, not_saved, on_failure, on_response, passed_on, profiled,
  profiling_middleware, responded, save_failed, saved_at, should_profile_request, start_profiler,
  stop_profiler, token_error, token_of, was_cancelled,
}

abbrev profile_path_header : Text
profile_path_header = codes "X-Profile-Path"

-- The header X-Profile-Path that the application set.
abbrev pub own_path : Ended → Option Text
own_path (responded headers) = find profile_path_header headers
own_path _ = none

-- As many profilers were stopped as started, and the response points to no file.
abbrev pub IsTraceless : Ended → World → Outcome → Type 0
IsTraceless ended w (ok headers, w') =
    (w'.started + w.stopped ≡ w'.stopped + w.started)
    × (find profile_path_header headers ≡ own_path ended)
IsTraceless ended w (raised e, w') = w'.started + w.stopped ≡ w'.stopped + w.started

add_headers-hides :
    (duration path : Text) (headers : Dict Text)
    → find profile_path_header (add_headers true duration path headers)
      ≡ find profile_path_header headers
unfolding add_headers text_eq
add_headers-hides duration path headers =
    find-put (codes "X-Profile-Duration-Ms") profile_path_header duration
      (put (codes "X-Profiled") (codes "true") headers)
    ∙ find-put (codes "X-Profiled") profile_path_header (codes "true") headers

profiled-IsTraceless :
    (duration : Text) (ended : Ended) (save : Saved) (w : World)
    → ended ≢ was_cancelled
    → IsTraceless ended w (profiled true duration ended save (start_profiler w))
unfolding profiled on_response on_failure start_profiler stop_profiler
profiled-IsTraceless duration (responded headers) (saved_at path) w n =
    (omega arith, add_headers-hides duration path headers)
profiled-IsTraceless duration (responded headers) not_saved w n = (omega arith, refl)
profiled-IsTraceless duration (responded headers) save_failed w n = omega arith
profiled-IsTraceless duration failed (saved_at path) w n = omega arith
profiled-IsTraceless duration failed not_saved w n = omega arith
profiled-IsTraceless duration failed save_failed w n = omega arith
profiled-IsTraceless duration was_cancelled save w n = absurd (n refl)

passed_on-IsTraceless :
    (duration : Text) (ended : Ended) (w : World)
    → IsTraceless ended w (passed_on true duration ended w)
unfolding passed_on
passed_on-IsTraceless duration (responded headers) w = (omega arith, refl)
passed_on-IsTraceless duration failed w = omega arith
passed_on-IsTraceless duration was_cancelled w = omega arith

-- In production, whatever the settings, the request and the draw, and however the application and the
-- saving end, but for a cancellation of the application: as many profilers were stopped as started,
-- and the response has no X-Profile-Path but one that the application set.
pub profiling_middleware-IsTraceless :
    (duration : Text) (settings : ProfilingSettings) (request : Request) (sampled : Bool)
    (ended : Ended) (save : Saved) (w : World)
    → ended ≢ was_cancelled
    → IsTraceless ended w (profiling_middleware true duration settings request sampled ended save w)
unfolding profiling_middleware
profiling_middleware-IsTraceless duration settings request sampled ended save w n =
    after (should_profile_request settings request sampled)
  where
    after :
        (o : Option Bool)
        → IsTraceless ended w (elim o [
          | none ↦ (raised token_error, w)
          | some false ↦ passed_on true duration ended w
          | some true ↦ profiled true duration ended save (start_profiler w)
        ])
    after none = omega arith
    after (some false) = passed_on-IsTraceless duration ended w
    after (some true) = profiled-IsTraceless duration ended save w n

-- With a token that is asked for, a request with another one is answered as without profiling.
unauthorized_passed_on :
    (production : Bool) (duration : Text) (settings : ProfilingSettings) (request : Request)
    (sampled : Bool) (ended : Ended) (save : Saved) (w : World)
    → settings.require_profile_header ≡ true
    → is_ascii (token_of request.profile_token) ≡ true
    → is_ascii settings.profile_header_token ≡ true
    → token_of request.profile_token ≢ settings.profile_header_token
    → profiling_middleware production duration settings request sampled ended save w
      ≡ passed_on production duration ended w
unfolding profiling_middleware should_profile_request check_header compare_digest
unauthorized_passed_on production duration settings request sampled ended save w required a b
      other =
    ground (
      arith,
      required,
      a,
      b,
      other,
      text_eq_iff (token_of request.profile_token) settings.profile_header_token,
    )

-- A token that is not ASCII raises the TypeError of the comparison, before the application is called.
non_ascii_raises :
    (production : Bool) (duration : Text) (settings : ProfilingSettings) (request : Request)
    (sampled : Bool) (ended : Ended) (save : Saved) (w : World)
    → settings.profiling_enabled ≡ true
    → settings.require_profile_header ≡ true
    → is_ascii (token_of request.profile_token) ≡ false
    → profiling_middleware production duration settings request sampled ended save w
      ≡ (raised token_error, w)
unfolding profiling_middleware should_profile_request check_header compare_digest
non_ascii_raises production duration settings request sampled ended save w enabled required a =
    ground (arith, enabled, required, a)
