-- ===== src/Examples/AppRuns.antt =====
-- The theorems on the middleware at concrete inputs.
use backend_prod_ready.Prelude.{
  ℕ, codes, drop_while, ends_with, if◌then◌else◌, ltb, none, refl, rstrip, some, starts_with, ◌&&◌,
  ◌==◌,
}
use backend_prod_ready.Exec.{raised}
use backend_prod_ready.Security.Admission.{arrive, is_exempt}
use backend_prod_ready.App.Middleware.{
  Handler, Layer, Request, Starlette, World, configure_middleware, id_of,
}
use backend_prod_ready.App.Middleware.Correlation.{
  Carries, correlated_exactly, is_admitted, inside, raises_timeout,
}

-- An application is what a request runs through.
abbrev starlette : Starlette ℕ
starlette = record { App = Handler ℕ; add_middleware = λ layer app. layer app; run = λ app. app }

abbrev no_cors : Layer ℕ
no_cors call_next = call_next

abbrev traced : Request
traced = record { path = codes "/api/v1/generate"; request_id = some (codes "r1") }

-- The application raises a TimeoutError, here the exception 7, and the last permit is free.
abbrev timing_out : Handler ℕ
timing_out request w = (raised 7, w)

abbrev one_free : World
one_free = record {
  admission = record {
    max_concurrent = 1;
    semaphore = some 1;
    current_requests = 0;
    total_rejected = 0;
  };
  context_id = none;
}

correlated_exactly_example :
    let reached =
      inside timing_out
        (codes "f1")
        traced
        (record one_free { admission = (arrive traced.path one_free.admission).1 }) in
    Carries reached.0
      (if is_admitted (arrive traced.path one_free.admission).0 && ltb 1 30
        then (if raises_timeout (λ e. e == 7) reached
            then none
            else some (id_of (codes "f1") traced))
        else none)
      (configure_middleware ℕ starlette no_cors
        (codes "f1")
        (λ e. e == 7)
        30
        (λ r. 1)
        (λ r w. w)
        timing_out
        traced
        one_free).0
unfolding is_exempt ends_with starts_with rstrip drop_while
correlated_exactly_example =
    correlated_exactly starlette (record { outermost = λ layer app. refl }) no_cors (codes "f1")
      (λ e. e == 7) 30 (λ r. 1) (λ r w. w) timing_out traced one_free refl
