-- ===== src/Observability/Metrics.antt =====
-- The middleware of `setup_metrics` in backend/core/observability/metrics.py, over the client of
-- Prometheus, which is a parameter. Durations and logs are left out.
pub mod Counted
use backend_prod_ready.Prelude.{
  Bool, List, Option, Text, [], codes, if◌then◌else◌, none, some, suc, text_eq, zero, ℕ, ◌&&◌, ◌-◌,
  ◌<◌, ◌==◌, ◌||◌, ◌∷◌, ◌≡◌,
}
use backend_prod_ready.Exec.{Exec, Result, ok, raised}
use backend_prod_ready.Observability.Paths.{normalize_path}

pub record Request : Type 0 where
  pub method : Text
  pub path : Text

pub record Labels : Type 0 where
  pub method : Text
  pub path : Text

abbrev pub same : Labels → Labels → Bool
same l l' = text_eq l.method l'.method && text_eq l.path l'.path

-- The gauge and the counter of the middleware: its calls, and what a scrape reads.
pub record Prometheus : Type 1 where
  pub State : Type 0
  -- http_requests_in_progress
  pub inc_in_progress : Labels → State → State
  pub dec_in_progress : Labels → State → State
  pub in_progress : Labels → State → ℕ
  -- http_request_duration_seconds
  pub observe_duration : Labels → State → State
  -- http_requests_total, with the status code
  pub inc_total : Labels → ℕ → State → State
  pub total : Labels → ℕ → State → ℕ

-- Each label has its own value, and no call but its own changes it.
pub record Counts (P : Prometheus) : Type 0 where
  pub in_progress_inc :
      (l j : Labels) (s : P.State)
      → P.in_progress j (P.inc_in_progress l s)
        ≡ (if same l j then suc (P.in_progress j s) else P.in_progress j s)
  pub in_progress_dec :
      (l j : Labels) (s : P.State)
      → 0 < P.in_progress l s
      → P.in_progress j (P.dec_in_progress l s)
        ≡ (if same l j then P.in_progress j s - 1 else P.in_progress j s)
  pub in_progress_observe :
      (l j : Labels) (s : P.State) → P.in_progress j (P.observe_duration l s) ≡ P.in_progress j s
  pub in_progress_total :
      (l j : Labels) (code : ℕ) (s : P.State)
      → P.in_progress j (P.inc_total l code s) ≡ P.in_progress j s
  pub total_inc :
      (l j : Labels) (code code' : ℕ) (s : P.State)
      → P.total j code' (P.inc_total l code s)
        ≡ (if same l j && (code == code') then suc (P.total j code' s) else P.total j code' s)
  pub total_in_progress :
      (l j : Labels) (code : ℕ) (s : P.State)
      → (P.total j code (P.inc_in_progress l s) ≡ P.total j code s)
        × (P.total j code (P.dec_in_progress l s) ≡ P.total j code s)
  pub total_observe :
      (l j : Labels) (code : ℕ) (s : P.State)
      → P.total j code (P.observe_duration l s) ≡ P.total j code s

-- A path that the middleware passes by.
unfoldable pub is_skipped : Text → Bool
is_skipped path = text_eq path (codes "/metrics") || text_eq path (codes "/api/v1/system/metrics")

-- `response.status_code if response else 500`
unfoldable pub status_of : Option ℕ → ℕ
status_of none = 500
status_of (some code) = code

abbrev pub put_back {ℓ} : {A : Type ℓ} → A → Option (A × List A) → Option (A × List A)
put_back x none = none
put_back x (some (y, ys)) = some (y, x ∷ ys)

-- The n-th of a list, and the others.
unfoldable pub take_at {ℓ} : {A : Type ℓ} → ℕ → List A → Option (A × List A)
take_at n [] = none
take_at zero (x ∷ xs) = some (x, xs)
take_at (suc n) (x ∷ xs) = put_back x (take_at n xs)

-- A request arrives, or the n-th that is running ends, with a response or an exception.
pub data Event : Type 0 where
  arrives : Request → Event
  ends : ℕ → Option ℕ → Event

module _ (P : Prometheus) (is_digit : ℕ → Bool) where
  -- the labels of a request
  unfoldable pub labels_of : Request → Labels
  labels_of request = record {
    method = request.method;
    path = normalize_path is_digit request.path;
  }

  -- The middleware before it awaits the application.
  unfoldable pub enter : Labels → P.State → P.State
  enter l s = P.inc_in_progress l s

  -- Its `finally`, with the status code of the response if there is one.
  unfoldable pub leave : Labels → Option ℕ → P.State → P.State
  unfolding status_of
  leave l response s =
      P.dec_in_progress l (P.inc_total l (status_of response) (P.observe_duration l s))

  abbrev pub response_of : {E : Type 0} → Result E ℕ → Option ℕ
  response_of (ok code) = some code
  response_of (raised e) = none

  -- `metrics_middleware`, of an application that answers with a status code
  unfoldable pub metrics_middleware :
      {E : Type 0} → (Request → Exec P.State E ℕ) → Request → Exec P.State E ℕ
  unfolding enter leave labels_of is_skipped
  metrics_middleware call_next request s =
      let l = labels_of request in
      if is_skipped l.path
      then call_next request s
      else let (r, s') = call_next request (enter l s) in (r, leave l (response_of r) s')

  -- What the middleware does before and after the application, of a request of any path.
  unfoldable pub begin : Request → P.State → P.State
  unfolding enter labels_of is_skipped
  begin request s = if is_skipped (labels_of request).path then s else enter (labels_of request) s

  unfoldable pub finish : Request → Option ℕ → P.State → P.State
  unfolding leave labels_of is_skipped
  finish request response s =
      if is_skipped (labels_of request).path then s else leave (labels_of request) response s

  -- A server with requests that run at once, and those that have ended.
  pub record Server : Type 0 where
    pub running : List Request
    pub ended : List (Request × Option ℕ)
    pub metrics : P.State

  unfoldable pub end_of : Option ℕ → Option (Request × List Request) → Server → Server
  unfolding finish
  end_of response none w = w
  end_of response (some (request, others)) w = record {
    running = others;
    ended = (request, response) ∷ w.ended;
    metrics = finish request response w.metrics;
  }

  unfoldable pub happen : Event → Server → Server
  unfolding begin end_of
  happen (arrives request) w = record w {
    running = request ∷ w.running;
    metrics = begin request w.metrics;
  }
  happen (ends n response) w = end_of response (take_at n w.running) w

  unfoldable pub happen_all : List Event → Server → Server
  unfolding happen
  happen_all [] w = w
  happen_all (e ∷ es) w = happen_all es (happen e w)
