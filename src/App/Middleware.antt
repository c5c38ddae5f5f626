-- ===== src/App/Middleware.antt =====
-- The middleware that `_configure_middleware` of backend/features/main.py adds, with the layers of
-- backend/core/api/middleware: request_id.py, request_timeout.py and admission_control.py. A layer
-- turns the application inside it into one. The CORS layer, Starlette's stack and the fresh identifier
-- of a request are parameters.
pub mod Correlation
use backend_prod_ready.Prelude.{
  Option, Text, [], codes, if◌then◌else◌, is_empty, none, some, ℕ, ◌∷◌, ◌≡◌, Bool,
}
use backend_prod_ready.Dict.{Dict, find, put}
use backend_prod_ready.Exec.{Result, ok, raised}
use backend_prod_ready.Security.Admission.{
  Admission, admitted, arrive, exempt, finish, is_exempt, rejected, Admission,
}
use backend_prod_ready.Security.Admission
use backend_prod_ready.Security.Timeout.{timeout_response, wait_for}

pub record Request : Type 0 where
  pub path : Text
  -- the header X-Request-ID
  pub request_id : Option Text

-- Status and headers of a response.
pub record Answer : Type 0 where
  pub status_code : ℕ
  pub headers : Dict Text

-- What the layers share: the admission control and `request_id_ctx_var`.
pub record World : Type 0 where
  pub admission : Admission.Middleware
  pub context_id : Option Text

abbrev pub request_id_header : Text
request_id_header = codes "X-Request-ID"

-- `request.headers.get("X-Request-ID") or str(uuid.uuid4())`
unfoldable pub id_of : Text → Request → Text
id_of fresh request = elim request.request_id [
  | none ↦ fresh
  | some id ↦ if is_empty id then fresh else id
]

-- The response of the admission control at capacity.
unfoldable pub capacity_answer : Answer
capacity_answer = record { status_code = 503; headers = (codes "Retry-After", codes "5") ∷ [] }

module _ (E : Type 0) where
  abbrev pub Outcome : Type 0
  Outcome = Result E Answer × World

  abbrev pub Handler : Type 0
  Handler = Request → World → Outcome

  abbrev pub Layer : Type 0
  Layer = Handler → Handler

  -- `response.headers["X-Request-ID"] = _request_id`; an exception is raised again
  unfoldable pub with_id : Text → Outcome → Outcome
  with_id id (ok answer, w) =
      (ok (record answer { headers = put request_id_header id answer.headers }), w)
  with_id id (raised e, w) = (raised e, w)

  -- `dispatch` of RequestIdMiddleware
  unfoldable pub request_id_layer : Text → Layer
  unfolding with_id id_of
  request_id_layer fresh call_next request w =
      let id = id_of fresh request in
      with_id id (call_next request (record w { context_id = some id }))

  -- `except TimeoutError` around the application: its own TimeoutError is one too.
  unfoldable pub timeout_answer : (E → Bool) → ℕ → Outcome → Outcome
  timeout_answer is_timeout limit (ok answer, w) = (ok answer, w)
  timeout_answer is_timeout limit (raised e, w) =
      if is_timeout e
      then (ok (record { status_code = 504; headers = (timeout_response limit).headers }), w)
      else (raised e, w)

  -- `dispatch` of RequestTimeoutMiddleware; `lasts` is how long the application inside it runs on a
  -- request, `cancelled` what a run that is cut off leaves behind, and `is_timeout` tells a
  -- TimeoutError
  unfoldable pub timeout_layer : (E → Bool) → ℕ → (Request → ℕ) → (Request → World → World) → Layer
  unfolding wait_for timeout_answer
  timeout_layer is_timeout limit lasts cancelled call_next request w =
      if is_exempt request.path
      then call_next request w
      else elim (wait_for limit
          (record { duration = lasts request; outcome = call_next request w })).1 [
            | some outcome ↦ timeout_answer is_timeout limit outcome
            | none ↦ (
              ok (record { status_code = 504; headers = (timeout_response limit).headers }),
              cancelled request w,
            )
          ]

  -- The `finally` block of the admission control.
  unfoldable pub release : Outcome → Outcome
  release (r, w) = (r, record w { admission = finish w.admission })

  -- What it does with a request, once that is admitted or not.
  unfoldable pub admit : Handler → Request → World → Admission → Outcome
  unfolding release capacity_answer
  admit call_next request w exempt = call_next request w
  admit call_next request w rejected = (ok capacity_answer, w)
  admit call_next request w admitted = release (call_next request w)

  -- `dispatch` of AdmissionControlMiddleware
  unfoldable pub admission_layer : Layer
  unfolding admit
  admission_layer call_next request w =
      let (admission, m) = arrive request.path w.admission in
      admit call_next request (record w { admission = m }) admission

  -- Starlette's application: its stack of middleware, and what a request runs through.
  pub record Starlette : Type 1 where
    pub App : Type 0
    pub add_middleware : Layer → App → App
    pub run : App → Handler

  -- The middleware that was added last is the outermost.
  pub record WrapsLast (starlette : Starlette) : Type 0 where
    pub outermost :
        (layer : Layer) (app : starlette.App)
        → starlette.run (starlette.add_middleware layer app) ≡ layer (starlette.run app)

  -- `_configure_middleware`
  unfoldable pub configure_middleware :
      (starlette : Starlette)
      → Layer
      → Text
      → (E → Bool)
      → ℕ
      → (Request → ℕ)
      → (Request → World → World)
      → starlette.App
      → starlette.App
  configure_middleware starlette cors fresh is_timeout limit lasts cancelled app =
      starlette.add_middleware admission_layer (
        starlette.add_middleware (timeout_layer is_timeout limit lasts cancelled)
          (starlette.add_middleware (request_id_layer fresh) (starlette.add_middleware cors app)))
