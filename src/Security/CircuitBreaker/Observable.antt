-- ===== src/Security/CircuitBreaker/Observable.antt =====
-- The wrapper of `observable_circuit_breaker` in backend/core/security/circuit_breaker.py. The breaker
-- is the package purgatory's: a parameter that a call enters and leaves. Metrics are left out.
use backend_prod_ready.Prelude.{
  Bool, List, Option, Text, [], any, arith, false, if◌then◌else◌, none, refl, some, true, ℕ, ◌+◌,
  ◌∷◌, ◌≡◌, ap, if_cases, ◌∙◌,
}
use backend_prod_ready.Exec.{Result, ok, raised}
use backend_prod_ready.Security.CircuitBreaker.{
  Registry, is_open, log_circuit_open, log_circuit_success,
}

-- What a call raises: the exception of an open circuit, or any other.
pub data Failure : Type 0 where
  circuit_breaker_open other_exception : Failure

-- The state of a breaker and its use as a context: entering it lets the call in or raises
-- CircuitBreakerOpen; leaving it is told what the call raised, and passes that on.
pub record Breaker (B : Type 0) : Type 0 where
  pub enter : B → Bool × B
  pub leave : Option Failure → B → B

-- The warning, the information and the debug line of the registry.
pub data Event : Type 0 where
  circuit_opened circuit_closed failure_recorded : Event

pub record Observed (B : Type 0) : Type 0 where
  pub breaker : B
  pub registry : Registry
  -- the latest first
  pub log : List Event

-- The lines of a log on changes of the circuit's state.
abbrev pub changes : List Event → ℕ
changes [] = 0
changes (failure_recorded ∷ es) = changes es
changes (circuit_opened ∷ es) = changes es + 1
changes (circuit_closed ∷ es) = changes es + 1

log_circuit_success-shut :
    (name : Text) (r : Registry) → is_open name r ≡ false → log_circuit_success name r ≡ (false, r)
unfolding log_circuit_success
log_circuit_success-shut name r shut = simp shut refl

module _ {A : Type 0} where
  -- Whether a function raises CircuitBreakerOpen.
  abbrev pub opens_itself : Result Failure A → Bool
  opens_itself (raised circuit_breaker_open) = true
  opens_itself _ = false

module _ {B : Type 0} where
  abbrev log_if : Event → Bool × Registry → Observed B → Observed B
  log_if e (logged, r) s = record s { registry = r; log = if logged then e ∷ s.log else s.log }

  -- The registry and the changes logged are as before.
  abbrev Unobserved : Observed B → Observed B → Type 0
  Unobserved before after =
      (after.registry ≡ before.registry) × (changes after.log ≡ changes before.log)

  abbrev log_failure : Observed B → Observed B
  log_failure s = record s { log = failure_recorded ∷ s.log }

module _ {A B : Type 0} (breaker : Breaker B) (name : Text) where
  -- The `try`, inside the breaker, of a function that ends with a given result.
  unfoldable pub observe : Result Failure A → Observed B → Observed B
  unfolding log_circuit_success log_circuit_open
  observe (ok a) s = log_if circuit_closed (log_circuit_success name s.registry) s
  observe (raised circuit_breaker_open) s =
      log_if circuit_opened (log_circuit_open name s.registry) s
  observe (raised other_exception) s = log_failure s

  abbrev raised_by : Result Failure A → Option Failure
  raised_by (ok a) = none
  raised_by (raised e) = some e

  -- `_wrapper`, with what the function ends with if it is called
  unfoldable pub wrapper : Result Failure A → Observed B → Result Failure A × Observed B
  unfolding observe
  wrapper result s =
      let (admitted, inside) = breaker.enter s.breaker in
      if admitted
      then (let s' = observe result (record s { breaker = inside }) in
          (result, record s' { breaker = breaker.leave (raised_by result) s'.breaker }))
      else (raised circuit_breaker_open, record s { breaker = inside })

  -- The results of calls one after the other, and the state after them.
  unfoldable pub wrapped :
      List (Result Failure A) → Observed B → List (Result Failure A) × Observed B
  unfolding wrapper
  wrapped [] s = ([], s)
  wrapped (x ∷ xs) s =
      let (r, s') = wrapper x s in let (rs, after) = wrapped xs s' in (r ∷ rs, after)

  observe-Unobserved :
      (x : Result Failure A) (s : Observed B)
      → opens_itself x ≡ false
      → is_open name s.registry ≡ false
      → Unobserved s (observe x s)
  unfolding observe
  observe-Unobserved (ok a) s own shut =
      rw (log_circuit_success-shut name s.registry shut) (refl, refl)
  observe-Unobserved (raised circuit_breaker_open) s own shut = absurd (ground arith)
  observe-Unobserved (raised other_exception) s own shut = (refl, refl)

  wrapper-Unobserved :
      (x : Result Failure A) (s : Observed B)
      → opens_itself x ≡ false
      → is_open name s.registry ≡ false
      → Unobserved s (wrapper x s).1
  unfolding wrapper
  wrapper-Unobserved x s own shut =
      let inside = (breaker.enter s.breaker).1 in
      if_cases (λ (r : Result Failure A × Observed B). Unobserved s r.1) (breaker.enter s.breaker).0
        _ _ (λ h. observe-Unobserved x (record s { breaker = inside }) own shut) (λ h. (refl, refl))

  -- Whatever the breaker does, if the functions that it protects raise no CircuitBreakerOpen of their
  -- own and the circuit is not held to be open at first, no change of its state is logged and the
  -- registry stays as it is, also when the breaker refuses calls.
  pub open_never_logged :
      (xs : List (Result Failure A)) (s : Observed B)
      → any opens_itself xs ≡ false
      → is_open name s.registry ≡ false
      → let after = (wrapped xs s).1 in
        (after.registry ≡ s.registry) × (changes after.log ≡ changes s.log)
  unfolding wrapped
  open_never_logged [] s own shut = (refl, refl)
  open_never_logged (x ∷ xs) s own shut =
      let s' = (wrapper x s).1 in
      let (same, quiet) = wrapper-Unobserved x s (ground arith) shut in
      let (same', quiet') =
        open_never_logged xs s' (ground arith) (ap (is_open name) same ∙ shut) in
      (same' ∙ same, quiet' ∙ quiet)
