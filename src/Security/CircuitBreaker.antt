-- ===== src/Security/CircuitBreaker.antt =====
-- `CircuitBreakerRegistry` of backend/core/security/circuit_breaker.py. The factory is the package
-- purgatory's and known by its arguments; the random draw is an argument, a fraction, and the rounding
-- of floats is left out, so are metrics. The lock makes each method one step.
pub mod Observable
use backend_prod_ready.Prelude.{
  Bool, List, Option, Text, [], arith, codes, false, if◌then◌else◌, none, not, some, text_eq, true,
  ℕ, ◌*◌, ◌+◌, ◌/◌, ◌∷◌, ◌≡◌, Bool-cases, ap, inl, inr, refl, ◌<◌, ◌≤◌, leb, leb→le,
}
use native.Mathlib.Nat.{div-mul-le_self, mul-le-mul_left, mul-le-mul_right}
use backend_prod_ready.Dict.{Dict, find, put}

pub data CircuitBreakerType : Type 0 where
  database redis external_api : CircuitBreakerType

-- FAILURE_THRESHOLD and RESET_TIMEOUT of the settings of a type
pub record Config : Type 0 where
  pub failure_threshold : ℕ
  pub reset_timeout : ℕ

-- `random.uniform(0, CIRCUIT_BREAKER_JITTER_FACTOR)`, as numerator and denominator
pub record Draw : Type 0 where
  pub numerator : ℕ
  pub denominator : ℕ

pub record Factory : Type 0 where
  pub default_threshold : ℕ
  pub default_ttl : ℕ

pub record Registry : Type 0 where
  pub factories : CircuitBreakerType → Option Factory
  pub states : Dict Text

-- `__init__`
abbrev pub empty : Registry
empty = record { factories = λ _. none; states = [] }

-- `_apply_jitter`: int(base + draw * base)
unfoldable pub apply_jitter : ℕ → Draw → ℕ
apply_jitter base draw = base + base * draw.numerator / draw.denominator

fifth_le : (base n d : ℕ) → 5 * n ≤ d → 0 < d → 5 * (base * n / d) ≤ base
fifth_le base n d small positive = elim (Bool-cases (leb (5 * (base * n / d)) base)) [
  | inl le ↦ leb→le (5 * (base * n / d)) base le
  | inr gt ↦
      let q = base * n / d in
      let more : base + 1 ≤ 5 * q = ground arith in
      absurd (
        omega (
          arith,
          div-mul-le_self (base * n) d,
          mul-le-mul_left base small,
          mul-le-mul_right d more,
          positive,
        ))
]

-- With a draw of at most one fifth, the jitter factor, the lifetime is at least the base and at most a
-- fifth longer.
pub apply_jitter_bounds :
    (base : ℕ) (draw : Draw)
    → 5 * draw.numerator ≤ draw.denominator
    → 0 < draw.denominator
    → (base ≤ apply_jitter base draw) × (5 * apply_jitter base draw ≤ 6 * base)
unfolding apply_jitter
apply_jitter_bounds base draw small d =
    (omega arith, omega (arith, fifth_le base draw.numerator draw.denominator small d))

abbrev pub same_type : CircuitBreakerType → CircuitBreakerType → Bool
same_type database database = true
same_type redis redis = true
same_type external_api external_api = true
same_type _ _ = false

same_type_refl : (t : CircuitBreakerType) → same_type t t ≡ true
same_type_refl database = refl
same_type_refl redis = refl
same_type_refl external_api = refl

same_type_eq : (t u : CircuitBreakerType) → same_type t u ≡ true → t ≡ u
same_type_eq t u h = ground arith

-- `self._factories[cb_type] = factory`
unfoldable pub add_factory : CircuitBreakerType → Factory → Registry → Registry
add_factory t factory r = record r {
  factories = λ u. if same_type t u then some factory else r.factories u;
}

module _ (config : CircuitBreakerType → Config) where
  -- The factory that `get_factory` makes from `_get_config`.
  unfoldable pub make_factory : CircuitBreakerType → Draw → Factory
  unfolding apply_jitter
  make_factory t draw = record {
    default_threshold = (config t).failure_threshold;
    default_ttl = apply_jitter (config t).reset_timeout draw;
  }

  -- `get_factory`
  unfoldable pub get_factory : CircuitBreakerType → Draw → Registry → Factory × Registry
  unfolding add_factory make_factory
  get_factory t draw r = elim (r.factories t) [
    | some factory ↦ (factory, r)
    | none ↦ (make_factory t draw, add_factory t (make_factory t draw) r)
  ]

-- `self._states.get(name, "closed") == "open"`
abbrev pub is_open : Text → Registry → Bool
is_open name r = elim (find name r.states) [ none ↦ false | some s ↦ text_eq s (codes "open") ]

-- `log_circuit_open`, with whether the warning is logged
unfoldable pub log_circuit_open : Text → Registry → Bool × Registry
log_circuit_open name r =
    (not (is_open name r), record r { states = put name (codes "open") r.states })

-- `log_circuit_success`, with whether the recovery is logged
unfoldable pub log_circuit_success : Text → Registry → Bool × Registry
log_circuit_success name r =
    if is_open name r
    then (true, record r { states = put name (codes "closed") r.states })
    else (false, r)

module _ (config : CircuitBreakerType → Config) where
  -- A use of the registry, but for `reset`, which is there for tests.
  pub data Use : Type 0 where
    factory_use : CircuitBreakerType → Draw → Use
    opened success : Text → Use

  unfoldable pub step : Registry → Use → Registry
  step r (factory_use t draw) = (get_factory config t draw r).1
  step r (opened name) = (log_circuit_open name r).1
  step r (success name) = (log_circuit_success name r).1

  unfoldable pub steps : Registry → List Use → Registry
  steps r [] = r
  steps r (u ∷ us) = steps (step r u) us

  add_other :
      (t v : CircuitBreakerType) (factory made : Factory) (r : Registry)
      → r.factories t ≡ some factory
      → (x : Option Factory) → r.factories v ≡ x
      → (elim x as (λ _. Factory × Registry) [
        | some g ↦ (g, r)
        | none ↦ (made, add_factory v made r)
      ]).1.factories
          t
        ≡ some factory
  unfolding add_factory
  add_other t v factory made r h (some g) e = h
  add_other t v factory made r h none e = elim (Bool-cases (same_type v t)) [
    | inl same ↦ absurd (cc (h, e, ap r.factories (same_type_eq v t same)))
    | inr other ↦ rw (other, h)
  ]

  step-factories :
      (t : CircuitBreakerType) (factory : Factory) (r : Registry) (u : Use)
      → r.factories t ≡ some factory
      → (step r u).factories t ≡ some factory
  unfolding step get_factory log_circuit_open log_circuit_success
  step-factories t factory r (factory_use v draw) h =
      add_other t v factory (make_factory config v draw) r h (r.factories v) refl
  step-factories t factory r (opened name) h = h
  step-factories t factory r (success name) h = ground arith

  steps-factories :
      (t : CircuitBreakerType) (factory : Factory) (r : Registry) (us : List Use)
      → r.factories t ≡ some factory
      → (steps r us).factories t ≡ some factory
  unfolding steps
  steps-factories t factory r [] h = h
  steps-factories t factory r (u ∷ us) h =
      steps-factories t factory (step r u) us (step-factories t factory r u h)

  get_factory-known :
      (t : CircuitBreakerType) (draw : Draw) (r : Registry) (factory : Factory)
      → r.factories t ≡ some factory
      → (get_factory config t draw r).0 ≡ factory
  unfolding get_factory
  get_factory-known t draw r factory h = ground arith

  get_factory-stored :
      (t : CircuitBreakerType) (draw : Draw) (r : Registry)
      → (get_factory config t draw r).1.factories t ≡ some (get_factory config t draw r).0
  unfolding get_factory add_factory
  get_factory-stored t draw r = ground (arith, same_type_refl t)

  -- Whatever uses of the registry lie between and whatever is drawn, a type keeps the factory that it
  -- was first given, with the lifetime drawn for it then.
  pub get_factory_stable :
      (t : CircuitBreakerType) (draw later : Draw) (r : Registry) (us : List Use)
      → (get_factory config t later (steps (get_factory config t draw r).1 us)).0
        ≡ (get_factory config t draw r).0
  get_factory_stable t draw later r us =
      let first = get_factory config t draw r in
      get_factory-known t later (steps first.1 us) first.0
        (steps-factories t first.0 first.1 us (get_factory-stored t draw r))
