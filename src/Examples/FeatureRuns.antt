-- ===== src/Examples/FeatureRuns.antt =====
-- The theorems on the features and the timeouts at concrete inputs.
use backend_prod_ready.Prelude.{codes, refl, some, ℕ, ◌≡◌, List, Option, [], ltb, none, ◌+◌, ◌∷◌}
use backend_prod_ready.Exec.{Result, ok, raised}
use backend_prod_ready.Security.CircuitBreaker.{empty}
use backend_prod_ready.Security.CircuitBreaker.Observable.{
  Breaker, Failure, Observed, changes, circuit_breaker_open, open_never_logged, other_exception,
  wrapped,
}
use backend_prod_ready.Dict.{find}

-- A breaker that refuses calls after two failures in a row.
abbrev strict : Breaker ℕ
strict = record { enter = λ n. (ltb n 2, n); leave = count_failures }
  where
    count_failures : Option Failure → ℕ → ℕ
    count_failures none n = 0
    count_failures (some _) n = n + 1

abbrev outcomes : List (Result Failure ℕ)
outcomes =
    raised other_exception ∷ ok 7 ∷ raised other_exception ∷ raised other_exception ∷ ok 8 ∷ []

abbrev unused : Observed ℕ
unused = record { breaker = 0; registry = empty; log = [] }

-- The last call is refused.
refused_test :
    (wrapped strict (codes "db") outcomes unused).0
    ≡ raised other_exception
      ∷ ok 7
      ∷ raised other_exception
      ∷ raised other_exception
      ∷ raised circuit_breaker_open
      ∷ []
unfolding wrapped
refused_test = refl

open_never_logged_example :
    let after = (wrapped strict (codes "db") outcomes unused).1 in
    (after.registry ≡ empty) × (changes after.log ≡ 0)
unfolding find
open_never_logged_example = open_never_logged strict (codes "db") outcomes unused refl refl
