-- ===== src/App/Lifespan/Attempts.antt =====
-- How often the start tries to reach the database.
use backend_prod_ready.Prelude.{
  Bool, List, Option, [], if◌then◌else◌, none, not, refl, some, suc, true, ℕ, ◌++◌, ◌∷◌, ◌≡◌,
  append_assoc, false,
}
use backend_prod_ready.Exec.{Result, ok, raised}
use backend_prod_ready.App.Lifespan.{
  DatabaseError, Event, Repeats, Tenacity, World, attempt, database_attempt, happen,
  initialize_database, should_retry_db_error,
}

-- An attempt that is the last: it succeeded, or its error is not retried.
abbrev pub stops : Option DatabaseError → Bool
stops none = true
stops (some e) = not (should_retry_db_error e)

abbrev pub as_result : Option DatabaseError → Result DatabaseError (Unit {0})
as_result none = ok tt
as_result (some e) = raised e

abbrev pub try : Event
try = database_attempt

abbrev pub at : List Event → List (Option DatabaseError) → World
at log database = record { log = log; database = database }

if-not {ℓ} : {A : Type ℓ} (b : Bool) (x y : A) → (if b then x else y) ≡ (if not b then y else x)
if-not true x y = refl
if-not false x y = refl

module _ (t : Tenacity) (r : Repeats t) where
  attempt_lem :
      (a : Option DatabaseError) (rest : List (Option DatabaseError)) (log : List Event)
      → attempt (at log (a ∷ rest)) ≡ (as_result a, at (log ++ (try ∷ [])) rest)
  unfolding attempt happen
  attempt_lem none rest log = refl
  attempt_lem (some e) rest log = refl

  next_lem :
      (n : ℕ) (a : Option DatabaseError) (rest : List (Option DatabaseError)) (log : List Event)
      → let after = at (log ++ (try ∷ [])) rest in
        t.retry (suc (suc n)) should_retry_db_error attempt (at log (a ∷ rest)) ≡ (
          if stops a
          then (as_result a, after)
          else t.retry (suc n) should_retry_db_error attempt after)
  next_lem n none rest log = rw (r.again n should_retry_db_error attempt, attempt_lem none rest log)
  next_lem n (some e) rest log =
      rw (r.again n should_retry_db_error attempt, attempt_lem (some e) rest log)
        (if-not (should_retry_db_error e) _ _)

  -- With ends for three attempts: the start makes attempts on the database up to the first that
  -- succeeds or fails with an error that is not retried, at most three, and ends like the last one made.
  pub initialize_database_exact :
      (a b c : Option DatabaseError) (rest : List (Option DatabaseError)) (log : List Event)
      → initialize_database t (at log (a ∷ b ∷ c ∷ rest)) ≡ (
          if stops a
          then (as_result a, at (log ++ (try ∷ [])) (b ∷ c ∷ rest))
          else if stops b
          then (as_result b, at (log ++ (try ∷ try ∷ [])) (c ∷ rest))
          else (as_result c, at (log ++ (try ∷ try ∷ try ∷ [])) rest))
  unfolding initialize_database
  initialize_database_exact a b c rest log = rw (
    next_lem 1 a (b ∷ c ∷ rest) log,
    next_lem 0 b (c ∷ rest) (log ++ (try ∷ [])),
    r.last should_retry_db_error attempt,
    attempt_lem c rest,
    append_assoc log (try ∷ []) (try ∷ []),
    append_assoc log (try ∷ try ∷ []) (try ∷ []),
  )
