-- ===== src/Examples/LifespanRuns.antt =====
-- The theorems on the start and the end of the application at concrete inputs.
use backend_prod_ready.Prelude.{ℕ, Bool, [], none, refl, some, suc, zero, ◌++◌, ◌∷◌, ◌≡◌}
use backend_prod_ready.Exec.{Exec, raised}
use backend_prod_ready.App.Lifespan.{
  DatabaseError, Ends, Repeats, Tenacity, World, after_attempt, another_error, done, failed,
  initialize_database, invalid_password_error, infrastructure_shutdown, kit_shutdown, lifespan,
  serve, should_retry_db_error,
}
use backend_prod_ready.App.Lifespan.Attempts.{at, initialize_database_exact, try}
use backend_prod_ready.App.Lifespan.Cleanup.{lifespan_cleans_up}

-- tenacity, without the waits.
abbrev retry_call :
    ℕ
    → (DatabaseError → Bool)
    → Exec World DatabaseError (Unit {0})
    → Exec World DatabaseError (Unit {0})
retry_call zero should_retry call w = call w
retry_call (suc zero) should_retry call w = call w
retry_call (suc (suc n)) should_retry call w =
    after_attempt should_retry (retry_call (suc n) should_retry call) (call w)

abbrev tenacity : Tenacity
tenacity = record { retry = retry_call }

tenacity-Repeats : Repeats tenacity
tenacity-Repeats = record {
  last = λ should_retry call w. refl;
  again = λ n should_retry call w. refl;
}

-- The second attempt fails with an error that is not retried.
initialize_database_exact_example :
    initialize_database tenacity
      (at [] (some another_error ∷ some invalid_password_error ∷ none ∷ []))
    ≡ (raised invalid_password_error, at (try ∷ try ∷ []) (none ∷ []))
unfolding should_retry_db_error
initialize_database_exact_example =
    initialize_database_exact tenacity tenacity-Repeats (some another_error)
      (some invalid_password_error) none [] []

-- The kit fails to start, and to shut down.
abbrev failing_kit : Ends
failing_kit = record {
  cache = done;
  startup = failed;
  body = done;
  kit_end = failed;
  infrastructure_end = done;
}

lifespan_cleans_up_example :
    (lifespan tenacity failing_kit (at [] [])).0 ≡ (serve tenacity failing_kit (at [] [])).0
    × ((lifespan tenacity failing_kit (at [] [])).1.log
        ≡ (serve tenacity failing_kit (at [] [])).1.log
          ++ (kit_shutdown ∷ infrastructure_shutdown ∷ []))
lifespan_cleans_up_example = lifespan_cleans_up tenacity failing_kit (at [] []) (λ e. cc e)
