-- ===== src/App/Lifespan/Cleanup.antt =====
-- What the end of the application closes.
use backend_prod_ready.Prelude.{[], ◌++◌, ◌∷◌, ◌≡◌, ◌≢◌, append_assoc, refl}
use backend_prod_ready.Exec.{ok, raised}
use backend_prod_ready.App.Lifespan.{
  Ends, Event, Tenacity, World, cancelled, happen, infrastructure_shutdown, kit_shutdown, lifespan,
  serve, was_cancelled, Failure, StepEnd, clean_up, done, failed, shut_down, step,
}

step-world :
    (event : Event) (failure : Failure) (e : StepEnd) (w : World)
    → (step event failure e w).1 ≡ happen event w
unfolding step
step-world event failure done w = refl
step-world event failure failed w = refl
step-world event failure was_cancelled w = refl

module _ (t : Tenacity) where
  clean_up_both :
      (ends : Ends) (e : StepEnd) (w : World)
      → e ≢ was_cancelled
      → clean_up t ends e w ≡ (ok tt, happen infrastructure_shutdown (happen kit_shutdown w))
  unfolding clean_up shut_down
  clean_up_both ends done w n = rw step-world
  clean_up_both ends failed w n = rw step-world
  clean_up_both ends was_cancelled w n = absurd (n refl)

  -- However the start, the body and the shutdowns end, but for a cancellation of the shutdown of the
  -- kit: the steps up to the end of the body are followed by the shutdown of the kit and that of the
  -- infrastructure, and what left the body or the start leaves the context.
  pub lifespan_cleans_up :
      (ends : Ends) (w : World)
      → ends.kit_end ≢ was_cancelled
      → (lifespan t ends w).0 ≡ (serve t ends w).0
        × ((lifespan t ends w).1.log
            ≡ (serve t ends w).1.log ++ (kit_shutdown ∷ infrastructure_shutdown ∷ []))
  unfolding lifespan happen
  lifespan_cleans_up ends w n =
      rw (clean_up_both ends ends.kit_end (serve t ends w).1 n) (
        refl,
        append_assoc (serve t ends w).1.log (kit_shutdown ∷ []) (infrastructure_shutdown ∷ []),
      )

  -- A cancellation of the shutdown of the kit leaves the infrastructure as it is: the connections to
  -- the database and the cache are not closed.
  pub cancelled_leaks :
      (ends : Ends) (w : World)
      → ends.kit_end ≡ was_cancelled
      → lifespan t ends w ≡ (raised cancelled, happen kit_shutdown (serve t ends w).1)
  unfolding lifespan
  cancelled_leaks ends w c = rw c
