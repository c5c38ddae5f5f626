-- ===== src/Examples/ConnectionRuns.antt =====
-- The theorems on the database connection at concrete inputs.
use backend_prod_ready.Prelude.{ℕ, List, [], none, refl, true, ◌∷◌, ◌≡◌}
use backend_prod_ready.Exec.{ok}
use backend_prod_ready.Database.Connection.{
  Adapter, Use, connected, create_session, disposed, disposing, getting, initializing, new,
  perform_all,
}
use backend_prod_ready.Database.Connection.Engines.{IsTidy}
use backend_prod_ready.Database.Connection.Uses.{engines-IsTidy}

abbrev uses : List Use
uses =
    initializing connected true
    ∷ getting Adapter.sync_engine connected
    ∷ disposing disposed
    ∷ getting Adapter.engine connected
    ∷ []

engines-IsTidy_example :
    let a = perform_all uses new in
    IsTidy a
    × (m : ℕ) × (n : ℕ) × ((create_session none connected a).0 ≡ ok m)
    × ((create_session none connected a).1.open_engines ≡ n ∷ m ∷ [])
engines-IsTidy_example = engines-IsTidy uses refl
