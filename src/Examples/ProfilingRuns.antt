-- ===== src/Examples/ProfilingRuns.antt =====
-- The theorem on profiling at a concrete input.
use backend_prod_ready.Prelude.{[], codes, false, some, true, ◌∷◌}
use backend_prod_ready.App.Profiling.{
  Ended, ProfilingSettings, Request, World, profiling_middleware, responded, saved_at,
}
use backend_prod_ready.App.Profiling.Decided.{IsTraceless, profiling_middleware-IsTraceless}

abbrev settings : ProfilingSettings
settings = record {
  profiling_enabled = true;
  require_profile_header = true;
  profile_header_token = codes "secret";
  profiled_endpoints = [];
}

abbrev asked : Request
asked = record {
  path = codes "/orders";
  profile_token = some (codes "secret");
  profile = some (codes "true");
}

abbrev answered : Ended
answered = responded ((codes "Server", codes "uvicorn") ∷ [])

abbrev unused : World
unused = record { started = 0; stopped = 0 }

profiling_middleware-IsTraceless_example : IsTraceless answered unused (
    profiling_middleware true
      (codes "12.5")
      settings
      asked
      false
      answered
      (saved_at (codes "p.html"))
      unused)
profiling_middleware-IsTraceless_example =
    profiling_middleware-IsTraceless (codes "12.5") settings asked false answered
      (saved_at (codes "p.html")) unused (λ e. cc e)
