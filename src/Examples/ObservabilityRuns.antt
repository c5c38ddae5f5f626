-- ===== src/Examples/ObservabilityRuns.antt =====
-- The theorems on the metrics and the logs at concrete inputs.
use backend_prod_ready.Prelude.{ℕ, Bool, codes, leb, refl, ◌&&◌, ◌≡◌}
use backend_prod_ready.Observability.Paths.{normalize_path, matches}

abbrev ascii_digit : ℕ → Bool
ascii_digit c = leb b'0' c && leb c b'9'

uuid_test :
    normalize_path ascii_digit (codes "/u/550e8400-e29b-41d4-a716-446655440000/x")
    ≡ codes "/u/{id}/x"
unfolding normalize_path matches
uuid_test = refl
