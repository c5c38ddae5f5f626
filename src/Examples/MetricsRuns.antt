-- ===== src/Examples/MetricsRuns.antt =====
-- The theorem on the metrics at a concrete input.
use backend_prod_ready.Prelude.{
  Bool, List, [], codes, if◌then◌else◌, leb, none, refl, suc, ℕ, ◌&&◌, ◌-◌, ◌==◌, ◌∷◌,
}
use backend_prod_ready.Observability.Metrics.{
  Counts, Event, Labels, Prometheus, Server, arrives, ends, happen_all, same,
}
use backend_prod_ready.Observability.Metrics.Counted.{
  IsCounted, count_ended, count_running, happen_all-IsCounted,
}

-- A client whose state is what it reads.
abbrev tables : Prometheus
tables = record {
  State = (Labels → ℕ) × (Labels → ℕ → ℕ);
  inc_in_progress = λ l s. (λ j. (if same l j then suc (s.0 j) else s.0 j), s.1);
  dec_in_progress = λ l s. (λ j. (if same l j then s.0 j - 1 else s.0 j), s.1);
  in_progress = λ l s. s.0 l;
  observe_duration = λ l s. s;
  inc_total = λ l code s.
      (s.0, λ j code'. (if same l j && (code == code') then suc (s.1 j code') else s.1 j code'));
  total = λ l code s. s.1 l code;
}

tables-Counts : Counts tables
tables-Counts = record {
  in_progress_inc = λ l j s. refl;
  in_progress_dec = λ l j s h. refl;
  in_progress_observe = λ l j s. refl;
  in_progress_total = λ l j code s. refl;
  total_inc = λ l j code code' s. refl;
  total_in_progress = λ l j code s. (refl, refl);
  total_observe = λ l j code s. refl;
}

abbrev ascii_digit : ℕ → Bool
ascii_digit c = leb b'0' c && leb c b'9'

abbrev idle : Server tables ascii_digit
idle = record { running = []; ended = []; metrics = (λ j. 0, λ j code. 0) }

abbrev day : List Event
day =
    arrives (record { method = codes "GET"; path = codes "/users/7" })
    ∷ arrives (record { method = codes "GET"; path = codes "/users/8" })
    ∷ arrives (record { method = codes "GET"; path = codes "/metrics" })
    ∷ ends 1 none
    ∷ []

happen_all-IsCounted_example :
    IsCounted tables tables-Counts ascii_digit (happen_all tables ascii_digit day idle)
unfolding count_running count_ended
happen_all-IsCounted_example =
    happen_all-IsCounted tables tables-Counts ascii_digit day idle
      (record { gauge = λ j. refl; counter = λ j code. refl })
