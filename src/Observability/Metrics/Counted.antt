-- ===== src/Observability/Metrics/Counted.antt =====
-- What the metrics say of the requests.
use backend_prod_ready.Prelude.{
  Bool, Bool-cases, List, Option, Text, [], any, arith, codes, if◌then◌else◌, inl, inr, none, not,
  refl, some, suc, text_eq, text_eq_refl, true, zero, ℕ, ◌&&◌, ◌+◌, ◌-◌, ◌==◌, ◌∙◌, ◌∷◌, ◌≡◌, ◌≤◌,
  ap,
}
use backend_prod_ready.Observability.Paths.{normalize_path}
use backend_prod_ready.Observability.Metrics.{
  Counts, Event, Labels, Prometheus, Request, Server, arrives, begin, end_of, ends, enter, finish,
  happen, happen_all, is_skipped, labels_of, leave, metrics_middleware, put_back, response_of, same,
  status_of, take_at, Result,
}

-- The paths of the metrics themselves.
abbrev pub is_scrape : Text → Bool
is_scrape path = any (text_eq path) (codes "/metrics" ∷ codes "/api/v1/system/metrics" ∷ [])

-- Whether a request ended with this status, which is 500 after an exception.
abbrev pub ended_with : ℕ → Option ℕ → Bool
ended_with code none = 500 == code
ended_with code (some status) = status == code

module _ (is_digit : ℕ → Bool) where
  -- Whether a request counts for these labels: its method and its path are theirs, and it is not one
  -- for the metrics.
  abbrev pub tally : Labels → Request → ℕ
  tally j request =
      let path = normalize_path is_digit request.path in
      if not (is_scrape path) && (text_eq request.method j.method && text_eq path j.path)
      then 1
      else 0

  -- How many requests that run count for these labels.
  unfoldable pub count_running : Labels → List Request → ℕ
  count_running j [] = 0
  count_running j (request ∷ requests) = tally j request + count_running j requests

  -- How many that have ended count for them, with this status.
  unfoldable pub count_ended : Labels → ℕ → List (Request × Option ℕ) → ℕ
  count_ended j code [] = 0
  count_ended j code ((request, response) ∷ more) =
      (if ended_with code response then tally j request else 0) + count_ended j code more

  take_at-count :
      (n : ℕ) (j : Labels) (r : Request) (rs others : List Request)
      → take_at n rs ≡ some (r, others)
      → count_running j rs ≡ tally j r + count_running j others
  unfolding take_at count_running
  take_at-count n j r [] others e = absurd (cc e)
  take_at-count zero j r (x ∷ rs) others e = ground (arith, e)
  take_at-count (suc n) j r (x ∷ rs) others e =
      after (take_at n rs) e (λ ys t. take_at-count n j r rs ys t)
    where
      after :
          (o : Option (Request × List Request))
          → put_back x o ≡ some (r, others)
          → ((ys : List Request)
              → o ≡ some (r, ys)
              → count_running j rs ≡ tally j r + count_running j ys)
          → count_running j (x ∷ rs) ≡ tally j r + count_running j others
      after none e rest = absurd (cc e)
      after (some (y, ys)) e rest =
          let head : y ≡ r = cc e in
          let others_eq : x ∷ ys ≡ others = cc e in
          let found : count_running j rs ≡ tally j r + count_running j ys =
            rest ys (ap (λ (z : Request). some (z, ys)) head) in
          let counted : count_running j (x ∷ ys) ≡ count_running j others =
            ap (count_running j) others_eq in
          omega (arith, found, counted)

skipped_lem : (path : Text) → is_skipped path ≡ is_scrape path
unfolding is_skipped
skipped_lem path = ground arith

module _ (P : Prometheus) (counts : Counts P) (is_digit : ℕ → Bool) where
  -- The gauge is the number of requests that run, the counter that of those that have ended.
  pub record IsCounted (w : Server P is_digit) : Type 0 where
    pub gauge : (j : Labels) → P.in_progress j w.metrics ≡ count_running is_digit j w.running
    pub counter :
        (j : Labels) (code : ℕ) → P.total j code w.metrics ≡ count_ended is_digit j code w.ended

  -- What a request counts, by its labels.
  tally_lem :
      (j : Labels) (r : Request)
      → tally is_digit j r ≡ (
          if is_skipped (labels_of P is_digit r).path
          then 0
          else if same (labels_of P is_digit r) j
          then 1
          else 0)
  unfolding labels_of
  tally_lem j r = ground (arith, skipped_lem (normalize_path is_digit r.path))

  same_refl : (l : Labels) → same l l ≡ true
  same_refl l = ground (arith, text_eq_refl l.method, text_eq_refl l.path)

  begin-in_progress :
      (j : Labels) (r : Request) (s : P.State)
      → P.in_progress j (begin P is_digit r s) ≡ tally is_digit j r + P.in_progress j s
  unfolding begin enter
  begin-in_progress j r s =
      ground (arith, tally_lem j r, counts.in_progress_inc (labels_of P is_digit r) j s)

  begin-total :
      (j : Labels) (code : ℕ) (r : Request) (s : P.State)
      → P.total j code (begin P is_digit r s) ≡ P.total j code s
  unfolding begin enter
  begin-total j code r s =
      ground (arith, counts.total_in_progress (labels_of P is_digit r) j code s)

  finish-in_progress :
      (j : Labels) (r : Request) (response : Option ℕ) (s : P.State)
      → tally is_digit (labels_of P is_digit r) r ≤ P.in_progress (labels_of P is_digit r) s
      → P.in_progress j (finish P is_digit r response s) ≡ P.in_progress j s - tally is_digit j r
  unfolding finish leave
  finish-in_progress j r response s runs =
      let l = labels_of P is_digit r in
      let s1 = P.observe_duration l s in
      let s2 = P.inc_total l (status_of response) s1 in
      let before : (i : Labels) → P.in_progress i s2 ≡ P.in_progress i s = λ i. ground (
        arith,
        counts.in_progress_total l i (status_of response) s1,
        counts.in_progress_observe l i s,
      ) in
      ground (
        arith,
        tally_lem j r,
        tally_lem l r,
        same_refl l,
        before j,
        before l,
        counts.in_progress_dec l j s2,
      )

  finish-total :
      (j : Labels) (code : ℕ) (r : Request) (response : Option ℕ) (s : P.State)
      → P.total j code (finish P is_digit r response s)
        ≡ (if ended_with code response then tally is_digit j r else 0) + P.total j code s
  unfolding finish leave
  finish-total j code r response s =
      let l = labels_of P is_digit r in
      let s1 = P.observe_duration l s in
      let s2 = P.inc_total l (status_of response) s1 in
      ground (
        arith,
        tally_lem j r,
        counts.total_in_progress l j code s2,
        counts.total_inc l j (status_of response) code s1,
        counts.total_observe l j code s,
      )

  ends-IsCounted :
      (n : ℕ) (response : Option ℕ) (w : Server P is_digit) (r : Request) (others : List Request)
      → take_at n w.running ≡ some (r, others)
      → IsCounted w
      → IsCounted (end_of P is_digit response (some (r, others)) w)
  unfolding end_of count_ended
  ends-IsCounted n response w r others e k =
      let l = labels_of P is_digit r in
      let ran : (j : Labels)
          → P.in_progress j w.metrics ≡ tally is_digit j r + count_running is_digit j others =
        λ j. k.gauge j ∙ take_at-count is_digit n j r w.running others e in
      let runs : tally is_digit l r ≤ P.in_progress l w.metrics = omega (arith, ran l) in
      record {
        gauge = λ j. omega (arith, finish-in_progress j r response w.metrics runs, ran j);
        counter =
            λ j code. omega (arith, finish-total j code r response w.metrics, k.counter j code);
      }

  end_of-IsCounted :
      (response : Option ℕ) (w : Server P is_digit) (o : Option (Request × List Request))
      → ((r : Request) (others : List Request)
          → o ≡ some (r, others)
          → IsCounted (end_of P is_digit response (some (r, others)) w))
      → IsCounted w
      → IsCounted (end_of P is_digit response o w)
  unfolding end_of
  end_of-IsCounted response w none each k = k
  end_of-IsCounted response w (some (r, others)) each k = each r others refl

  happen-IsCounted :
      (e : Event) (w : Server P is_digit) → IsCounted w → IsCounted (happen P is_digit e w)
  unfolding happen count_running
  happen-IsCounted (arrives r) w k = record {
    gauge = λ j. omega (arith, begin-in_progress j r w.metrics, k.gauge j);
    counter = λ j code. begin-total j code r w.metrics ∙ k.counter j code;
  }
  happen-IsCounted (ends n response) w k =
      end_of-IsCounted response w (take_at n w.running)
        (λ r others e. ends-IsCounted n response w r others e k) k

  -- Metrics that are right stay right, however requests arrive and end, at once or one after the other,
  -- with a response or an exception: the gauge of each label is the number of requests that run with
  -- it, and its counter of a status that of those that have ended with it, one that raised
  -- counting with 500. Requests for the metrics themselves count for no label.
  pub happen_all-IsCounted :
      (es : List Event) (w : Server P is_digit)
      → IsCounted w
      → IsCounted (happen_all P is_digit es w)
  unfolding happen_all
  happen_all-IsCounted [] w k = k
  happen_all-IsCounted (e ∷ es) w k =
      happen_all-IsCounted es (happen P is_digit e w) (happen-IsCounted e w k)

  -- Without other requests in between, the middleware is an arrival and an end.
  middleware_lem :
      {E : Type 0} (call_next : Request → P.State → Result E ℕ × P.State) (request : Request)
      (s : P.State)
      → (metrics_middleware P is_digit call_next request s).1 ≡ (
          if is_skipped (labels_of P is_digit request).path
          then (call_next request s).1
          else finish P is_digit request
              (response_of P is_digit (call_next request (begin P is_digit request s)).0)
              (call_next request (begin P is_digit request s)).1)
  unfolding metrics_middleware begin finish
  middleware_lem call_next request s =
      elim (Bool-cases (is_skipped (labels_of P is_digit request).path)) [
        | inl skipped ↦ rw skipped refl
        | inr counted ↦ rw counted refl
      ]
