-- ===== src/Idempotency/Interleaved/Exclusion.antt =====
-- At most one of the interleaved checks of a request is new.
use backend_prod_ready.Prelude.{
  Bool, Bool-cases, List, Option, Text, [], ap, arith, codes, false, inl, inr, is_none, not, refl,
  suc, text_eq, text_eq_refl, true, zero, ℕ, ◌+◌, ◌∷◌, ◌≡◌, ◌≤◌, ◌⊎◌,
}
use backend_prod_ready.Cache.Store.{CacheStore, IsFaithful}
use backend_prod_ready.Idempotency.{Codec, build_in_progress_key, build_key, in_progress_ttl}
use backend_prod_ready.Idempotency.Keys.{HasHexDigest}
use backend_prod_ready.Idempotency.NonAtomic.{acquire_marker-Ok}
use backend_prod_ready.Idempotency.Traces.{Request, marker_eq, marker_of}
use backend_prod_ready.Idempotency.Interleaved.{
  Progress, Worker, acquiring, advance, answered, failed, news, reading, run_schedule, start,
  step_at, weight, news-start,
}

module _ (codec : Codec) (hex : HasHexDigest codec) (c : CacheStore)
    {view : c.State → Text → Option Text} {Ok : c.State → Type 0} (f : IsFaithful c view Ok) where
  -- Something is seen under the key of the marker.
  abbrev seen : Text → c.State → Bool
  seen full s = not (is_none (view s (marker_of codec hex c f full)))

  -- A count stays, or it grows by one with the marker that was not seen before and is seen after.
  abbrev Grows : Text → c.State → c.State → ℕ → ℕ → Type 0
  Grows full s s' n n' = (n' ≡ n) ⊎ ((n' ≡ suc n) × (seen full s ≡ false) × (seen full s' ≡ true))

  -- What a step keeps.
  abbrev Keeps : Text → c.State → c.State → Type 0
  Keeps full s s' = Ok s' × (seen full s ≡ true → seen full s' ≡ true)

  read-Keeps : (full key : Text) (s : c.State) → Ok s → Keeps full s (c.get key s).1
  read-Keeps full key s h =
      (f.get_ok key s h, λ m. ground (arith, f.view_get key (marker_of codec hex c f full) s h))

  advance-Keeps :
      (full : Text) (q : Request) (p : Progress codec c) (s : c.State)
      → Ok s
      → Keeps full s (advance codec c q p s).1
  unfolding advance
  advance-Keeps full q reading s h = read-Keeps full (build_key codec q.key q.namespace) s h
  advance-Keeps full q acquiring s h =
      let marker = build_in_progress_key codec q.key q.namespace in
      (
        acquire_marker-Ok codec hex c f marker s h,
        λ m. ground (
          arith,
          f.setnx_view marker (codes "1") in_progress_ttl s (omega arith) h,
          f.view_setnx marker (codes "1") in_progress_ttl s (marker_of codec hex c f full)
              (omega arith) h,
        ),
      )
  advance-Keeps full q (answered result) s h = (h, λ m. m)
  advance-Keeps full q (failed e) s h = (h, λ m. m)

  advance-Grows :
      (full : Text) (q : Request) (p : Progress codec c) (s : c.State)
      → Ok s
      → Grows full s
          (advance codec c q p s).1
          (weight codec c full (record { request = q; progress = p }))
          (weight codec c full (record { request = q; progress = (advance codec c q p s).0 }))
  unfolding advance
  advance-Grows full q reading s h =
      inl (ground (arith, f.get_view (build_key codec q.key q.namespace) s h))
  advance-Grows full q acquiring s h =
      let marker = build_in_progress_key codec q.key q.namespace in
      let m = marker_of codec hex c f full in
      elim (Bool-cases (text_eq (build_key codec q.key q.namespace) full)) [
        | inr other ↦ inl (ground (arith, other))
        | inl same ↦
            let e : marker ≡ m = marker_eq codec hex c f q.key q.namespace full same in
            elim (Bool-cases (is_none (view s m))) [
              | inr there ↦ inl (
                  ground (
                    arith,
                    e,
                    there,
                    f.setnx_view marker (codes "1") in_progress_ttl s (omega arith) h,
                  ))
              | inl free ↦ inr (
                ground (
                  arith,
                  e,
                  same,
                  free,
                  f.setnx_view marker (codes "1") in_progress_ttl s (omega arith) h,
                ),
                ground (arith, free),
                ground (
                  arith,
                  e,
                  free,
                  text_eq_refl m,
                  f.setnx_view marker (codes "1") in_progress_ttl s (omega arith) h,
                  f.view_setnx marker (codes "1") in_progress_ttl s m (omega arith) h,
                ),
              )
            ]
      ]
  advance-Grows full q (answered result) s h = inl refl
  advance-Grows full q (failed e) s h = inl refl

  step_at-Keeps :
      (full : Text) (n : ℕ) (ws : List (Worker codec c)) (s : c.State)
      → Ok s
      → Keeps full s (step_at codec c n ws s).1
  unfolding step_at
  step_at-Keeps full n [] s h = (h, λ m. m)
  step_at-Keeps full zero (w ∷ ws) s h = advance-Keeps full w.request w.progress s h
  step_at-Keeps full (suc n) (w ∷ ws) s h = step_at-Keeps full n ws s h

  grow_right :
      (full : Text) (s s' : c.State) (a n n' : ℕ)
      → Grows full s s' n n'
      → Grows full s s' (a + n) (a + n')
  grow_right full s s' a n n' (inl e) = inl (ap (λ (n : ℕ). a + n) e)
  grow_right full s s' a n n' (inr (e, free, taken)) = inr (omega (arith, e), free, taken)

  grow_left :
      (full : Text) (s s' : c.State) (a n n' : ℕ)
      → Grows full s s' n n'
      → Grows full s s' (n + a) (n' + a)
  grow_left full s s' a n n' (inl e) = inl (ap (λ (n : ℕ). n + a) e)
  grow_left full s s' a n n' (inr (e, free, taken)) = inr (omega (arith, e), free, taken)

  step_at-Grows :
      (full : Text) (n : ℕ) (ws : List (Worker codec c)) (s : c.State)
      → Ok s
      → Grows full s
          (step_at codec c n ws s).1
          (news codec c full ws)
          (news codec c full (step_at codec c n ws s).0)
  unfolding step_at news
  step_at-Grows full n [] s h = inl refl
  step_at-Grows full zero (w ∷ ws) s h =
      grow_left full s _ (news codec c full ws) _ _ (advance-Grows full w.request w.progress s h)
  step_at-Grows full (suc n) (w ∷ ws) s h =
      grow_right full s _ (weight codec c full w) _ _ (step_at-Grows full n ws s h)

  -- No check of the key is new, or one is and its marker is seen.
  abbrev IsGuarded : Text → List (Worker codec c) → c.State → Type 0
  IsGuarded full ws s =
      (news codec c full ws ≡ 0) ⊎ ((news codec c full ws ≡ 1) × (seen full s ≡ true))

  step_at-IsGuarded :
      (full : Text) (ws ws' : List (Worker codec c)) (s s' : c.State)
      → Keeps full s s'
      → Grows full s s' (news codec c full ws) (news codec c full ws')
      → IsGuarded full ws s
      → IsGuarded full ws' s'
  step_at-IsGuarded full ws ws' s s' k (inl e) (inl z) = inl (omega (arith, e, z))
  step_at-IsGuarded full ws ws' s s' k (inl e) (inr (o, m)) = inr (omega (arith, e, o), k.1 m)
  step_at-IsGuarded full ws ws' s s' k (inr (e, _, taken)) (inl z) =
      inr (omega (arith, e, z), taken)
  step_at-IsGuarded full ws ws' s s' k (inr (_, free, _)) (inr (_, m)) = absurd (cc (free, m))

  run_schedule-le-one :
      (full : Text) (schedule : List ℕ) (ws : List (Worker codec c)) (s : c.State)
      → Ok s
      → IsGuarded full ws s
      → news codec c full (run_schedule codec c schedule ws s).0 ≤ 1
  unfolding run_schedule
  run_schedule-le-one full [] ws s h (inl z) = omega (arith, z)
  run_schedule-le-one full [] ws s h (inr (o, _)) = omega (arith, o)
  run_schedule-le-one full (n ∷ schedule) ws s h g =
      let (ws', s') = step_at codec c n ws s in
      let k = step_at-Keeps full n ws s h in
      run_schedule-le-one full schedule (step_at codec c n ws s).0 (step_at codec c n ws s).1 k.0 (
        step_at-IsGuarded full ws (step_at codec c n ws s).0 s (step_at codec c n ws s).1 k
          (step_at-Grows full n ws s h) g)

  -- However the steps of checks that are not atomic interleave, over a cache that keeps its promises
  -- and while nothing is stored or cleared: at most one of the checks with the same cache key is answered with
  -- NEW.
  pub interleaved-le-one :
      (full : Text) (qs : List Request) (schedule : List ℕ) (s : c.State)
      → Ok s
      → news codec c full (run_schedule codec c schedule (start codec c qs) s).0 ≤ 1
  interleaved-le-one full qs schedule s h =
      run_schedule-le-one full schedule (start codec c qs) s h (inl (news-start codec c full qs))
