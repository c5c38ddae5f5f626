-- ===== src/Idempotency/Interleaved.antt =====
-- `_check_non_atomic` of backend/core/infrastructure/idempotency/service.py between its awaits: other
-- workers run between the read of the completed key and the attempt to set the marker.
pub mod Exclusion
pub mod Race
use backend_prod_ready.Prelude.{
  Bool, List, Option, Text, [], arith, false, if◌then◌else◌, map, none, refl, some, suc, text_eq,
  true, zero, ℕ, ◌&&◌, ◌+◌, ◌∷◌, ◌≡◌, Bool-cases, ap, codes, inl, inr, is_none, not, text_eq_refl,
  ◌≤◌, ◌⊎◌, ◌∙◌,
}
use backend_prod_ready.Exec.{Result, ok, raised}
use backend_prod_ready.Cache.Store.{CacheStore, IsFaithful}
use backend_prod_ready.Idempotency.{
  Codec, IdempotencyError, IdempotencyResult, acquire_marker, answer, build_in_progress_key,
  build_key, check_non_atomic, decode, duplicate, new, on_cache, on_decoded, in_progress_ttl, store,
  ttl_or_default,
}
use backend_prod_ready.Idempotency.Keys.{HasHexDigest}
use backend_prod_ready.Idempotency.NonAtomic.{acquire_marker-Ok, completed}
use backend_prod_ready.Idempotency.Traces.{Request, marker_eq, marker_of}
use backend_prod_ready.Idempotency.Completion.{clear_eq, store-view, store_eq}

module _ (codec : Codec) (c : CacheStore) where
  open codec use {Json}

  -- Where a check stands: before its read, before its attempt to set the marker, or at its end.
  pub data Progress : Type 0 where
    reading acquiring : Progress
    answered : IdempotencyResult codec → Progress
    failed : IdempotencyError → Progress

  abbrev pub after_decode : Option Json → Progress
  after_decode (some response) = answered (answer codec duplicate (some response))
  after_decode none = acquiring

  abbrev pub after_read : Result IdempotencyError (Option Text) → Progress
  after_read (ok cached) = after_decode (decode codec c cached)
  after_read (raised e) = failed e

  abbrev pub after_all : Result IdempotencyError (IdempotencyResult codec) → Progress
  after_all (ok result) = answered result
  after_all (raised e) = failed e

  -- One step of a check, up to its next await.
  unfoldable pub advance : Request → Progress → c.State → Progress × c.State
  unfolding acquire_marker
  advance q reading s =
      let (r, s') = on_cache codec c (c.get (build_key codec q.key q.namespace)) s in
      (after_read r, s')
  advance q acquiring s =
      let (r, s') = acquire_marker codec c (build_in_progress_key codec q.key q.namespace) s in
      (after_all r, s')
  advance q (answered result) s = (answered result, s)
  advance q (failed e) s = (failed e, s)

  -- A check by a worker.
  pub record Worker : Type 0 where
    pub request : Request
    pub progress : Progress

  -- The n-th worker does a step.
  unfoldable pub step_at : ℕ → List Worker → c.State → List Worker × c.State
  unfolding advance
  step_at n [] s = ([], s)
  step_at zero (w ∷ ws) s =
      let (p, s') = advance w.request w.progress s in (record w { progress = p } ∷ ws, s')
  step_at (suc n) (w ∷ ws) s = let (ws', s') = step_at n ws s in (w ∷ ws', s')

  -- The workers do steps in the order of a schedule.
  unfoldable pub run_schedule : List ℕ → List Worker → c.State → List Worker × c.State
  unfolding step_at
  run_schedule [] ws s = (ws, s)
  run_schedule (n ∷ schedule) ws s = let (ws', s') = step_at n ws s in run_schedule schedule ws' s'

  abbrev pub start : List Request → List Worker
  start = map (λ q. record { request = q; progress = reading })

  abbrev answered_new : Progress → Bool
  answered_new (answered result) = elim result.status [ new ↦ true | _ ↦ false ]
  answered_new _ = false

  abbrev pub weight : Text → Worker → ℕ
  weight full w =
      if text_eq (build_key codec w.request.key w.request.namespace) full && answered_new w.progress
      then 1
      else 0

  -- How many of the checks of a cache key are answered with NEW.
  unfoldable pub news : Text → List Worker → ℕ
  news full [] = 0
  news full (w ∷ ws) = weight full w + news full ws

  news-start : (full : Text) (qs : List Request) → news full (start qs) ≡ 0
  unfolding news
  news-start full [] = refl
  news-start full (q ∷ qs) = ground (arith, news-start full qs)

module _ (codec : Codec) (hex : HasHexDigest codec) (c : CacheStore)
    {view : c.State → Text → Option Text} {Ok : c.State → Type 0} (f : IsFaithful c view Ok) where
  -- The two steps of a check with none between them are the check.
  advance-check_non_atomic :
      (q : Request) (s : c.State)
      → Ok s
      → let (p, s') = advance codec c q reading s in
        advance codec c q p s' ≡ (
          after_all codec c (check_non_atomic codec c q.key q.namespace s).0,
          (check_non_atomic codec c q.key q.namespace s).1,
        )
  unfolding advance check_non_atomic on_decoded
  advance-check_non_atomic q s h =
      ground (arith, f.get_view (build_key codec q.key q.namespace) s h)
