-- ===== src/Idempotency/Traces.antt =====
-- Many requests, one after the other, against one cache, and the refusal to run without a cache.
use backend_prod_ready.Prelude.{
  Bool, Bool-cases, List, Option, Text, [], ap, arith, false, if◌then◌else◌, inl, inr, is_none,
  refl, subst, suc, sym, text_eq, text_eq_iff, text_eq_refl, true, ℕ, ◌&&◌, ◌++◌, ◌∷◌, ◌≡◌, ◌≤◌,
  some, ◌≢◌,
}
use backend_prod_ready.Exec.{Result, ok, raised}
use backend_prod_ready.Cache.Redis.{Redis}
use backend_prod_ready.Cache.Service.{World, ensure_connected, Environment}
use backend_prod_ready.Cache.Service.Methods
use backend_prod_ready.Cache.Store.{CacheStore, IsFaithful}
use backend_prod_ready.Cache.Store.Fallback.{service}
use backend_prod_ready.Idempotency.{
  Codec, IdempotencyError, IdempotencyResult, build_in_progress_key, build_key, check,
  check_without_script, idempotency_cache_error, in_progress_suffix, new, on_reply,
}
use backend_prod_ready.Idempotency.Keys.{HasHexDigest}
use backend_prod_ready.Idempotency.Protocol.{check-outcome, check-view}

pub record Request : Type 0 where
  pub key : Text
  pub namespace : Option Text

module _ (codec : Codec) (c : CacheStore) where
  abbrev is_new : Result IdempotencyError (IdempotencyResult codec) → Bool
  is_new (raised e) = false
  is_new (ok r) = elim r.status [ new ↦ true | _ ↦ false ]

  -- How many of the requests with a given cache key are answered with NEW, when the requests are
  -- checked one after the other.
  unfoldable pub count_new : Text → List Request → c.State → ℕ
  count_new full [] s = 0
  count_new full (q ∷ qs) s =
      let (r, s') = check codec c q.key q.namespace s in
      let rest = count_new full qs s' in
      if text_eq (build_key codec q.key q.namespace) full && is_new r then suc rest else rest

module _ (codec : Codec) (hex : HasHexDigest codec) (c : CacheStore)
    {view : c.State → Text → Option Text} {Ok : c.State → Type 0} (f : IsFaithful c view Ok) where
  abbrev pub marker_of : Text → Text
  marker_of full = full ++ in_progress_suffix

  pub marker_eq :
      (key : Text) (namespace : Option Text) (full : Text)
      → text_eq (build_key codec key namespace) full ≡ true
      → build_in_progress_key codec key namespace ≡ marker_of full
  unfolding build_in_progress_key
  marker_eq key namespace full e = ap marker_of ((text_eq_iff _ _).0 e)

  -- No empty text is stored under any key.
  abbrev pub NoEmpty : c.State → Type 0
  NoEmpty s = (k : Text) → view s k ≢ some []

  check-NoEmpty :
      (key : Text) (namespace : Option Text) (s : c.State)
      → Ok s
      → NoEmpty s
      → NoEmpty (check codec c key namespace s).1
  check-NoEmpty key namespace s h n k =
      ground (
        arith,
        check-view codec hex c f key namespace s k h (n (build_key codec key namespace)),
        n k,
      )

  marked_stays :
      (key : Text) (namespace : Option Text) (s : c.State) (j : Text)
      → Ok s
      → NoEmpty s
      → is_none (view s j) ≡ false
      → is_none (view (check codec c key namespace s).1 j) ≡ false
  marked_stays key namespace s j h z m =
      ground
        (arith, check-view codec hex c f key namespace s j h (z (build_key codec key namespace)))

  marked_not_new :
      (key : Text) (namespace : Option Text) (s : c.State)
      → Ok s
      → NoEmpty s
      → is_none (view s (build_in_progress_key codec key namespace)) ≡ false
      → is_new codec c (check codec c key namespace s).0 ≡ false
  marked_not_new key namespace s h z m =
      ground (
        arith,
        (check-outcome codec hex c f key namespace s h (z (build_key codec key namespace))).0,
      )

  new_marks :
      (key : Text) (namespace : Option Text) (s : c.State)
      → Ok s
      → NoEmpty s
      → is_new codec c (check codec c key namespace s).0 ≡ true
      → is_none (view (check codec c key namespace s).1 (build_in_progress_key codec key namespace))
        ≡ false
  new_marks key namespace s h z n = ground (
    arith,
    (check-outcome codec hex c f key namespace s h (z (build_key codec key namespace))).0,
    check-view codec hex c f key namespace s (build_in_progress_key codec key namespace) h
        (z (build_key codec key namespace)),
    text_eq_refl (build_in_progress_key codec key namespace),
  )

  count_new_marked :
      (full : Text) (qs : List Request) (s : c.State)
      → Ok s
      → NoEmpty s
      → is_none (view s (marker_of full)) ≡ false
      → count_new codec c full qs s ≡ 0
  unfolding count_new
  count_new_marked full [] s h z m = refl
  count_new_marked full (q ∷ qs) s h z m =
      let s' = (check codec c q.key q.namespace s).1 in
      let later =
        count_new_marked full qs s'
          (check-outcome codec hex c f q.key q.namespace s h
            (z (build_key codec q.key q.namespace))).1
          (check-NoEmpty q.key q.namespace s h z)
          (marked_stays q.key q.namespace s (marker_of full) h z m) in
      elim (Bool-cases (text_eq (build_key codec q.key q.namespace) full)) [
        | inl same ↦
            rw
              (
                same,
                marked_not_new q.key q.namespace s h z (
                    subst (λ i. is_none (view s i) ≡ false)
                      (sym (marker_eq q.key q.namespace full same)) m),
              )
              later
        | inr other ↦ rw other later
      ]

  -- However many requests are checked one after the other at one moment, by whichever workers and
  -- with whatever other requests between them, over a cache that keeps its promises and holds no empty
  -- text: at most one of those with the same cache key is answered with NEW.
  pub count_new-le-one :
      (full : Text) (qs : List Request) (s : c.State)
      → Ok s
      → NoEmpty s
      → count_new codec c full qs s ≤ 1
  unfolding count_new
  count_new-le-one full [] s h z = omega arith
  count_new-le-one full (q ∷ qs) s h z =
      let s' = (check codec c q.key q.namespace s).1 in
      let h' =
        (check-outcome codec hex c f q.key q.namespace s h
          (z (build_key codec q.key q.namespace))).1 in
      let z' = check-NoEmpty q.key q.namespace s h z in
      let later = count_new-le-one full qs s' h' z' in
      elim (Bool-cases (text_eq (build_key codec q.key q.namespace) full)) [
        | inr other ↦ rw other later
        | inl same ↦ elim (Bool-cases (is_new codec c (check codec c q.key q.namespace s).0)) [
          | inr old ↦ rw (same, old) later
          | inl fresh ↦
              rw (same, fresh)
                (omega (
                  arith,
                  count_new_marked full qs s' h' z' (
                      subst (λ i. is_none (view s' i) ≡ false)
                        (marker_eq q.key q.namespace full same)
                        (new_marks q.key q.namespace s h z fresh)),
                ))
        ]
      ]

module _ (codec : Codec) (R : Redis) (env : Environment) where
  -- A service that has tried to connect and has neither Redis nor the fallback refuses every check,
  -- whatever the request, and leaves everything as it was: no request is answered with NEW.
  pub check_fail_closed :
      (key : Text) (namespace : Option Text) (w : World R)
      → w.service.initialized ≡ true
      → w.service.redis_client ≡ false
      → w.service.using_fallback ≡ false
      → check codec (service R env) key namespace w ≡ (raised idempotency_cache_error, w)
  unfolding check on_reply check_without_script Methods.execute_check_script Methods.ping
      ensure_connected
  check_fail_closed key namespace w i n u = ground arith
