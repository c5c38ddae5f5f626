-- ===== src/Idempotency/NonAtomic.antt =====
-- The specification of the idempotency check, and the check that is not atomic against it.
use backend_prod_ready.Prelude.{
  Bool, Option, Text, arith, codes, false, if◌then◌else◌, is_none, none, not, some, text_eq,
  text_eq_iff, true, ◌&&◌, ◌≡◌,
}
use backend_prod_ready.Exec.{ok}
use backend_prod_ready.Cache.Store.{CacheStore, IsFaithful}
use backend_prod_ready.Idempotency.{
  Codec, IdempotencyResult, acquire_marker, answer, build_in_progress_key, build_key,
  check_non_atomic, decode, duplicate, in_progress, in_progress_ttl, new, on_decoded,
}
use backend_prod_ready.Idempotency.Keys.{HasHexDigest}

module _ (codec : Codec) (hex : HasHexDigest codec) (c : CacheStore)
    {view : c.State → Text → Option Text} {Ok : c.State → Type 0} (f : IsFaithful c view Ok) where
  open codec use {Json, dumps, loads}

  -- What a reader sees of a request: its completed response, if it decodes.
  abbrev pub completed : c.State → Text → Option Text → Option Json
  completed s key namespace = decode codec c (view s (build_key codec key namespace))

  -- Whether the in-progress marker of a request is there.
  abbrev pub is_marked : c.State → Text → Option Text → Bool
  is_marked s key namespace = not (is_none (view s (build_in_progress_key codec key namespace)))

  -- The specification of the check: a completed request is a duplicate with its response, a marked
  -- one is in progress, any other is new.
  abbrev verdict : Option Json → Bool → IdempotencyResult codec
  verdict (some response) marked = answer codec duplicate (some response)
  verdict none true = answer codec in_progress none
  verdict none false = answer codec new none

  abbrev pub outcome : c.State → Text → Option Text → IdempotencyResult codec
  outcome s key namespace = verdict (completed s key namespace) (is_marked s key namespace)

  pub check_non_atomic-outcome :
      (key : Text) (namespace : Option Text) (s : c.State)
      → Ok s
      → (check_non_atomic codec c key namespace s).0 ≡ ok (outcome s key namespace)
  unfolding check_non_atomic
  check_non_atomic-outcome key namespace s h =
      let full = build_key codec key namespace in
      let marker = build_in_progress_key codec key namespace in
      let s' = (c.get full s).1 in
      ground (
        arith,
        f.get_view full s h,
        f.view_get full marker s h,
        f.setnx_view marker (codes "1") in_progress_ttl s' (omega arith) (f.get_ok full s h),
      )

  -- What the check does to the cache: it sets the marker of a new request.
  pub check_non_atomic-view :
      (key : Text) (namespace : Option Text) (s : c.State) (j : Text)
      → Ok s
      → view (check_non_atomic codec c key namespace s).1 j ≡ (
          if is_none (completed s key namespace)
            && text_eq (build_in_progress_key codec key namespace) j
            && is_none (view s j)
          then some (codes "1")
          else view s j)
  unfolding check_non_atomic
  check_non_atomic-view key namespace s j h =
      let full = build_key codec key namespace in
      let marker = build_in_progress_key codec key namespace in
      let s' = (c.get full s).1 in
      ground (
        arith,
        f.get_view full s h,
        f.view_get full j s h,
        f.view_get full marker s h,
        f.setnx_view marker (codes "1") in_progress_ttl s' (omega arith) (f.get_ok full s h),
        f.view_setnx marker (codes "1") in_progress_ttl s' j (omega arith) (f.get_ok full s h),
        text_eq_iff marker j,
      )

  pub acquire_marker-Ok :
      (marker : Text) (s : c.State) → Ok s → Ok (acquire_marker codec c marker s).1
  unfolding acquire_marker
  acquire_marker-Ok marker s h =
      rw (f.setnx_view marker (codes "1") in_progress_ttl s (omega arith) h)
        (f.setnx_ok marker (codes "1") in_progress_ttl s (omega arith) h)

  on_decoded-Ok :
      (marker : Text) (response : Option Json) (s : c.State)
      → Ok s
      → Ok (on_decoded codec c marker response s).1
  unfolding on_decoded
  on_decoded-Ok marker none s h = acquire_marker-Ok marker s h
  on_decoded-Ok marker (some r) s h = h

  pub check_non_atomic-Ok :
      (key : Text) (namespace : Option Text) (s : c.State)
      → Ok s
      → Ok (check_non_atomic codec c key namespace s).1
  unfolding check_non_atomic
  check_non_atomic-Ok key namespace s h =
      let full = build_key codec key namespace in
      rw (f.get_view full s h) (
        on_decoded-Ok (build_in_progress_key codec key namespace) (completed s key namespace)
          (c.get full s).1 (f.get_ok full s h))
