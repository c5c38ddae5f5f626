-- ===== src/Idempotency/Completion.antt =====
-- What a check answers after an earlier check, after `store` and after `clear_in_progress`.
use backend_prod_ready.Prelude.{
  Option, Text, [], arith, none, some, sym, text_eq_refl, ℕ, ◌∙◌, ◌≡◌, ◌≢◌,
}
use backend_prod_ready.Exec.{ok}
use backend_prod_ready.Cache.Store.{CacheStore, IsFaithful}
use backend_prod_ready.Idempotency.{
  Codec, answer, build_in_progress_key, build_key, check, clear_in_progress, duplicate, in_progress,
  new, store, store_response, ttl_or_default,
}
use backend_prod_ready.Idempotency.Keys.{HasHexDigest, marker-ne-build_key}
use backend_prod_ready.Idempotency.NonAtomic.{completed}
use backend_prod_ready.Idempotency.Protocol.{check-outcome, check-view}

module _ (codec : Codec) (hex : HasHexDigest codec) (c : CacheStore)
    {view : c.State → Text → Option Text} {Ok : c.State → Type 0} (f : IsFaithful c view Ok) where
  open codec use {Json, dumps, loads}

  -- After a check that is answered with NEW, from a state without an empty stored response, the next
  -- check of the same request is answered with IN_PROGRESS.
  pub check_after_new :
      (key : Text) (namespace : Option Text) (s : c.State)
      → Ok s
      → view s (build_key codec key namespace) ≢ some []
      → (check codec c key namespace s).0 ≡ ok (answer codec new none)
      → (check codec c key namespace (check codec c key namespace s).1).0
        ≡ ok (answer codec in_progress none)
  check_after_new key namespace s h v fresh =
      let s' = (check codec c key namespace s).1 in
      let marker = build_in_progress_key codec key namespace in
      let full = build_key codec key namespace in
      let same : view s' full ≡ view s full = ground (
        arith,
        check-view codec hex c f key namespace s full h v,
        marker-ne-build_key codec hex key key namespace namespace,
      ) in
      ground (
        arith,
        (check-outcome codec hex c f key namespace s h v).0,
        (check-outcome codec hex c f key namespace s'
            (check-outcome codec hex c f key namespace s h v).1 (λ e. v (sym same ∙ e))).0,
        check-view codec hex c f key namespace s marker h v,
        same,
        text_eq_refl marker,
      )

  pub clear_eq :
      (key : Text) (namespace : Option Text) (s : c.State)
      → Ok s
      → clear_in_progress codec c key namespace s
        ≡ (ok tt, (c.delete (build_in_progress_key codec key namespace) s).1)
  unfolding clear_in_progress
  clear_eq key namespace s h =
      let (b, e) = f.delete_done (build_in_progress_key codec key namespace) s h in rw e

  pub store_eq :
      (key : Text) (response : Json) (ttl : Option ℕ) (namespace : Option Text) (s : c.State)
      (serialized : Text)
      → Ok s
      → dumps response ≡ some serialized
      → store codec c key response ttl namespace s
        ≡ clear_in_progress codec c key namespace
            (c.set
              (build_key codec key namespace)
              serialized
              (some (ttl_or_default codec c ttl))
              s).1
  unfolding store clear_in_progress
  store_eq key response ttl namespace s serialized h d = rw (
    d,
    store_response,
    f.set_true (build_key codec key namespace) serialized (some (ttl_or_default codec c ttl)) s h,
  )

  store_unserializable_eq :
      (key : Text) (response : Json) (ttl : Option ℕ) (namespace : Option Text) (s : c.State)
      → dumps response ≡ none
      → store codec c key response ttl namespace s ≡ clear_in_progress codec c key namespace s
  unfolding store clear_in_progress
  store_unserializable_eq key response ttl namespace s d = rw (d, store_response)

  -- What `store` leaves behind, where the response serialises.
  pub store-view :
      (key : Text) (response : Json) (ttl : Option ℕ) (namespace : Option Text) (s : c.State)
      (serialized : Text)
      → Ok s
      → dumps response ≡ some serialized
      → (view (store codec c key response ttl namespace s).1 (build_key codec key namespace)
          ≡ some serialized)
        × Ok (store codec c key response ttl namespace s).1
  store-view key response ttl namespace s serialized h d =
      let full = build_key codec key namespace in
      let s' = (c.set full serialized (some (ttl_or_default codec c ttl)) s).1 in
      let h' = f.set_ok full serialized (some (ttl_or_default codec c ttl)) s h in
      rw (store_eq key response ttl namespace s serialized h d, clear_eq key namespace s' h')
        (
          f.view_delete (build_in_progress_key codec key namespace) s' full h'
              ∙ rw (marker-ne-build_key codec hex key key namespace namespace)
                  (f.view_set_self full serialized (some (ttl_or_default codec c ttl)) s h),
          f.delete_ok (build_in_progress_key codec key namespace) s' h',
        )

  -- A check after `store` is answered with DUPLICATE and the stored response, if orjson serialises
  -- the response and reads it back, and does not read the empty text.
  pub check-store :
      (key : Text) (response : Json) (ttl : Option ℕ) (namespace : Option Text) (s : c.State)
      (serialized : Text)
      → Ok s
      → dumps response ≡ some serialized
      → loads serialized ≡ some response
      → loads [] ≡ none
      → (check codec c key namespace (store codec c key response ttl namespace s).1).0
        ≡ ok (answer codec duplicate (some response))
  check-store key response ttl namespace s serialized h d l empty =
      let s' = (store codec c key response ttl namespace s).1 in
      let (stored, h') = store-view key response ttl namespace s serialized h d in
      ground (
        arith,
        (check-outcome codec hex c f key namespace s' h' (λ e. cc (e, stored, l, empty))).0,
        stored,
      )

  -- From a state without an empty stored response, `clear_in_progress` lets a request that was not
  -- completed be processed again.
  pub check-clear_in_progress :
      (key : Text) (namespace : Option Text) (s : c.State)
      → Ok s
      → view s (build_key codec key namespace) ≢ some []
      → completed codec hex c f s key namespace ≡ none
      → (check codec c key namespace (clear_in_progress codec c key namespace s).1).0
        ≡ ok (answer codec new none)
  check-clear_in_progress key namespace s h v free =
      let full = build_key codec key namespace in
      let marker = build_in_progress_key codec key namespace in
      let s' = (c.delete marker s).1 in
      let same : view s' full ≡ view s full =
        f.view_delete marker s full h
        ∙ rw (marker-ne-build_key codec hex key key namespace namespace) in
      rw (clear_eq key namespace s h) (
        ground (
          arith,
          (check-outcome codec hex c f key namespace s' (f.delete_ok marker s h)
              (λ e. v (sym same ∙ e))).0,
          f.view_delete marker s full h,
          f.view_delete marker s marker h,
          text_eq_refl marker,
          marker-ne-build_key codec hex key key namespace namespace,
        ))

  -- From a state without an empty stored response: if the new one does not serialise, `store` stores
  -- nothing and removes the marker, so the next check of a request that was not completed is answered
  -- with NEW.
  pub check-store_unserializable :
      (key : Text) (response : Json) (ttl : Option ℕ) (namespace : Option Text) (s : c.State)
      → Ok s
      → view s (build_key codec key namespace) ≢ some []
      → dumps response ≡ none
      → completed codec hex c f s key namespace ≡ none
      → (check codec c key namespace (store codec c key response ttl namespace s).1).0
        ≡ ok (answer codec new none)
  check-store_unserializable key response ttl namespace s h v d free =
      rw (store_unserializable_eq key response ttl namespace s d)
        (check-clear_in_progress key namespace s h v free)
