-- ===== src/Idempotency/Interleaved/Race.antt =====
-- A check that is not atomic, and a response that is stored between its steps.
use backend_prod_ready.Prelude.{
  Option, Text, arith, codes, none, refl, some, text_eq_refl, ℕ, ◌∙◌, ◌≡◌,
}
use backend_prod_ready.Cache.Store.{CacheStore, IsFaithful}
use backend_prod_ready.Idempotency.{
  Codec, answer, build_in_progress_key, build_key, in_progress_ttl, new, store, ttl_or_default,
}
use backend_prod_ready.Idempotency.Keys.{HasHexDigest}
use backend_prod_ready.Idempotency.NonAtomic.{completed}
use backend_prod_ready.Idempotency.Completion.{clear_eq, store-view, store_eq}
use backend_prod_ready.Idempotency.Traces.{Request}
use backend_prod_ready.Idempotency.Interleaved.{advance, answered, reading}

module _ (codec : Codec) (hex : HasHexDigest codec) (c : CacheStore)
    {view : c.State → Text → Option Text} {Ok : c.State → Type 0} (f : IsFaithful c view Ok) where
  -- The window that the documentation warns of: a check that has read before another worker stores its
  -- response is answered with NEW after it, though the request is completed.
  race_after_store :
      (q : Request) (response : codec.Json) (ttl : Option ℕ) (s : c.State) (serialized : Text)
      → Ok s
      → codec.dumps response ≡ some serialized
      → completed codec hex c f s q.key q.namespace ≡ none
      → let (p, s1) = advance codec c q reading s in
        let s2 = (store codec c q.key response ttl q.namespace s1).1 in
        ((advance codec c q p s2).0 ≡ answered (answer codec new none))
        × (view s2 (build_key codec q.key q.namespace) ≡ some serialized)
  unfolding advance
  race_after_store q response ttl s serialized h d free =
      let full = build_key codec q.key q.namespace in
      let marker = build_in_progress_key codec q.key q.namespace in
      let s1 = (c.get full s).1 in
      let h1 = f.get_ok full s h in
      let s1' = (c.set full serialized (some (ttl_or_default codec c ttl)) s1).1 in
      let h1' = f.set_ok full serialized (some (ttl_or_default codec c ttl)) s1 h1 in
      let s2 = (store codec c q.key response ttl q.namespace s1).1 in
      let (stored, h2) =
        store-view codec hex c f q.key response ttl q.namespace s1 serialized h1 d in
      let cleared : view s2 marker ≡ none =
        rw
          (
            store_eq codec hex c f q.key response ttl q.namespace s1 serialized h1 d,
            clear_eq codec hex c f q.key q.namespace s1' h1',
          )
          (f.view_delete marker s1' marker h1' ∙ rw (text_eq_refl marker) refl) in
      (
        ground (
          arith,
          f.get_view full s h,
          free,
          f.setnx_view marker (codes "1") in_progress_ttl s2 (omega arith) h2,
          cleared,
        ),
        stored,
      )
