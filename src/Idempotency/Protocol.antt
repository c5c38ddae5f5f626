-- ===== src/Idempotency/Protocol.antt =====
-- What the idempotency service answers over a cache that keeps its promises, with the Lua script or
-- without it.
use backend_prod_ready.Prelude.{
  Option, Option-cases, Text, [], ap, arith, codes, false, if◌then◌else◌, inl, inr, is_none, none,
  refl, some, text_eq, true, ℕ, ◌&&◌, ◌∙◌, ◌∷◌, ◌≡◌, ◌≢◌, ◌⊎◌,
}
use backend_prod_ready.Exec.{ok}
use backend_prod_ready.Cache.Store.{CacheStore, IsFaithful, ScriptRuns}
use backend_prod_ready.Idempotency.{
  Codec, build_in_progress_key, build_key, check, check_non_atomic, check_without_script,
  in_progress_ttl, on_reply,
}
use backend_prod_ready.Idempotency.Keys.{HasHexDigest}
use backend_prod_ready.Idempotency.NonAtomic.{
  check_non_atomic-Ok, check_non_atomic-outcome, check_non_atomic-view, completed, outcome,
}

module _ (codec : Codec) (hex : HasHexDigest codec) (c : CacheStore)
    {view : c.State → Text → Option Text} {Ok : c.State → Type 0} (f : IsFaithful c view Ok) where
  open codec use {Json, dumps, loads}

  check_eq :
      (key : Text) (namespace : Option Text) (s : c.State)
      → c.check_script
          (build_key codec key namespace)
          (build_in_progress_key codec key namespace)
          in_progress_ttl
          s
        ≡ (ok none, s)
      → c.in_fallback s ≡ true
      → check codec c key namespace s ≡ check_non_atomic codec c key namespace s
  unfolding check on_reply check_without_script
  check_eq key namespace s e u = rw (e, u)

  -- The state after the script.
  abbrev scripted : Text → Option Text → c.State → c.State
  scripted key namespace s =
      (c.check_script (build_key codec key namespace) (build_in_progress_key codec key namespace)
        in_progress_ttl s).1

  abbrev Runs : Text → Option Text → c.State → Type 0
  Runs key namespace s =
      ScriptRuns c view Ok (build_key codec key namespace)
        (build_in_progress_key codec key namespace) in_progress_ttl s

  -- A cached text that does not decode leads to the check that is not atomic.
  check_undecoded :
      (key : Text) (namespace : Option Text) (s : c.State) (b : ℕ) (bs : Text)
      → Runs key namespace s
      → view s (build_key codec key namespace) ≡ some (b ∷ bs)
      → loads (b ∷ bs) ≡ none
      → check codec c key namespace s
        ≡ check_non_atomic codec c key namespace (scripted key namespace s)
  unfolding check on_reply check_without_script
  check_undecoded key namespace s b bs r v l = ground (arith, r.reply, r.no_fallback, r.alive)

  -- Any other reply is the answer.
  check_replied :
      (key : Text) (namespace : Option Text) (s : c.State)
      → Runs key namespace s
      → view s (build_key codec key namespace) ≢ some []
      → (is_none (view s (build_key codec key namespace)) ≡ true)
        ⊎ (is_none (completed codec hex c f s key namespace) ≡ false)
      → check codec c key namespace s
        ≡ (ok (outcome codec hex c f s key namespace), scripted key namespace s)
  unfolding check on_reply
  check_replied key namespace s r v d = ground (arith, r.reply)

  -- Which way a check goes: the script's reply is the answer, or the check is not atomic, without the
  -- script or after it.
  check_ways :
      (key : Text) (namespace : Option Text) (s : c.State)
      → Ok s
      → view s (build_key codec key namespace) ≢ some []
      → (check codec c key namespace s ≡ check_non_atomic codec c key namespace s)
        ⊎ (Runs key namespace s
            × (((is_none (view s (build_key codec key namespace))
                    ≡ is_none (completed codec hex c f s key namespace))
                  × (check codec c key namespace s
                      ≡ (ok (outcome codec hex c f s key namespace), scripted key namespace s)))
                ⊎ ((is_none (view s (build_key codec key namespace)) ≡ false)
                    × (check codec c key namespace s
                        ≡ check_non_atomic codec c key namespace (scripted key namespace s)))))
  check_ways key namespace s h v =
      let full = build_key codec key namespace in
      elim (f.script full (build_in_progress_key codec key namespace) in_progress_ttl s
        (omega arith) h) [
          | inr (e, u) ↦ inl (check_eq key namespace s e u)
          | inl r ↦ inr (r, replied_or_not key namespace s r v (view s full) refl)
        ]
    where
      replied_or_not :
          (key : Text) (namespace : Option Text) (s : c.State)
          → Runs key namespace s
          → view s (build_key codec key namespace) ≢ some []
          → (x : Option Text) → view s (build_key codec key namespace) ≡ x
          → ((is_none (view s (build_key codec key namespace))
                ≡ is_none (completed codec hex c f s key namespace))
              × (check codec c key namespace s
                  ≡ (ok (outcome codec hex c f s key namespace), scripted key namespace s)))
            ⊎ ((is_none (view s (build_key codec key namespace)) ≡ false)
                × (check codec c key namespace s
                    ≡ check_non_atomic codec c key namespace (scripted key namespace s)))
      replied_or_not key namespace s r v none e =
          inl (rw e, check_replied key namespace s r v (inl (ap is_none e)))
      replied_or_not key namespace s r v (some []) e = absurd (v e)
      replied_or_not key namespace s r v (some (b ∷ bs)) e = elim (Option-cases (loads (b ∷ bs))) [
        | inl l ↦ inr (ap is_none e, check_undecoded key namespace s b bs r e l)
        | inr (x, l) ↦ inl (rw (e, l), check_replied key namespace s r v (inr (rw (e, l))))
      ]

  -- From any state of a cache that keeps its promises, in which no empty text is stored as the
  -- response, the check answers by the specification, and keeps the cache in such a state.
  pub check-outcome :
      (key : Text) (namespace : Option Text) (s : c.State)
      → Ok s
      → view s (build_key codec key namespace) ≢ some []
      → ((check codec c key namespace s).0 ≡ ok (outcome codec hex c f s key namespace))
        × Ok (check codec c key namespace s).1
  check-outcome key namespace s h v = elim (check_ways key namespace s h v) [
    | inl e ↦ rw e (
      check_non_atomic-outcome codec hex c f key namespace s h,
      check_non_atomic-Ok codec hex c f key namespace s h,
    )
    | inr (r, inl (_, e)) ↦ rw e (refl, r.stays)
    | inr (r, inr (stored, e)) ↦ rw e (
      check_non_atomic-outcome codec hex c f key namespace (scripted key namespace s) r.stays
          ∙ ap ok (outcome_kept key namespace s r stored),
      check_non_atomic-Ok codec hex c f key namespace (scripted key namespace s) r.stays,
    )
  ]
    where
      outcome_kept :
          (key : Text) (namespace : Option Text) (s : c.State) (r : Runs key namespace s)
          → is_none (view s (build_key codec key namespace)) ≡ false
          → outcome codec hex c f (scripted key namespace s) key namespace
            ≡ outcome codec hex c f s key namespace
      outcome_kept key namespace s r stored = rw (
        r.marks (build_key codec key namespace),
        r.marks (build_in_progress_key codec key namespace),
        stored,
      )

  -- What the check does to the cache: it sets the marker of a new request.
  pub check-view :
      (key : Text) (namespace : Option Text) (s : c.State) (j : Text)
      → Ok s
      → view s (build_key codec key namespace) ≢ some []
      → view (check codec c key namespace s).1 j ≡ (
          if is_none (completed codec hex c f s key namespace)
            && text_eq (build_in_progress_key codec key namespace) j
            && is_none (view s j)
          then some (codes "1")
          else view s j)
  check-view key namespace s j h v = elim (check_ways key namespace s h v) [
    | inl e ↦ rw e (check_non_atomic-view codec hex c f key namespace s j h)
    | inr (r, inl (same, e)) ↦ rw e (r.marks j ∙ rw same)
    | inr (r, inr (stored, e)) ↦ rw e (
        check_non_atomic-view codec hex c f key namespace (scripted key namespace s) j r.stays
        ∙ rw (r.marks (build_key codec key namespace), r.marks j, stored))
  ]
