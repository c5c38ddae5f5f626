-- ===== src/FeatureFlags/Meaning.antt =====
-- What the feature flags say over a cache that keeps its promises.
use backend_prod_ready.Prelude.{
  Bool, List, Option, Text, [], false, map, refl, some, strip, text_eq, text_eq_refl, true, ◌∙◌,
  ◌∷◌, ◌≡◌,
}
use backend_prod_ready.Exec.{ok}
use backend_prod_ready.Cache.Store.{CacheStore, IsFaithful}
use backend_prod_ready.FeatureFlags.{
  FeatureFlag, all_flags, build_key, clear_flag, get_all_flags, get_flags, is_enabled, parse_value,
  set_flag, text_of, ttl_of, value,
}

pub parse_value-text_of :
    (default enabled : Bool) → parse_value default (some (text_of enabled)) ≡ enabled
unfolding parse_value text_eq strip
parse_value-text_of default true = refl
parse_value-text_of default false = refl

module _ (c : CacheStore) {view : c.State → Text → Option Text} {Ok : c.State → Type 0}
    (f : IsFaithful c view Ok) where
  pub is_enabled-parse_value :
      (flag : FeatureFlag) (default : Bool) (s : c.State)
      → Ok s
      → (is_enabled c flag default s).0 ≡ ok (parse_value default (view s (build_key flag)))
  unfolding is_enabled
  is_enabled-parse_value flag default s h = rw (f.get_view (build_key flag) s h)

  pub set_flag-1 :
      (flag : FeatureFlag) (enabled : Bool) (persistent : Option Bool) (s : c.State)
      → Ok s
      → (set_flag c flag enabled persistent s).1
        ≡ (c.set (build_key flag) (text_of enabled) (ttl_of flag persistent) s).1
  unfolding set_flag
  set_flag-1 flag enabled persistent s h =
      rw (f.set_true (build_key flag) (text_of enabled) (ttl_of flag persistent) s h)

  -- After `set_flag` the flag is as it was set, for any default and whether it persists or not.
  pub is_enabled-set_flag :
      (flag : FeatureFlag) (enabled default : Bool) (persistent : Option Bool) (s : c.State)
      → Ok s
      → (is_enabled c flag default (set_flag c flag enabled persistent s).1).0 ≡ ok enabled
  is_enabled-set_flag flag enabled default persistent s h =
      let k = build_key flag in
      let t = ttl_of flag persistent in
      rw (
        set_flag-1 flag enabled persistent s h,
        is_enabled-parse_value flag default (c.set k (text_of enabled) t s).1
            (f.set_ok k (text_of enabled) t s h),
        f.view_set_self k (text_of enabled) t s h,
        parse_value-text_of default enabled,
      )

  -- After `clear_flag` the flag is the default.
  pub is_enabled-clear_flag :
      (flag : FeatureFlag) (default : Bool) (s : c.State)
      → Ok s
      → (is_enabled c flag default (clear_flag c flag s).1).0 ≡ ok default
  unfolding clear_flag parse_value
  is_enabled-clear_flag flag default s h =
      let k = build_key flag in
      let (b, e) = f.delete_done k s h in
      rw e (
        is_enabled-parse_value flag default (c.delete k s).1 (f.delete_ok k s h)
        ∙ rw (f.view_delete k s k h, text_eq_refl k))

  abbrev pub shown : c.State → FeatureFlag → Text × Bool
  shown s flag = (value flag, parse_value true (view s (build_key flag)))

  get_flags-shown :
      (flags : List FeatureFlag) (s t : c.State)
      → Ok s
      → ((k : Text) → view s k ≡ view t k)
      → (get_flags c flags s).0 ≡ ok (map (shown t) flags)
  unfolding get_flags is_enabled
  get_flags-shown [] s t h same = refl
  get_flags-shown (flag ∷ flags) s t h same =
      let k = build_key flag in
      rw (
        f.get_view k s h,
        same k,
        get_flags-shown flags (c.get k s).1 t (f.get_ok k s h) (λ j. f.view_get k j s h ∙ same j),
      )

  -- `get_all_flags` gives every flag with the value that `is_enabled` gives it with the default True.
  pub get_all_flags-shown :
      (s : c.State) → Ok s → (get_all_flags c s).0 ≡ ok (map (shown s) all_flags)
  unfolding get_all_flags
  get_all_flags-shown s h = get_flags-shown all_flags s s h (λ k. refl)
