-- ===== src/FeatureFlags/Lifetime.antt =====
-- How long a feature flag lasts, over `CacheService` in its fallback.
use backend_prod_ready.Prelude.{
  Bool, Option, arith, false, if◌then◌else◌, is_none, leb, none, not, refl, some, true, ℕ, ◌+◌,
  ◌||◌, ◌∙◌, ◌≡◌,
}
use backend_prod_ready.Exec.{ok}
use backend_prod_ready.Cache.Memory
use backend_prod_ready.Cache.Memory.{Memory, expiry_of, is_expired}
use backend_prod_ready.Cache.Memory.Lookup.{set-IsDict, view-set_self}
use backend_prod_ready.Cache.Redis.{Redis}
use backend_prod_ready.Cache.Service.{Environment, World}
use backend_prod_ready.Cache.Store.Fallback.{
  InFallback, memory_of, service, service-IsFaithful, set-fallback, stays,
}
use backend_prod_ready.FeatureFlags.{
  FeatureFlag, build_key, is_enabled, parse_value, set_flag, temporary_ttl, text_of, ttl_of,
}
use backend_prod_ready.FeatureFlags.Meaning.{
  is_enabled-parse_value, parse_value-text_of, set_flag-1,
}

-- Whether a flag still has the value that was set d seconds ago.
abbrev pub lasts : FeatureFlag → Option Bool → ℕ → Bool
lasts flag persistent d = is_none (ttl_of flag persistent) || leb d temporary_ttl

expired-lasts :
    (flag : FeatureFlag) (persistent : Option Bool) (now d : ℕ)
    → is_expired (expiry_of now (ttl_of flag persistent)) (now + d) ≡ not (lasts flag persistent d)
unfolding is_expired expiry_of ttl_of
expired-lasts flag none now d = ground arith
expired-lasts flag (some p) now d = ground arith

parse_lasting :
    (default enabled b : Bool)
    → parse_value default (if not b then none else some (text_of enabled))
      ≡ (if b then enabled else default)
unfolding parse_value
parse_lasting default enabled true = parse_value-text_of default enabled
parse_lasting default enabled false = refl

module _ (R : Redis) (env : Environment) where
  -- The world d seconds later.
  abbrev pub later : ℕ → World R → World R
  later d w = record w { clock = w.clock + d }

  -- In the fallback: d seconds after `set_flag` the flag is as it was set if it persists, which a
  -- critical flag does by default, or if at most an hour has passed; else it is the default.
  pub set_flag_lifetime :
      (flag : FeatureFlag) (enabled default : Bool) (persistent : Option Bool) (w : World R) (d : ℕ)
      → InFallback R env w
      → (is_enabled
          (service R env)
          flag
          default
          (later d (set_flag (service R env) flag enabled persistent w).1)).0
        ≡ ok (if lasts flag persistent d then enabled else default)
  set_flag_lifetime flag enabled default persistent w d h =
      let k = build_key flag in
      let t = ttl_of flag persistent in
      let m = (Memory.set w.clock k (text_of enabled) t (memory_of R env w)).1 in
      let w' : World R = record w { service = record w.service { in_memory_cache = some m } } in
      let h' =
        stays R env w m h
          (set-IsDict w.clock k (text_of enabled) t (memory_of R env w) h.distinct) in
      let h'' : InFallback R env (later d w') = record {
        initialized = h'.initialized;
        active = h'.active;
        present = h'.present;
        distinct = h'.distinct;
      } in
      rw
        (
          set_flag-1 (service R env) (service-IsFaithful R env) flag enabled persistent w h,
          set-fallback R env k (text_of enabled) t w h,
        )
        (is_enabled-parse_value (service R env) (service-IsFaithful R env) flag default (later d w')
            h''
          ∙ rw (
            view-set_self w.clock k (text_of enabled) t (memory_of R env w) (w.clock + d),
            expired-lasts flag persistent w.clock d,
            parse_lasting default enabled (lasts flag persistent d),
          ))
