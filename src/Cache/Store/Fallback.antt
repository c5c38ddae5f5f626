-- ===== src/Cache/Store/Fallback.antt =====
-- `CacheService` as such a cache, with its in-memory fallback active.
use backend_prod_ready.Prelude.{
  Option, arith, false, is_none, none, not, some, true, ℕ, ◌&&◌, ◌≡◌, Text, ap, refl, ◌∙◌, Bool,
  inr,
}
use backend_prod_ready.Exec.{Result, ok}
use backend_prod_ready.Cache.Redis.{Redis}
use backend_prod_ready.Cache.Memory.{Memory, view, is_expired, expiry_of, delete, get, set, setnx}
use backend_prod_ready.Cache.Memory
use backend_prod_ready.Cache.Memory.Lookup.{
  IsDict, delete-IsDict, get-IsDict, get-view, set-IsDict, setnx-IsDict, setnx-view, view-delete,
  view-get, view-set_ne, view-set_self, view-setnx,
}
use backend_prod_ready.Cache.Service.{
  World, Environment, ensure_connected, fallback_memory, CacheError,
}
use backend_prod_ready.Cache.Service.Methods
use backend_prod_ready.Cache.Service.Methods.{dispatch, with_memory, check_script, ping}
use backend_prod_ready.Cache.Store.{CacheStore, IsFaithful}

pub fresh_live : (now : ℕ) (ttl : Option ℕ) → is_expired (expiry_of now ttl) now ≡ false
unfolding is_expired expiry_of
fresh_live now ttl = ground arith

set-true :
    (now : ℕ) (k v : Text) (ttl : Option ℕ) (m : Memory)
    → ◌≡◌ {A = Result CacheError Bool} (ok (Memory.set now k v ttl m).0) (ok true)
unfolding Memory.set
set-true now k v ttl m = refl

module _ (R : Redis) (env : Environment) where
  abbrev pub service : CacheStore
  service = record {
    State = World R;
    get = Methods.get R env;
    set = Methods.set R env;
    setnx = Methods.setnx R env;
    delete = Methods.delete R env;
    check_script = Methods.execute_check_script R env;
    ping = Methods.ping R env;
    in_fallback = λ w. w.service.using_fallback && not (is_none w.service.in_memory_cache);
  }

  -- The fallback's object, or an empty one.
  abbrev pub memory_of : World R → Memory
  memory_of w = elim w.service.in_memory_cache [ none ↦ Memory.new 0 | some m ↦ m ]

  -- The fallback is active over a dict.
  pub record InFallback (w : World R) : Type 0 where
    pub initialized : w.service.initialized ≡ true
    pub active : w.service.using_fallback ≡ true
    pub present : is_none w.service.in_memory_cache ≡ false
    pub distinct : IsDict (memory_of w)

  dispatch-fallback :
      {A : Type 0} (f : ℕ → Memory → A × Memory) (g : ℕ → R.Db → A × R.Db) (a : A) (w : World R)
      → InFallback w
      → dispatch R env f g a w ≡ with_memory R w (f w.clock (memory_of w))
  unfolding dispatch ensure_connected fallback_memory
  dispatch-fallback f g a w h = ground arith

  get-fallback :
      (k : Text) (w : World R)
      → InFallback w
      → Methods.get R env k w ≡ with_memory R w (Memory.get w.clock k (memory_of w))
  unfolding Methods.get
  get-fallback k w h = dispatch-fallback _ (λ now. R.get now k) none w h

  pub set-fallback :
      (k v : Text) (ttl : Option ℕ) (w : World R)
      → InFallback w
      → Methods.set R env k v ttl w ≡ with_memory R w (Memory.set w.clock k v ttl (memory_of w))
  unfolding Methods.set
  set-fallback k v ttl w h =
      dispatch-fallback _ (λ now db. (true, (R.set now k v (Methods.truthy R env ttl) db).1)) false
        w h

  setnx-fallback :
      (k v : Text) (ttl : Option ℕ) (w : World R)
      → InFallback w
      → Methods.setnx R env k v ttl w ≡ with_memory R w (Memory.setnx w.clock k v ttl (memory_of w))
  unfolding Methods.setnx
  setnx-fallback k v ttl w h = dispatch-fallback _ (λ now. R.set_nx now k v ttl) false w h

  delete-fallback :
      (k : Text) (w : World R)
      → InFallback w
      → Methods.delete R env k w ≡ with_memory R w (Memory.delete k (memory_of w))
  unfolding Methods.delete
  delete-fallback k w h = dispatch-fallback _ (λ now. R.delete now k) false w h

  pub stays :
      (w : World R) (m : Memory)
      → InFallback w
      → IsDict m
      → InFallback (record w { service = record w.service { in_memory_cache = some m } })
  stays w m h u = record {
    initialized = h.initialized;
    active = h.active;
    present = refl;
    distinct = u;
  }

  script_none :
      (k j : Text) (ttl : ℕ) (w : World R)
      → InFallback w
      → Methods.execute_check_script R env k j ttl w ≡ (ok none, w)
  unfolding Methods.execute_check_script ensure_connected
  script_none k j ttl w h = ground arith

  -- `CacheService` with its in-memory fallback active over a dict keeps the promises of the
  -- interface: each method does to what readers see what the interface says, and leaves the
  -- fallback active.
  pub service-IsFaithful : IsFaithful service (λ w. view w.clock (memory_of w)) InFallback
  service-IsFaithful = record {
    get_view = λ k w h. rw (get-fallback k w h) (ap ok (get-view w.clock k (memory_of w)));
    view_get = λ k j w h.
        rw (get-fallback k w h)
          (view-get w.clock k (memory_of w) w.clock j (omega arith) h.distinct);
    get_ok = λ k w h.
        rw (get-fallback k w h) (stays w _ h (get-IsDict w.clock k (memory_of w) h.distinct));
    setnx_view = λ k v ttl w _ h.
        rw (setnx-fallback k v (some ttl) w h)
          (ap ok (setnx-view w.clock k (memory_of w) v (some ttl)));
    view_setnx = λ k v ttl w j _ h. rw (setnx-fallback k v (some ttl) w h) (
        view-setnx w.clock k (memory_of w) v (some ttl) w.clock j
        ∙ rw (fresh_live w.clock (some ttl)));
    setnx_ok = λ k v ttl w _ h.
        rw (setnx-fallback k v (some ttl) w h)
          (stays w _ h (setnx-IsDict w.clock k (memory_of w) v (some ttl) h.distinct));
    set_true =
        λ k v ttl w h. rw (set-fallback k v ttl w h) (set-true w.clock k v ttl (memory_of w));
    view_set_self = λ k v ttl w h.
        rw (set-fallback k v ttl w h)
          (view-set_self w.clock k v ttl (memory_of w) w.clock ∙ rw (fresh_live w.clock ttl));
    view_set_ne = λ k v ttl w j h other.
        rw (set-fallback k v ttl w h)
          (view-set_ne w.clock k v ttl (memory_of w) w.clock j h.distinct other);
    set_ok = λ k v ttl w h.
        rw (set-fallback k v ttl w h)
          (stays w _ h (set-IsDict w.clock k v ttl (memory_of w) h.distinct));
    delete_done = λ k w h. rw (delete-fallback k w h) ((Memory.delete k (memory_of w)).0, refl);
    view_delete =
        λ k w j h. rw (delete-fallback k w h) (view-delete w.clock k (memory_of w) j h.distinct);
    delete_ok = λ k w h.
        rw (delete-fallback k w h) (stays w _ h (delete-IsDict w.clock k (memory_of w) h.distinct));
    script = λ k j ttl w _ h. inr (script_none k j ttl w h, ground (arith, h.active, h.present));
  }
