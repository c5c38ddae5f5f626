-- ===== src/Cache/Store/Connected.antt =====
-- `CacheService` as such a cache, with a connection to a Redis server that keeps working.
use backend_prod_ready.Prelude.{
  ap, refl, Option, Option-cases, Text, arith, codes, false, if◌then◌else◌, inl, inr, is_none, none,
  some, suc, text_eq, text_eq_iff, true, zero, ℕ, ◌&&◌, ◌<◌, ◌≡◌, ◌≢◌,
}
use backend_prod_ready.Exec.{ok}
use backend_prod_ready.Cache.Memory.{Memory}
use backend_prod_ready.Cache.Redis.{Redis, IsReliable}
use backend_prod_ready.Cache.Service.{World, Environment, ensure_connected, fallback_memory}
use backend_prod_ready.Cache.Service.Methods
use backend_prod_ready.Cache.Service.Methods.{
  LuaReply, dispatch, check_script, execute_redis_operation, settle, truthy,
}
use backend_prod_ready.Cache.Store.{IsFaithful, ScriptRuns, reply_of}
use backend_prod_ready.Cache.Store.Fallback.{service}

module _ (R : Redis) (env : Environment) {view : ℕ → R.Db → Text → Option Text}
    {Valid : R.Db → Type 0} (r : IsReliable R view Valid) where
  -- The service has a client and no fallback.
  pub record IsConnected (w : World R) : Type 0 where
    pub initialized : w.service.initialized ≡ true
    pub client : w.service.redis_client ≡ true
    pub no_fallback : w.service.using_fallback ≡ false
    pub valid : Valid w.db

  abbrev at_db : World R → R.Db → World R
  at_db w db = record w { db = db }

  operation-connected :
      {A : Type 0} (g : ℕ → R.Db → A × R.Db) (a : A) (w : World R)
      → IsConnected w
      → execute_redis_operation R env g a w ≡ (ok (g w.clock w.db).0, at_db w (g w.clock w.db).1)
  unfolding execute_redis_operation ensure_connected settle
  operation-connected {A} g a w h = rw (h.initialized, h.client, r.call_runs A (g w.clock) w.db)

  pub ensured : (w : World R) → IsConnected w → ensure_connected R env w ≡ (ok tt, w)
  unfolding ensure_connected
  ensured w h = rw h.initialized

  dispatch-connected :
      {A : Type 0} (f : ℕ → Memory → A × Memory) (g : ℕ → R.Db → A × R.Db) (a : A) (w : World R)
      → IsConnected w
      → dispatch R env f g a w ≡ (ok (g w.clock w.db).0, at_db w (g w.clock w.db).1)
  unfolding dispatch fallback_memory
  dispatch-connected f g a w h =
      ground (arith, ensured w h, h.no_fallback, operation-connected g a w h)

  stays : (w : World R) (db : R.Db) → IsConnected w → Valid db → IsConnected (at_db w db)
  stays w db h v = record {
    initialized = h.initialized;
    client = h.client;
    no_fallback = h.no_fallback;
    valid = v;
  }

  truthy_ne_zero : (ttl : Option ℕ) → truthy R env ttl ≢ some 0
  truthy_ne_zero none e = absurd (cc e)
  truthy_ne_zero (some zero) e = absurd (cc e)
  truthy_ne_zero (some (suc n)) e = absurd (ground (arith, e))

  get-connected :
      (k : Text) (w : World R)
      → IsConnected w
      → Methods.get R env k w ≡ (ok (R.get w.clock k w.db).0, at_db w (R.get w.clock k w.db).1)
  unfolding Methods.get
  get-connected k w h = dispatch-connected _ (λ now. R.get now k) none w h

  set-connected :
      (k v : Text) (ttl : Option ℕ) (w : World R)
      → IsConnected w
      → Methods.set R env k v ttl w
        ≡ (ok true, at_db w (R.set w.clock k v (truthy R env ttl) w.db).1)
  unfolding Methods.set
  set-connected k v ttl w h =
      dispatch-connected _ (λ now db. (true, (R.set now k v (truthy R env ttl) db).1)) false w h

  setnx-connected :
      (k v : Text) (ttl : Option ℕ) (w : World R)
      → IsConnected w
      → Methods.setnx R env k v ttl w
        ≡ (ok (R.set_nx w.clock k v ttl w.db).0, at_db w (R.set_nx w.clock k v ttl w.db).1)
  unfolding Methods.setnx
  setnx-connected k v ttl w h = dispatch-connected _ (λ now. R.set_nx now k v ttl) false w h

  delete-connected :
      (k : Text) (w : World R)
      → IsConnected w
      → Methods.delete R env k w
        ≡ (ok (R.delete w.clock k w.db).0, at_db w (R.delete w.clock k w.db).1)
  unfolding Methods.delete
  delete-connected k w h = dispatch-connected _ (λ now. R.delete now k) false w h

  ping-connected : (w : World R) → IsConnected w → Methods.ping R env w ≡ (ok true, w)
  unfolding Methods.ping ensure_connected fallback_memory
  ping-connected w h = ground (arith, r.ping_true w.db h.valid)

  script-connected :
      (k j : Text) (ttl : ℕ) (w : World R)
      → IsConnected w
      → Methods.execute_check_script R env k j ttl w ≡ (
        ok (some (check_script R w.clock k j ttl w.db).0),
        at_db w (check_script R w.clock k j ttl w.db).1,
      )
  unfolding Methods.execute_check_script
  script-connected k j ttl w h =
      let run : ℕ → R.Db → Option LuaReply × R.Db =
        λ now db. (some (check_script R now k j ttl db).0, (check_script R now k j ttl db).1) in
      ground (arith, ensured w h, h.no_fallback, h.client, operation-connected run none w h)

  check_script-reply :
      (now : ℕ) (k j : Text) (ttl : ℕ) (db : R.Db)
      → 0 < ttl
      → Valid db
      → (check_script R now k j ttl db).0 ≡ reply_of (view now db k) (view now db j)
  unfolding check_script
  check_script-reply now k j ttl db p v = ground (
    arith,
    r.get_view now k db v,
    r.view_get now k j db v,
    r.set_nx_view now j (codes "1") ttl (R.get now k db).1 p (r.get_valid now k db v),
  )

  check_script-marks :
      (now : ℕ) (k j : Text) (ttl : ℕ) (db : R.Db) (i : Text)
      → 0 < ttl
      → Valid db
      → view now (check_script R now k j ttl db).1 i ≡ (
          if is_none (view now db k) && text_eq j i && is_none (view now db i)
          then some (codes "1")
          else view now db i)
  unfolding check_script
  check_script-marks now k j ttl db i p v = ground (
    arith,
    r.get_view now k db v,
    r.view_get now k j db v,
    r.view_get now k i db v,
    r.view_set_nx now j (codes "1") ttl (R.get now k db).1 i p (r.get_valid now k db v),
    text_eq_iff j i,
  )

  check_script-valid :
      (now : ℕ) (k j : Text) (ttl : ℕ) (db : R.Db)
      → 0 < ttl
      → Valid db
      → Valid (check_script R now k j ttl db).1
  unfolding check_script
  check_script-valid now k j ttl db p v = elim (Option-cases (R.get now k db).0) [
    | inl e ↦
        rw (check_script, e)
          (r.set_nx_valid now j (codes "1") ttl (R.get now k db).1 p (r.get_valid now k db v))
    | inr (x, e) ↦ rw (check_script, e) (r.get_valid now k db v)
  ]

  script_runs :
      (k j : Text) (ttl : ℕ) (w : World R)
      → 0 < ttl
      → IsConnected w
      → ScriptRuns (service R env) (λ w. view w.clock w.db) IsConnected k j ttl w
  script_runs k j ttl w p h =
      let run = check_script R w.clock k j ttl w.db in
      let h' = stays w run.1 h (check_script-valid w.clock k j ttl w.db p h.valid) in
      record {
        reply = rw (script-connected k j ttl w h) (
            ap (λ (x : LuaReply). ok (some x)) (check_script-reply w.clock k j ttl w.db p h.valid));
        marks = λ i.
            rw (script-connected k j ttl w h) (check_script-marks w.clock k j ttl w.db i p h.valid);
        stays = rw (script-connected k j ttl w h) h';
        no_fallback = rw (script-connected k j ttl w h) (rw h.no_fallback);
        alive = rw (script-connected k j ttl w h) (ping-connected (at_db w run.1) h');
      }

  -- Connected to a server that keeps working, with no fallback, `CacheService` keeps the promises
  -- of the interface: each method does to what readers see what the interface says, the Lua
  -- script of the check included, and it stays connected.
  pub connected-IsFaithful : IsFaithful (service R env) (λ w. view w.clock w.db) IsConnected
  connected-IsFaithful = record {
    get_view = λ k w h. rw (get-connected k w h) (ap ok (r.get_view w.clock k w.db h.valid));
    view_get = λ k j w h. rw (get-connected k w h) (r.view_get w.clock k j w.db h.valid);
    get_ok = λ k w h. rw (get-connected k w h) (stays w _ h (r.get_valid w.clock k w.db h.valid));
    setnx_view = λ k v ttl w p h.
        rw (setnx-connected k v (some ttl) w h)
          (ap ok (r.set_nx_view w.clock k v ttl w.db p h.valid));
    view_setnx = λ k v ttl w j p h.
        rw (setnx-connected k v (some ttl) w h) (r.view_set_nx w.clock k v ttl w.db j p h.valid);
    setnx_ok = λ k v ttl w p h.
        rw (setnx-connected k v (some ttl) w h)
          (stays w _ h (r.set_nx_valid w.clock k v ttl w.db p h.valid));
    set_true = λ k v ttl w h. rw (set-connected k v ttl w h);
    view_set_self = λ k v ttl w h.
        rw (set-connected k v ttl w h)
          (r.view_set_self w.clock k v (truthy R env ttl) w.db (truthy_ne_zero ttl) h.valid);
    view_set_ne = λ k v ttl w j h other.
        rw (set-connected k v ttl w h)
          (r.view_set_ne w.clock k v (truthy R env ttl) w.db j (truthy_ne_zero ttl) h.valid other);
    set_ok = λ k v ttl w h. rw (set-connected k v ttl w h) (
        stays w _ h (r.set_valid w.clock k v (truthy R env ttl) w.db (truthy_ne_zero ttl) h.valid));
    delete_done = λ k w h. rw (delete-connected k w h) ((R.delete w.clock k w.db).0, refl);
    view_delete = λ k w j h. rw (delete-connected k w h) (r.view_delete w.clock k j w.db h.valid);
    delete_ok =
        λ k w h. rw (delete-connected k w h) (stays w _ h (r.delete_valid w.clock k w.db h.valid));
    script = λ k j ttl w p h. inl (script_runs k j ttl w p h);
  }
