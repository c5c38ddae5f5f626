-- ===== src/Cache/Json/Stored.antt =====
-- What `get_json` answers, in the fallback and over Redis.
use backend_prod_ready.Prelude.{
  Option, Text, refl, some, ℕ, ◌≡◌, ap, arith, none, codes, if◌then◌else◌, true,
}
use backend_prod_ready.Exec.{ok, raised}
use backend_prod_ready.Cache.Redis.{Redis, Reply, done, IsReliable}
use backend_prod_ready.Cache.Memory.{view}
use backend_prod_ready.Cache.Memory.Lookup.{get-view}
use backend_prod_ready.Cache.Service.{
  Environment, World, ensure_connected, fallback_memory, unexpected,
}
use backend_prod_ready.Cache.Store.Fallback.{
  InFallback, memory_of, service-IsFaithful, set-fallback,
}
use backend_prod_ready.Cache.Service.Methods
use backend_prod_ready.Cache.Service.Methods.{settle}
use backend_prod_ready.Cache.Store.Connected.{IsConnected, ensured}
use backend_prod_ready.Cache.Json.Restored.{PutsField, as_date, is_date, reads, restore_dates_lem}
use backend_prod_ready.Cache.Json.{
  object, JsonCodec, get_json, get_local, get_remote, set_local, read_json, restore_dates, set_json,
  uncaught, decode_error, execute_raising,
}

module _ (codec : JsonCodec) (R : Redis) (env : Environment)
    (protect : (A : Type 0) → (R.Db → Reply A × R.Db) → R.Db → Reply A × R.Db) where
  open codec use {Object, dumps, loads, value_at}

  get_json-local :
      (key : Text) (w : World R)
      → InFallback R env w
      → get_json codec R env protect key w ≡ get_local codec R env protect key w (memory_of R env w)
  unfolding get_json ensure_connected fallback_memory
  get_json-local key w h = ground arith

  get_json-fallback :
      (key : Text) (w : World R)
      → InFallback R env w
      → (get_json codec R env protect key w).0
        ≡ uncaught codec (read_json codec (view w.clock (memory_of R env w) key))
  unfolding get_local
  get_json-fallback key w h = rw (get_json-local key w h) (
      ap (λ (v : Option Text). uncaught codec (read_json codec v))
        (get-view w.clock key (memory_of R env w)))

  set_json-local :
      (key : Text) (value : Object) (ttl : Option ℕ) (w : World R)
      → InFallback R env w
      → set_json codec R env protect key value ttl w
        ≡ set_local codec R env protect key (dumps value) ttl w (memory_of R env w)
  unfolding set_json ensure_connected fallback_memory
  set_json-local key value ttl w h = ground arith

  set_json-fallback :
      (key : Text) (value : Object) (ttl : Option ℕ) (t : Text) (w : World R)
      → dumps value ≡ some t
      → InFallback R env w
      → set_json codec R env protect key value ttl w ≡ Methods.set R env key t ttl w
  unfolding set_local
  set_json-fallback key value ttl t w d h =
      rw (set_json-local key value ttl w h, d, set-fallback R env key t ttl w h) refl

  read_back :
      (key : Text) (value restored : Object) (ttl : Option ℕ) (t : Text) (w : World R)
      → dumps value ≡ some t
      → restore_dates codec (loads t) ≡ done restored
      → InFallback R env w
      → (get_json codec R env protect key (set_json codec R env protect key value ttl w).1).0
        ≡ ok (some restored)
  unfolding read_json
  read_back key value restored ttl t w d l h =
      let f = service-IsFaithful R env in
      rw
        (
          set_json-fallback key value ttl t w d h,
          get_json-fallback key (Methods.set R env key t ttl w).1 (f.set_ok key t ttl w h),
          f.view_set_self key t ttl w h,
          l,
        )
        refl

  -- In the fallback, after `set_json` of a dict that orjson serialises, and reads back as a dict whose
  -- texts under `created_at` and `updated_at` are dates: `get_json` answers with that dict, but with the
  -- datetimes in the place of those two texts, and every other field as it was read back.
  pub get_json-set_json :
      PutsField codec
      → (key : Text) (value loaded : Object) (ttl : Option ℕ) (t : Text) (w : World R)
      → dumps value ≡ some t
      → loads t ≡ object loaded
      → reads codec (value_at (codes "created_at") loaded) ≡ true
      → reads codec (value_at (codes "updated_at") loaded) ≡ true
      → InFallback R env w
      → (restored : Object) × ((get_json codec R env protect key
            (set_json codec R env protect key value ttl w).1).0
          ≡ ok (some restored))
        × ((field : Text)
            → value_at field restored ≡ (
                if is_date field
                then as_date codec (value_at field loaded)
                else value_at field loaded))
  get_json-set_json puts key value loaded ttl t w d l c u h =
      let (restored, dates, fields) = restore_dates_lem codec puts loaded c u in
      (restored, read_back key value restored ttl t w d (rw l dates) h, fields)

module _ (codec : JsonCodec) (R : Redis) (env : Environment)
    (protect : (A : Type 0) → (R.Db → Reply A × R.Db) → R.Db → Reply A × R.Db)
    {seen : ℕ → R.Db → Text → Option Text} {Valid : R.Db → Type 0} (r : IsReliable R seen Valid)
    (passes : (A : Type 0) (f : R.Db → Reply A × R.Db) (db : R.Db) → protect A f db ≡ f db) where
  open codec use {Object, dumps, loads}

  execute_raising-remote :
      {A : Type 0} (f : ℕ → R.Db → Reply A × R.Db) (a : A) (w : World R)
      → IsConnected R env r w
      → execute_raising codec R env protect f a w ≡ settle R a w (f w.clock w.db)
  unfolding execute_raising
  execute_raising-remote {A} f a w h =
      ground (arith, ensured R env r w h, h.client, passes A (f w.clock) w.db)

  get_json-remote :
      (key : Text) (w : World R)
      → IsConnected R env r w
      → get_json codec R env protect key w
        ≡ settle R none w (read_json codec (R.get w.clock key w.db).0, (R.get w.clock key w.db).1)
  unfolding get_json get_remote fallback_memory
  get_json-remote key w h = ground (
    arith,
    ensured R env r w h,
    h.no_fallback,
    execute_raising-remote (get_remote codec R env protect key) none w h,
  )

  -- A cached text that is not JSON: in the fallback `get_json` raises, and over Redis, through a circuit
  -- breaker that passes the operation on, it answers None.
  pub get_json_malformed :
      (key t : Text) (w w' : World R)
      → loads t ≡ decode_error
      → InFallback R env w
      → view w.clock (memory_of R env w) key ≡ some t
      → IsConnected R env r w'
      → seen w'.clock w'.db key ≡ some t
      → ((get_json codec R env protect key w).0 ≡ raised unexpected)
        × ((get_json codec R env protect key w').0 ≡ ok none)
  unfolding read_json settle
  get_json_malformed key t w w' bad h cached h' cached' = (
    rw (get_json-fallback codec R env protect key w h, cached, bad) refl,
    rw (get_json-remote key w' h', r.get_view w'.clock key w'.db h'.valid, cached', bad) refl,
  )
