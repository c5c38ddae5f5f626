-- ===== src/Cache/Memory/Lookup.antt =====
-- What one operation of the in-memory cache does to what another reader sees.
use backend_prod_ready.Prelude.{
  ℕ, ◌≤◌, Text, ◌≡◌, ◌⊎◌, false, Option, none, some, arith, text_eq, text_eq_iff, text_eq_refl,
  is_none, if◌then◌else◌, Bool-cases, inl, inr, Option-cases, take, length, leb, ◌/◌,
}
use backend_prod_ready.Dict.{find, put, keys, pop_all}
use backend_prod_ready.Dict.Laws.{
  Unique, find-put, find-pop_ne, find-pop_self, Unique-put, Unique-pop, Unique-pop_all,
  find-pop_all,
}
use backend_prod_ready.Cache.Memory.{
  Entry, Memory, is_expired, expiry_of, get, evict, set, setnx, holds, delete, view,
  cleanup_expired, stale_keys,
}

-- The keys of the dict are distinct.
abbrev pub IsDict : Memory → Type 0
IsDict m = Unique m.cache

module _ (now : ℕ) (key : Text) (m : Memory) where
  -- `get` returns what a reader sees.
  pub get-view : (get now key m).0 ≡ view now m key
  unfolding get view
  get-view = ground arith

  pub get-IsDict : IsDict m → IsDict (get now key m).1
  unfolding get
  get-IsDict u = elim (Option-cases (find key m.cache)) [
    | inl e ↦ rw e u
    | inr (x, e) ↦ rw e (elim (Bool-cases (is_expired x.expiry now)) [
      | inl late ↦ rw late (Unique-pop key m.cache u)
      | inr live ↦ rw live u
    ])
  ]

  -- The lazy removal in `get` is seen by nobody, then or later.
  pub view-get :
      (later : ℕ) (j : Text)
      → now ≤ later
      → IsDict m
      → view later (get now key m).1 j ≡ view later m j
  unfolding get view
  view-get later j le u =
      ground (arith, find-pop_ne key j m.cache, find-pop_self key m.cache u, text_eq_iff key j)

  -- `setnx` succeeds exactly if a reader sees nothing.
  pub setnx-view :
      (value : Text) (ttl : Option ℕ) → (setnx now key value ttl m).0 ≡ is_none (view now m key)
  unfolding setnx view
  setnx-view value ttl = ground arith

  -- After `setnx` a reader at any time sees under the key: the new value until it expires, if
  -- nothing was seen there when it ran, and else what was there. Other keys are as before.
  pub view-setnx :
      (value : Text) (ttl : Option ℕ) (later : ℕ) (j : Text)
      → view later (setnx now key value ttl m).1 j ≡ (
          if text_eq key j
          then (if is_none (view now m key)
              then (if is_expired (expiry_of now ttl) later then none else some value)
              else view later m j)
          else view later m j)
  unfolding setnx view
  view-setnx value ttl later j = ground (
    arith,
    find-put key j (record { value = value; expiry = expiry_of now ttl }) m.cache,
    text_eq_iff key j,
  )

  pub setnx-IsDict :
      (value : Text) (ttl : Option ℕ) → IsDict m → IsDict (setnx now key value ttl m).1
  unfolding setnx
  setnx-IsDict value ttl u = elim (Bool-cases (holds now (find key m.cache))) [
    | inl held ↦ rw held u
    | inr free ↦ rw free (Unique-put key _ m.cache u)
  ]

  pub view-delete :
      (j : Text)
      → IsDict m
      → view now (delete key m).1 j ≡ (if text_eq key j then none else view now m j)
  unfolding delete view
  view-delete j u =
      ground (arith, find-pop_ne key j m.cache, find-pop_self key m.cache u, text_eq_iff key j)

  pub delete-IsDict : IsDict m → IsDict (delete key m).1
  unfolding delete
  delete-IsDict u = elim (Bool-cases (is_none (find key m.cache))) [
    | inl absent ↦ rw absent u
    | inr there ↦ rw there (Unique-pop key m.cache u)
  ]

module _ (now : ℕ) (m : Memory) where
  cleanup_expired-IsDict : IsDict m → IsDict (cleanup_expired now m)
  unfolding cleanup_expired
  cleanup_expired-IsDict u = Unique-pop_all (stale_keys now m.cache) m.cache u

  pub evict-IsDict : IsDict m → IsDict (evict now m)
  unfolding evict
  evict-IsDict u =
      let cleaned = cleanup_expired now m in
      elim (Bool-cases (leb m.max_size (length m.cache))) [
        | inl full ↦ rw full (elim (Bool-cases (leb m.max_size (length cleaned.cache))) [
          | inl still ↦ rw still (Unique-pop_all _ cleaned.cache (cleanup_expired-IsDict u))
          | inr less ↦ rw less (cleanup_expired-IsDict u)
        ])
        | inr room ↦ rw room u
      ]

  -- Another key is left alone or evicted; its value is never changed.
  view-evict :
      (later : ℕ) (j : Text)
      → IsDict m
      → (view later (evict now m) j ≡ view later m j) ⊎ (view later (evict now m) j ≡ none)
  unfolding evict view cleanup_expired
  view-evict later j u =
      let ks = stale_keys now m.cache in
      let d = pop_all ks m.cache in
      let old = take (m.max_size / 10) (keys d) in
      ground
        (arith, find-pop_all ks j m.cache u, find-pop_all old j d (Unique-pop_all ks m.cache u))

view-put :
    (key : Text) (later : ℕ) (m : Memory) (e : Entry) (j : Text)
    → text_eq key j ≡ false
    → view later (record m { cache = put key e m.cache }) j ≡ view later m j
unfolding view
view-put key later m e j other = ground (arith, find-put key j e m.cache)

module _ (now : ℕ) (key value : Text) (ttl : Option ℕ) (m : Memory) where
  -- What `set` wrote is read back until it expires.
  pub view-set_self :
      (later : ℕ)
      → view later (set now key value ttl m).1 key
        ≡ (if is_expired (expiry_of now ttl) later then none else some value)
  unfolding set view
  view-set_self later = ground (
    arith,
    find-put key key (record { value = value; expiry = expiry_of now ttl }) (evict now m).cache,
    text_eq_refl key,
  )

  -- A `set` leaves what a reader at any time sees of another key of a dict alone, or evicts it;
  -- it never changes a value.
  pub view-set_ne :
      (later : ℕ) (j : Text)
      → IsDict m
      → text_eq key j ≡ false
      → (view later (set now key value ttl m).1 j ≡ view later m j)
        ⊎ (view later (set now key value ttl m).1 j ≡ none)
  unfolding set
  view-set_ne later j u other =
      let e : Entry = record { value = value; expiry = expiry_of now ttl } in
      rw (view-put key later (evict now m) e j other) (view-evict now m later j u)

  pub set-IsDict : IsDict m → IsDict (set now key value ttl m).1
  unfolding set
  set-IsDict u = Unique-put key _ (evict now m).cache (evict-IsDict now m u)
