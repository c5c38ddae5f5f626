-- ===== src/Cache/Store.antt =====
-- What the services above it use of `CacheService` (backend/core/infrastructure/cache/service.py):
-- its methods, and what they promise about the value that a reader sees under a key.
-- `Cache/Store/Fallback.antt` and `Cache/Store/Connected.antt` are about `CacheService` as such a cache.
pub mod Fallback
pub mod Connected
use backend_prod_ready.Prelude.{
  codes, ◌&&◌, Bool, Option, Text, false, if◌then◌else◌, is_none, none, some, text_eq, true, ℕ, ◌≡◌,
  ◌⊎◌, ◌<◌,
}
use backend_prod_ready.Exec.{Exec, ok}
use backend_prod_ready.Cache.Service.{CacheError}
use backend_prod_ready.Cache.Service.Methods.{LuaReply}

pub record CacheStore : Type 1 where
  pub State : Type 0
  pub get : Text → Exec State CacheError (Option Text)
  pub set : Text → Text → Option ℕ → Exec State CacheError Bool
  pub setnx : Text → Text → Option ℕ → Exec State CacheError Bool
  pub delete : Text → Exec State CacheError Bool
  -- `execute_lua_script` of the check, on the completed key, the in-progress key and the lifetime
  pub check_script : Text → Text → ℕ → Exec State CacheError (Option LuaReply)
  pub ping : Exec State CacheError Bool
  -- `_using_fallback and _in_memory_cache`
  pub in_fallback : State → Bool

-- What the script replies, from what is seen under the completed and the in-progress key.
abbrev pub reply_of : Option Text → Option Text → LuaReply
reply_of (some cached) marker = LuaReply.duplicate cached
reply_of none none = LuaReply.new
reply_of none (some _) = LuaReply.in_progress

-- The script ran: it replied by what was seen, it set the marker of a new request, and the cache is
-- alive.
pub record ScriptRuns (c : CacheStore) (view : c.State → Text → Option Text) (Ok : c.State → Type 0)
    (k j : Text) (ttl : ℕ) (s : c.State) : Type 0 where
  pub reply : (c.check_script k j ttl s).0 ≡ ok (some (reply_of (view s k) (view s j)))
  pub marks :
      (i : Text)
      → view (c.check_script k j ttl s).1 i ≡ (
          if is_none (view s k) && text_eq j i && is_none (view s i)
          then some (codes "1")
          else view s i)
  pub stays : Ok (c.check_script k j ttl s).1
  pub no_fallback : c.in_fallback (c.check_script k j ttl s).1 ≡ false
  pub alive : c.ping (c.check_script k j ttl s).1 ≡ (ok true, (c.check_script k j ttl s).1)

-- A cache whose methods all reach a store: what they do to the value that a reader sees under each
-- key, its `view`, from any state that is `Ok`, which they keep.
pub record IsFaithful (c : CacheStore) (view : c.State → Text → Option Text) (Ok : c.State → Type 0)
    : Type 0 where
  pub get_view : (k : Text) (s : c.State) → Ok s → (c.get k s).0 ≡ ok (view s k)
  pub view_get : (k j : Text) (s : c.State) → Ok s → view (c.get k s).1 j ≡ view s j
  pub get_ok : (k : Text) (s : c.State) → Ok s → Ok (c.get k s).1
  pub setnx_view :
      (k v : Text) (ttl : ℕ) (s : c.State)
      → 0 < ttl
      → Ok s
      → (c.setnx k v (some ttl) s).0 ≡ ok (is_none (view s k))
  pub view_setnx :
      (k v : Text) (ttl : ℕ) (s : c.State) (j : Text)
      → 0 < ttl
      → Ok s
      → view (c.setnx k v (some ttl) s).1 j
        ≡ (if text_eq k j then (if is_none (view s k) then some v else view s j) else view s j)
  pub setnx_ok :
      (k v : Text) (ttl : ℕ) (s : c.State) → 0 < ttl → Ok s → Ok (c.setnx k v (some ttl) s).1
  pub set_true : (k v : Text) (ttl : Option ℕ) (s : c.State) → Ok s → (c.set k v ttl s).0 ≡ ok true
  pub view_set_self :
      (k v : Text) (ttl : Option ℕ) (s : c.State) → Ok s → view (c.set k v ttl s).1 k ≡ some v
  -- Room for the new entry may be made by dropping another one.
  pub view_set_ne :
      (k v : Text) (ttl : Option ℕ) (s : c.State) (j : Text)
      → Ok s
      → text_eq k j ≡ false
      → (view (c.set k v ttl s).1 j ≡ view s j) ⊎ (view (c.set k v ttl s).1 j ≡ none)
  pub set_ok : (k v : Text) (ttl : Option ℕ) (s : c.State) → Ok s → Ok (c.set k v ttl s).1
  pub delete_done : (k : Text) (s : c.State) → Ok s → (b : Bool) × ((c.delete k s).0 ≡ ok b)
  pub view_delete :
      (k : Text) (s : c.State) (j : Text)
      → Ok s
      → view (c.delete k s).1 j ≡ (if text_eq k j then none else view s j)
  pub delete_ok : (k : Text) (s : c.State) → Ok s → Ok (c.delete k s).1
  -- The script runs as one command, or there is none and the fallback is active.
  pub script :
      (k j : Text) (ttl : ℕ) (s : c.State)
      → 0 < ttl
      → Ok s
      → ScriptRuns c view Ok k j ttl s
        ⊎ ((c.check_script k j ttl s ≡ (ok none, s)) × (c.in_fallback s ≡ true))
