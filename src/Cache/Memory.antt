-- ===== src/Cache/Memory.antt =====
-- `InMemoryCache` of backend/core/infrastructure/cache/service.py. Every method holds the lock from
-- its first to its last line, so it is one step; `now` is the clock that it reads, and a method
-- returns its result beside the new object. Python's `None` for an expiry is `none`.
pub mod Lookup
pub mod Capacity
use backend_prod_ready.Prelude.{
  ℕ, zero, suc, ◌+◌, ◌/◌, Text, Bool, true, false, not, ◌&&◌, Option, none, some, List, [], ◌∷◌,
  ltb, leb, ◌==◌, if◌then◌else◌, length, take, keep, map, is_none,
}
use backend_prod_ready.Dict
use backend_prod_ready.Dict.{Dict, find, put, pop, keys, pop_all}

-- (value, expiry_timestamp)
pub record Entry : Type 0 where
  pub value : Text
  pub expiry : Option ℕ

pub record Memory : Type 0 where
  pub cache : Dict Entry
  pub max_size : ℕ

-- `InMemoryCache(max_size)`
unfoldable pub new : ℕ → Memory
new max_size = record { cache = []; max_size = max_size }

-- `_is_expired`
unfoldable pub is_expired : Option ℕ → ℕ → Bool
is_expired none now = false
is_expired (some t) now = ltb t now

-- The test `exp and now > exp` of `_cleanup_expired`: an expiry of 0 counts as no expiry.
unfoldable pub is_stale : Option ℕ → ℕ → Bool
is_stale none now = false
is_stale (some t) now = not (t == 0) && ltb t now

stale_keys : ℕ → Dict Entry → List Text
unfolding is_stale
stale_keys now [] = []
stale_keys now ((k, e) ∷ d) =
    let rest = stale_keys now d in if is_stale e.expiry now then k ∷ rest else rest

-- `_cleanup_expired`
unfoldable pub cleanup_expired : ℕ → Memory → Memory
unfolding stale_keys
cleanup_expired now m = record m { cache = pop_all (stale_keys now m.cache) m.cache }

get_entry : ℕ → Text → Option Entry → Memory → Option Text × Memory
unfolding is_expired
get_entry now key none m = (none, m)
get_entry now key (some e) m =
    if is_expired e.expiry now
    then (none, record m { cache = pop key m.cache })
    else (some e.value, m)

-- `get`
unfoldable pub get : ℕ → Text → Memory → Option Text × Memory
unfolding get_entry
get now key m = get_entry now key (find key m.cache) m

-- `time.time() + ttl if ttl else None`
unfoldable pub expiry_of : ℕ → Option ℕ → Option ℕ
expiry_of now none = none
expiry_of now (some ttl) = if ttl == 0 then none else some (now + ttl)

-- The eviction at the head of `set`: first what has expired, then a tenth of the entries, oldest
-- first, if that was not enough.
unfoldable pub evict : ℕ → Memory → Memory
unfolding cleanup_expired
evict now m =
    if leb m.max_size (length m.cache)
    then (let cleaned = cleanup_expired now m in
        if leb m.max_size (length cleaned.cache)
        then record m {
          cache = pop_all (take (m.max_size / 10) (keys cleaned.cache)) cleaned.cache;
        }
        else cleaned)
    else m

-- `set`
unfoldable pub set : ℕ → Text → Text → Option ℕ → Memory → Bool × Memory
unfolding expiry_of
set now key value ttl m =
    let m' = evict now m in
    (
      true,
      record m' { cache = put key (record { value = value; expiry = expiry_of now ttl }) m'.cache },
    )

-- The test at the head of `setnx`: an entry that has not expired.
unfoldable pub holds : ℕ → Option Entry → Bool
unfolding is_expired
holds now none = false
holds now (some e) = not (is_expired e.expiry now)

-- `setnx`
unfoldable pub setnx : ℕ → Text → Text → Option ℕ → Memory → Bool × Memory
unfolding holds expiry_of
setnx now key value ttl m = if holds now (find key m.cache) then (false, m) else (
  true,
  record m { cache = put key (record { value = value; expiry = expiry_of now ttl }) m.cache },
)

-- `delete`
unfoldable pub delete : Text → Memory → Bool × Memory
delete key m =
    if is_none (find key m.cache) then (false, m) else (true, record m { cache = pop key m.cache })

-- `delete_pattern`, over the test `fnmatch.fnmatch(key, pattern)`
unfoldable pub delete_pattern : (Text → Bool) → Memory → ℕ × Memory
delete_pattern matches m =
    let hits = keep matches (keys m.cache) in
    (length hits, record m { cache = pop_all hits m.cache })

-- `close`
unfoldable pub close : Memory → Memory
close m = record m { cache = [] }

-- What a reader sees of a key at a time: the value of an entry that has not expired.
unfoldable pub view : ℕ → Memory → Text → Option Text
unfolding is_expired
view now m key = elim (find key m.cache) [
  | none ↦ none
  | some e ↦ if is_expired e.expiry now then none else some e.value
]
