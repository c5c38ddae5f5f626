-- ===== src/Cache/Memory/Capacity.antt =====
-- How many entries the in-memory cache holds after a write, and after a deletion by pattern.
use backend_prod_ready.Prelude.{
  Bool, Bool-cases, List, Option, Text, [], all, ap, arith, false, inl, inr, keep, length,
  length-drop, none, not, refl, text_eq, text_eq_iff, text_eq_refl, true, ℕ, ◌+◌, ◌/◌, ◌∙◌, ◌∷◌,
  ◌≡◌, ◌≤◌,
}
use backend_prod_ready.Dict.{Dict, find, keys, pop, pop_all}
use backend_prod_ready.Dict.Laws.{length-pop_all-le, length-put-le, length-put_fresh, pop_all-take}
use backend_prod_ready.Cache.Memory.{
  Entry, Memory, cleanup_expired, delete_pattern, evict, expiry_of, set, setnx, stale_keys,
}

cleanup_expired-size :
    (now : ℕ) (m : Memory) → length (cleanup_expired now m).cache ≤ length m.cache
unfolding cleanup_expired
cleanup_expired-size now m = length-pop_all-le (stale_keys now m.cache) m.cache

-- A full cache that is not over its bound loses at least one entry.
evict-size :
    (now : ℕ) (m : Memory)
    → 10 ≤ m.max_size
    → length m.cache ≤ m.max_size
    → length (evict now m).cache + 1 ≤ m.max_size
unfolding evict
evict-size now m big fits =
    let cleaned = cleanup_expired now m in
    ground (
      arith,
      cleanup_expired-size now m,
      pop_all-take (m.max_size / 10) cleaned.cache,
      length-drop (m.max_size / 10) cleaned.cache,
    )

-- If the cache may hold at least ten entries, a `set` from within the bound stays within it.
pub set-size_bound :
    (now : ℕ) (key value : Text) (ttl : Option ℕ) (m : Memory)
    → 10 ≤ m.max_size
    → length m.cache ≤ m.max_size
    → length (set now key value ttl m).1.cache ≤ m.max_size
unfolding set
set-size_bound now key value ttl m big fits = omega (
  arith,
  evict-size now m big fits,
  length-put-le key (record { value = value; expiry = expiry_of now ttl }) (evict now m).cache,
)

-- `setnx` of a key that the dict does not hold makes the dict longer, however full it is.
pub setnx-size :
    (now : ℕ) (key value : Text) (ttl : Option ℕ) (m : Memory)
    → find key m.cache ≡ none
    → ((setnx now key value ttl m).0 ≡ true)
      × (length (setnx now key value ttl m).1.cache ≡ length m.cache + 1)
unfolding setnx
setnx-size now key value ttl m fresh = rw fresh (
  refl,
  length-put_fresh key (record { value = value; expiry = expiry_of now ttl }) m.cache fresh,
)

module _ (matches : Text → Bool) where
  pop_all-skip :
      (ks : List Text) (k : Text) (e : Entry) (d : Dict Entry)
      → matches k ≡ false
      → all matches ks ≡ true
      → pop_all ks ((k, e) ∷ d) ≡ (k, e) ∷ pop_all ks d
  unfolding pop_all pop
  pop_all-skip [] k e d no_match hits = refl
  pop_all-skip (i ∷ ks) k e d no_match hits = elim (Bool-cases (text_eq k i)) [
    | inl same ↦ absurd (cc ((text_eq_iff k i).0 same))
    | inr other ↦ rw other (pop_all-skip ks k e (pop i d) no_match (ground arith))
  ]

  all-keep : (ks : List Text) → all matches (keep matches ks) ≡ true
  all-keep [] = refl
  all-keep (k ∷ ks) = ground (arith, all-keep ks)

  pop_head : (k : Text) (e : Entry) (d : Dict Entry) → pop k ((k, e) ∷ d) ≡ d
  unfolding pop
  pop_head k e d = rw (text_eq_refl k)

  pop_all-keep :
      (d : Dict Entry) → pop_all (keep matches (keys d)) d ≡ keep (λ e. not (matches e.0)) d
  unfolding keys pop_all
  pop_all-keep [] = unfold pop_all in refl
  pop_all-keep ((k, e) ∷ d) = elim (Bool-cases (matches k)) [
    | inl hit ↦ rw hit (ap (pop_all (keep matches (keys d))) (pop_head k e d) ∙ pop_all-keep d)
    | inr miss ↦ rw miss (
        pop_all-skip (keep matches (keys d)) k e d miss (all-keep (keys d))
        ∙ ap (λ r. (k, e) ∷ r) (pop_all-keep d))
  ]

  length-keep-split :
      (d : Dict Entry)
      → length (keep matches (keys d)) + length (keep (λ e. not (matches e.0)) d) ≡ length d
  unfolding keys
  length-keep-split [] = omega arith
  length-keep-split ((k, e) ∷ d) = ground (arith, length-keep-split d)

  -- `delete_pattern` keeps exactly the entries whose key does not match, in their order, and
  -- returns the number of those that it removed.
  pub delete_pattern_exact :
      (m : Memory)
      → ((delete_pattern matches m).1.cache ≡ keep (λ e. not (matches e.0)) m.cache)
        × ((delete_pattern matches m).0 + length (delete_pattern matches m).1.cache
            ≡ length m.cache)
  unfolding delete_pattern
  delete_pattern_exact m = (pop_all-keep m.cache, rw pop_all-keep (length-keep-split m.cache))
