-- ===== src/Idempotency/Keys.antt =====
-- The cache keys of the idempotency service: which requests share one.
use backend_prod_ready.Prelude.{
  Bool, Bool-cases, Option, Text, [], all, ap, arith, codes, inl, inr, leb, length, length-append,
  none, refl, some, sym, true, ℕ, ◌&&◌, ◌++◌, ◌||◌, ◌↔◌, ◌∙◌, ◌∷◌, ◌≡◌, ◌≢◌, append_assoc, ap₂,
  false, text_eq, ◌+◌, text_eq_iff,
}
use backend_prod_ready.Idempotency.{Codec, build_key, build_in_progress_key, cache_prefix}

-- The characters of a lower-case hexadecimal digest.
abbrev pub is_hex : ℕ → Bool
is_hex c = (leb b'0' c && leb c b'9') || (leb b'a' c && leb c b'f')

-- `hexdigest()` of SHA-256 is 64 hexadecimal digits.
pub record HasHexDigest (codec : Codec) : Type 0 where
  pub digest_length : (t : Text) → length (codec.sha256 t) ≡ 64
  pub digest_hex : (t : Text) → all is_hex (codec.sha256 t) ≡ true

-- None and the empty text name the same namespace.
abbrev pub namespace_of : Option Text → Text
namespace_of none = []
namespace_of (some namespace) = namespace

last : ℕ → Text → ℕ
last c [] = c
last c (d ∷ s) = last d s

last-append : (c d : ℕ) (s t : Text) → last c (s ++ d ∷ t) ≡ last d t
unfolding last
last-append c d [] t = refl
last-append c d (e ∷ s) t = last-append e d s t

last_hex : (c : ℕ) (s : Text) → is_hex c ≡ true → all is_hex s ≡ true → is_hex (last c s) ≡ true
unfolding last
last_hex c [] h a = h
last_hex c (d ∷ s) h a = elim (Bool-cases (is_hex d)) [
  | inl hex ↦ last_hex d s hex (ground arith)
  | inr other ↦ absurd (cc (rw other at a))
]

append_cancel : (p s t : Text) → p ++ s ≡ p ++ t → s ≡ t
append_cancel [] s t e = e
append_cancel (c ∷ p) s t e = append_cancel p s t (ground (arith, e))

-- Two texts with a common end of one length split in the same way.
append_split : (p q s t : Text) → length s ≡ length t → p ++ s ≡ q ++ t → (p ≡ q) × (s ≡ t)
append_split [] [] s t l e = (refl, e)
append_split [] (d ∷ q) s t l e = absurd (omega (arith, ap length e, length-append {0} q t))
append_split (c ∷ p) [] s t l e = absurd (omega (arith, ap length e, length-append {0} p s))
append_split (c ∷ p) (d ∷ q) s t l e =
    let (same, ends) = append_split p q s t l (ground (arith, e)) in (ground (arith, e, same), ends)

-- What follows the prefix, from the digest and the namespace.
hash_part : Text → Text → Text
hash_part digest [] = digest
hash_part digest (c ∷ namespace) = (c ∷ namespace) ++ (codes ":" ++ digest)

length-hash_part_nil : (h : Text) → length (hash_part h []) ≡ length h
unfolding hash_part
length-hash_part_nil h = refl

length-hash_part_cons :
    (h : Text) (c : ℕ) (n : Text) → length (hash_part h (c ∷ n)) ≡ length n + length h + 2
unfolding hash_part
length-hash_part_cons h c n = omega (arith, length-append {0} n (codes ":" ++ h))

hash_part_eq :
    (g h m n : Text) → length g ≡ length h → hash_part g m ≡ hash_part h n → (m ≡ n) × (g ≡ h)
unfolding hash_part
hash_part_eq g h [] [] l e = (refl, e)
hash_part_eq g h [] (d ∷ n) l e =
    absurd (omega (arith, l, ap length e, length-hash_part_nil g, length-hash_part_cons h d n))
hash_part_eq g h (c ∷ m) [] l e =
    absurd (omega (arith, l, ap length e, length-hash_part_cons g c m, length-hash_part_nil h))
hash_part_eq g h (c ∷ m) (d ∷ n) l e =
    let (same, ends) =
      append_split (c ∷ m) (d ∷ n) (codes ":" ++ g) (codes ":" ++ h) (omega (arith, l)) e in
    (same, append_cancel (codes ":") g h ends)

last_digest : (s h : Text) → length h ≡ 64 → all is_hex h ≡ true → is_hex (last 0 (s ++ h)) ≡ true
last_digest s [] l a = absurd (omega (arith, l))
last_digest s (d ∷ t) l a = rw last-append (elim (Bool-cases (is_hex d)) [
  | inl hex ↦ last_hex d t hex (ground (arith, a, hex))
  | inr other ↦ absurd (cc (rw other at a))
])

hash_part_ends : (h m : Text) → (s : Text) × (hash_part h m ≡ s ++ h)
unfolding hash_part
hash_part_ends h [] = ([], refl)
hash_part_ends h (c ∷ m) = ((c ∷ m) ++ codes ":", sym (append_assoc (c ∷ m) (codes ":") h))

module _ (codec : Codec) where
  open codec use {sha256}

  build_key_parts :
      (key : Text) (namespace : Option Text)
      → build_key codec key namespace
        ≡ (cache_prefix ++ codes ":") ++ hash_part (sha256 key) (namespace_of namespace)
  unfolding build_key hash_part
  build_key_parts key none = refl
  build_key_parts key (some []) = refl
  build_key_parts key (some (c ∷ namespace)) = refl

module _ (codec : Codec) (hex : HasHexDigest codec) where
  open codec use {sha256}

  -- Two requests share a cache key exactly if they have the same namespace, None and the empty text
  -- being one, and their keys have the same SHA-256 digest.
  pub build_key_eq :
      (k l : Text) (m n : Option Text)
      → (build_key codec k m ≡ build_key codec l n)
        ↔ ((namespace_of m ≡ namespace_of n) × (sha256 k ≡ sha256 l))
  build_key_eq k l m n = (
    λ e.
        hash_part_eq (sha256 k) (sha256 l) (namespace_of m) (namespace_of n)
          (omega (arith, hex.digest_length k, hex.digest_length l))
          (append_cancel (cache_prefix ++ codes ":") _ _
            (sym (build_key_parts codec k m) ∙ e ∙ build_key_parts codec l n)),
    λ p.
        build_key_parts codec k m
        ∙ ap₂ (λ h n. (cache_prefix ++ codes ":") ++ hash_part h n) p.1 p.0
        ∙ sym (build_key_parts codec l n),
  )

  build_key_hex : (k : Text) (m : Option Text) → is_hex (last 0 (build_key codec k m)) ≡ true
  build_key_hex k m =
      let (s, e) = hash_part_ends (sha256 k) (namespace_of m) in
      rw (build_key_parts codec k m, e, ← append_assoc (cache_prefix ++ codes ":") s (sha256 k))
        (last_digest (cache_prefix ++ codes ":" ++ s) (sha256 k) (hex.digest_length k)
          (hex.digest_hex k))

  marker_hex :
      (k : Text) (m : Option Text) → is_hex (last 0 (build_in_progress_key codec k m)) ≡ false
  unfolding build_in_progress_key last
  marker_hex k m = rw (last-append 0 b':' (build_key codec k m) (codes "in_progress"))

  -- The completed key of a request is never the in-progress marker of any request.
  pub build_key-ne-marker :
      (k l : Text) (m n : Option Text) → build_key codec k m ≢ build_in_progress_key codec l n
  build_key-ne-marker k l m n e =
      cc (build_key_hex k m, marker_hex l n, ap (λ t. is_hex (last 0 t)) e)

  -- The same, as the caches test it.
  pub marker-ne-build_key :
      (k l : Text) (m n : Option Text)
      → text_eq (build_in_progress_key codec l n) (build_key codec k m) ≡ false
  marker-ne-build_key k l m n =
      elim (Bool-cases (text_eq (build_in_progress_key codec l n) (build_key codec k m))) [
        | inl same ↦ absurd (build_key-ne-marker k l m n (sym ((text_eq_iff _ _).0 same)))
        | inr other ↦ other
      ]
