-- ===== src/Dict/Laws.antt =====
-- The laws of `find`, `put` and `pop`, and the distinctness of the keys.
use backend_prod_ready.Prelude.{
  ℕ, zero, suc, ◌+◌, ◌≤◌, Text, ◌≡◌, refl, Bool, true, false, none, some, List, [], ◌∷◌, arith,
  text_eq, text_eq_iff, text_eq_refl, length, take, drop, keep, is_none, if◌then◌else◌, Bool-cases,
  inl, inr, ◌⊎◌, subst,
}
use backend_prod_ready.Dict.{Dict, find, put, pop, keys, pop_all}

abbrev pub Unique {ℓ} : {V : Type ℓ} → Dict V → Type ℓ
Unique [] = Unit
Unique ((k, v) ∷ d) = (is_none (find k d) ≡ true) × Unique d

module _ {ℓ} {V : Type ℓ} where
  pub find-put :
      (k j : Text) (v : V) (d : Dict V)
      → find j (put k v d) ≡ (if text_eq k j then some v else find j d)
  unfolding find put
  find-put k j v [] = refl
  find-put k j v ((i, w) ∷ d) =
      ground (arith, text_eq_iff k j, text_eq_iff i k, text_eq_iff i j, find-put k j v d)

  pub find-put_self : (k : Text) (v : V) (d : Dict V) → find k (put k v d) ≡ some v
  find-put_self k v d = rw (find-put, text_eq_refl k)

  pub find-pop_ne : (k j : Text) (d : Dict V) → text_eq k j ≡ false → find j (pop k d) ≡ find j d
  unfolding find pop
  find-pop_ne k j [] h = refl
  find-pop_ne k j ((i, v) ∷ d) h =
      ground (arith, text_eq_iff k j, text_eq_iff i k, text_eq_iff i j, find-pop_ne k j d)

  pub find-pop_self : (k : Text) (d : Dict V) → Unique d → is_none (find k (pop k d)) ≡ true
  unfolding find pop
  find-pop_self k [] u = refl
  find-pop_self k ((i, v) ∷ d) u = ground (arith, text_eq_iff i k, find-pop_self k d)

  is_none-put :
      (k j : Text) (v : V) (d : Dict V)
      → text_eq j k ≡ false
      → is_none (find j d) ≡ true
      → is_none (find j (put k v d)) ≡ true
  is_none-put k j v d h n = ground (arith, find-put k j v d, text_eq_iff k j, text_eq_iff j k)

  pub Unique-put : (k : Text) (v : V) (d : Dict V) → Unique d → Unique (put k v d)
  unfolding put
  Unique-put k v [] u = (unfold find in refl, tt)
  Unique-put k v ((i, w) ∷ d) u = elim (Bool-cases (text_eq i k)) [
    | inl same ↦ rw same u
    | inr other ↦ rw other (is_none-put k i v d other u.0, Unique-put k v d u.1)
  ]

  is_none-pop :
      (k j : Text) (d : Dict V) → is_none (find j d) ≡ true → is_none (find j (pop k d)) ≡ true
  unfolding find pop
  is_none-pop k j [] n = refl
  is_none-pop k j ((i, v) ∷ d) n = ground (arith, is_none-pop k j d)

  pub Unique-pop : (k : Text) (d : Dict V) → Unique d → Unique (pop k d)
  unfolding pop
  Unique-pop k [] u = tt
  Unique-pop k ((i, v) ∷ d) u = elim (Bool-cases (text_eq i k)) [
    | inl same ↦ rw same u.1
    | inr other ↦ rw other (is_none-pop k i d u.0, Unique-pop k d u.1)
  ]

  pub Unique-pop_all : (ks : List Text) (d : Dict V) → Unique d → Unique (pop_all ks d)
  unfolding pop_all
  Unique-pop_all [] d u = u
  Unique-pop_all (k ∷ ks) d u = Unique-pop_all ks (pop k d) (Unique-pop k d u)

  -- Deleting the first keys in insertion order drops the oldest entries.
  pub pop_all-take : (n : ℕ) (d : Dict V) → pop_all (take n (keys d)) d ≡ drop n d
  unfolding pop_all keys pop
  pop_all-take zero d = refl
  pop_all-take (suc n) [] = refl
  pop_all-take (suc n) ((k, v) ∷ d) = rw (text_eq_refl k) (pop_all-take n d)

  pub length-put-le : (k : Text) (v : V) (d : Dict V) → length (put k v d) ≤ length d + 1
  unfolding put
  length-put-le k v [] = omega arith
  length-put-le k v ((i, w) ∷ d) = ground (arith, length-put-le k v d)

  pub length-put_fresh :
      (k : Text) (v : V) (d : Dict V) → find k d ≡ none → length (put k v d) ≡ length d + 1
  unfolding put find
  length-put_fresh k v [] h = omega arith
  length-put_fresh k v ((i, w) ∷ d) h = ground (arith, length-put_fresh k v d)

  -- What a deletion can do to another reader: nothing, or remove the entry.
  pub find-drop :
      (n : ℕ) (j : Text) (d : Dict V)
      → Unique d
      → (x : V) → find j (drop n d) ≡ some x
      → find j d ≡ some x
  unfolding find
  find-drop zero j d u x h = h
  find-drop (suc n) j [] u x h = h
  find-drop (suc n) j ((i, w) ∷ d) u x h = ground (arith, find-drop n j d u.1 x h, text_eq_iff i j)

module _ {ℓ} {V : Type ℓ} (p : (Text × V) → Bool) where
  is_none-keep :
      (j : Text) (d : Dict V) → is_none (find j d) ≡ true → is_none (find j (keep p d)) ≡ true
  unfolding find
  is_none-keep j [] n = refl
  is_none-keep j ((i, v) ∷ d) n = ground (arith, is_none-keep j d)

  pub Unique-keep : (d : Dict V) → Unique d → Unique (keep p d)
  Unique-keep [] u = tt
  Unique-keep ((i, v) ∷ d) u = elim (Bool-cases (p (i, v))) [
    | inl kept ↦ rw kept (is_none-keep i d u.0, Unique-keep d u.1)
    | inr gone ↦ rw gone (Unique-keep d u.1)
  ]

  -- Filtering keeps exactly the entries that pass.
  pub find-keep :
      (j : Text) (d : Dict V)
      → Unique d
      → find j (keep p d)
        ≡ elim (find j d) [ none ↦ none | some v ↦ if p (j, v) then some v else none ]
  unfolding find
  find-keep j [] u = refl
  find-keep j ((i, v) ∷ d) u = ground (arith, text_eq_iff i j, find-keep j d u.1, is_none-keep i d)

module _ {ℓ} {V : Type ℓ} where
  is_none-pop_all :
      (ks : List Text) (j : Text) (d : Dict V)
      → is_none (find j d) ≡ true
      → is_none (find j (pop_all ks d)) ≡ true
  unfolding pop_all
  is_none-pop_all [] j d n = n
  is_none-pop_all (k ∷ ks) j d n = is_none-pop_all ks j (pop k d) (is_none-pop k j d n)

  -- A deletion leaves another key as it was, or removes it: it never changes a value.
  pub find-pop_all :
      (ks : List Text) (j : Text) (d : Dict V)
      → Unique d
      → (find j (pop_all ks d) ≡ find j d) ⊎ (is_none (find j (pop_all ks d)) ≡ true)
  unfolding pop_all
  find-pop_all [] j d u = inl refl
  find-pop_all (k ∷ ks) j d u = elim (Bool-cases (text_eq k j)) [
    | inl same ↦ inr (
        is_none-pop_all ks j (pop k d) (
          subst (λ i. is_none (find i (pop k d)) ≡ true) ((text_eq_iff k j).0 same)
            (find-pop_self k d u)))
    | inr other ↦ rw (← find-pop_ne k j d other) (find-pop_all ks j (pop k d) (Unique-pop k d u))
  ]

  length-pop-le : (k : Text) (d : Dict V) → length (pop k d) ≤ length d
  unfolding pop
  length-pop-le k [] = omega arith
  length-pop-le k ((i, v) ∷ d) = ground (arith, length-pop-le k d)

  pub length-pop_all-le : (ks : List Text) (d : Dict V) → length (pop_all ks d) ≤ length d
  unfolding pop_all
  length-pop_all-le [] d = omega arith
  length-pop_all-le (k ∷ ks) d = omega (arith, length-pop-le k d, length-pop_all-le ks (pop k d))
