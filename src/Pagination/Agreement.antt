-- ===== src/Pagination/Agreement.antt =====
-- The two queries of the repository and the metadata of the transfer objects, compared.
use backend_prod_ready.Prelude.{
  List, if◌then◌else◌, ltb, take, ℕ, ◌+◌, ◌<◌, ◌==◌, ◌↔◌, ◌≡◌, ◌≤◌, Bool-cases, [], ap, arith, drop,
  false, inl, inr, length, length-drop, length-take, ltb→lt, lt→ltb, refl, suc, sym, zero, ◌*◌, ◌-◌,
  ◌∙◌, ◌∷◌,
}
use backend_prod_ready.Pagination.{
  HasRows, Query, create, pages_of, paginated_select_fast, paginated_select_with_metadata,
}
use backend_prod_ready.Pagination.Pages.{lt_pages_iff, take_all, pages_of-suc}
use native.Mathlib.Nat.{suc-mul, suc-add, div-eq_of_lt}

ltb_cong : (a b c d : ℕ) → (a < b) ↔ (c < d) → ltb a b ≡ ltb c d
ltb_cong a b c d (f, g) = elim (Bool-cases (ltb a b)) [
  | inl h ↦ rw (h, lt→ltb c d (f (ltb→lt a b h)))
  | inr h ↦ elim (Bool-cases (ltb c d)) [
    | inl k ↦ absurd (cc (sym h ∙ lt→ltb a b (g (ltb→lt c d k))))
    | inr k ↦ rw (h, k)
  ]
]

module _ {ℓ} {A : Type ℓ} where
  take-take_suc : (n : ℕ) (xs : List A) → take n (take (n + 1) xs) ≡ take n xs
  take-take_suc zero xs = refl
  take-take_suc (suc n) [] = rw (suc-add n 1)
  take-take_suc (suc n) (x ∷ xs) = rw (suc-add n 1) (ap (λ l. x ∷ l) (take-take_suc n xs))

  more_iff :
      (size n : ℕ) (rows : List A)
      → 1 ≤ size
      → (size < length (take (size + 1) (drop ((suc n - 1) * size) rows)))
        ↔ (suc n < pages_of (length rows) size)
  more_iff size n rows s =
      let later = lt_pages_iff (suc n) size (length rows) s (omega arith) in
      let shown = length-take (size + 1) (drop ((suc n - 1) * size) rows) in
      let left = length-drop ((suc n - 1) * size) rows in
      let before : (suc n - 1) * size ≡ n * size = ap (λ (m : ℕ). m * size) (omega arith) in
      (
        λ h. later.1 (omega (arith, shown, left, before, suc-mul n size)),
        λ h. omega (arith, later.0 h, shown, left, before, suc-mul n size),
      )

  -- The extra item shows whether more follow, and is dropped again.
  extra_item :
      (size : ℕ) (xs : List A)
      → (if ltb size (length (take (size + 1) xs))
          then take size (take (size + 1) xs)
          else take (size + 1) xs)
        ≡ take size xs
  extra_item size xs = elim (Bool-cases (ltb size (length (take (size + 1) xs)))) [
    | inl more ↦ rw more (take-take_suc size xs)
    | inr last ↦
        let short = short_rest size xs last in
        rw last (take_all (size + 1) xs (omega (arith, short)) ∙ sym (take_all size xs short))
  ]
    where
      short_rest :
          (size : ℕ) (xs : List A)
          → ltb size (length (take (size + 1) xs)) ≡ false
          → length xs ≤ size
      short_rest size xs h = ground (arith, length-take (size + 1) xs)

  -- On a statement with given rows, for a page and a size of at least 1, the fast query has the
  -- items, the next and the previous flag of the query with the count.
  pub fast-metadata :
      (q : Query A) (rows : List A) (size page : ℕ)
      → HasRows q rows
      → 1 ≤ size
      → 1 ≤ page
      → let fast = paginated_select_fast q size page in
        let full = paginated_select_with_metadata q size page in
        (fast.items ≡ full.items)
        × (fast.has_next ≡ full.has_next)
        × (fast.has_previous ≡ full.has_previous)
  unfolding paginated_select_fast paginated_select_with_metadata
  fast-metadata q rows size zero h s p = absurd (omega arith)
  fast-metadata q rows size (suc n) h s p =
      rw (h.select_rows, h.select_rows, h.count_rows)
        (
          extra_item size (drop ((suc n - 1) * size) rows),
          ltb_cong _ _ _ _ (more_iff size n rows s),
          refl,
        )

-- For a page and a size of at least 1: the metadata of the transfer object has the next flag of
-- the repository's, and its number of pages too, except that a result with no rows counts 0 pages
-- in the one and 1 in the other.
pub create-metadata :
    (page per_page total : ℕ)
    → 1 ≤ page
    → 1 ≤ per_page
    → let meta = create page per_page total in
      (meta.has_next ≡ ltb page (pages_of total per_page))
      × (meta.total_pages ≡ (if total == 0 then 0 else pages_of total per_page))
      × (pages_of 0 per_page ≡ 1)
unfolding create pages_of
create-metadata page per_page zero p s =
    ground (arith, div-eq_of_lt {n = 0 + per_page - 1} {m = per_page} (omega arith))
create-metadata page per_page (suc t) p s = ground (arith, pages_of-suc per_page t)
