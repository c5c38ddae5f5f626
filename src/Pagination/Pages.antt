-- ===== src/Pagination/Pages.antt =====
-- The pages of a statement, one after the other, against its rows.
use backend_prod_ready.Prelude.{
  List, [], ap, arith, drop, length, refl, suc, take, zero, zero-add, ℕ, ◌*◌, ◌++◌, ◌+◌, ◌<◌, ◌↔◌,
  ◌∙◌, ◌∷◌, ◌≡◌, ◌≤◌, sym, ◌-◌, ◌/◌, lt→ltb,
}
use native.Mathlib.Nat.{lt-div-mul-add, le-div_iff_mul-le, suc-mul, zero-mul, suc-add}
use backend_prod_ready.Pagination.{HasRows, Query, pages_of, paginated_select_with_metadata}

ceil-bound : (size total : ℕ) → 1 ≤ size → total ≤ (total + size - 1) / size * size
ceil-bound size total s = omega (arith, lt-div-mul-add {a = total + size - 1} {b = size} s)

lt-ceil_iff :
    (page size total : ℕ) → 1 ≤ size → (page < (total + size - 1) / size) ↔ (page * size < total)
lt-ceil_iff page size total s =
    let e = le-div_iff_mul-le {k = size} {x = suc page} {y = total + size - 1} s in
    (λ h. omega (arith, e.0 h, suc-mul page size), λ h. e.1 (omega (arith, suc-mul page size)))

pub pages_of-suc : (size t : ℕ) → pages_of (suc t) size ≡ (suc t + size - 1) / size
unfolding pages_of
pages_of-suc size t = rw (lt→ltb 0 (suc t) (omega arith))

pages_of-bound : (size total : ℕ) → 1 ≤ size → total ≤ pages_of total size * size
unfolding pages_of
pages_of-bound size zero s = omega arith
pages_of-bound size (suc t) s = rw (pages_of-suc size t) (ceil-bound size (suc t) s)

-- A row lies beyond a page exactly if there is a later page.
pub lt_pages_iff :
    (page size total : ℕ)
    → 1 ≤ size
    → 1 ≤ page
    → (page < pages_of total size) ↔ (page * size < total)
unfolding pages_of
lt_pages_iff page size zero s p = (λ h. absurd (omega arith), λ h. absurd (omega arith))
lt_pages_iff page size (suc t) s p = rw (pages_of-suc size t) (lt-ceil_iff page size (suc t) s)

module _ {ℓ} {A : Type ℓ} where
  take_nil : (n : ℕ) → take {A = A} n [] ≡ []
  take_nil zero = refl
  take_nil (suc n) = refl

  take-add : (m n : ℕ) (xs : List A) → take (m + n) xs ≡ take m xs ++ take n (drop m xs)
  take-add zero n xs = rw (zero-add n)
  take-add (suc m) n [] = take_nil (suc m + n) ∙ sym (take_nil n)
  take-add (suc m) n (x ∷ xs) = rw (suc-add m n) (ap (λ l. x ∷ l) (take-add m n xs))

  pub take_all : (n : ℕ) (xs : List A) → length xs ≤ n → take n xs ≡ xs
  take_all zero [] h = refl
  take_all zero (x ∷ xs) h = absurd (omega arith)
  take_all (suc n) [] h = refl
  take_all (suc n) (x ∷ xs) h = ap (λ l. x ∷ l) (take_all n xs (omega arith))

  -- The items of pages 1 to n, in order.
  unfoldable pub pages_up_to : Query A → ℕ → ℕ → List A
  pages_up_to q size zero = []
  pages_up_to q size (suc n) =
      pages_up_to q size n ++ (paginated_select_with_metadata q size (suc n)).items

  pages_up_to-take :
      (q : Query A) (rows : List A) (size n : ℕ)
      → HasRows q rows
      → pages_up_to q size n ≡ take (n * size) rows
  unfolding pages_up_to paginated_select_with_metadata
  pages_up_to-take q rows size zero h = rw (zero-mul size)
  pages_up_to-take q rows size (suc n) h =
      rw (pages_up_to-take q rows size n h, h.select_rows, before n, suc-mul n size)
        (sym (take-add (n * size) size rows))
    where
      before : (n : ℕ) → suc n - 1 ≡ n
      before n = omega arith

  -- For a size of at least 1, the pages that the metadata counts hold every row of the statement
  -- once, in order.
  pub pages_complete :
      (q : Query A) (rows : List A) (size : ℕ)
      → HasRows q rows
      → 1 ≤ size
      → pages_up_to q size (pages_of (length rows) size) ≡ rows
  pages_complete q rows size h s =
      pages_up_to-take q rows size (pages_of (length rows) size) h
      ∙ take_all (pages_of (length rows) size * size) rows (pages_of-bound size (length rows) s)
