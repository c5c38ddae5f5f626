-- ===== src/Examples/PaginationRuns.antt =====
-- The theorems on pagination at concrete inputs.
use backend_prod_ready.Prelude.{List, [], arith, drop, refl, some, take, ℕ, ◌∷◌, ◌≡◌}
use backend_prod_ready.Pagination.{
  HasRows, Query, pages_of, paginated_select_fast, paginated_select_with_metadata,
}
use backend_prod_ready.Pagination.Pages.{pages_complete, pages_up_to}
use backend_prod_ready.Pagination.Agreement.{fast-metadata}

abbrev five : List ℕ
five = 10 ∷ 20 ∷ 30 ∷ 40 ∷ 50 ∷ []

abbrev statement : Query ℕ
statement = record { count = some 5; select = λ limit offset. take limit (drop offset five) }

statement-HasRows : HasRows statement five
statement-HasRows = record { count_rows = refl; select_rows = λ limit offset. refl }

pages_complete_example : pages_up_to statement 2 (pages_of 5 2) ≡ five
pages_complete_example = pages_complete statement five 2 statement-HasRows (omega arith)

fast-metadata_example :
    let fast = paginated_select_fast statement 2 3 in
    let full = paginated_select_with_metadata statement 2 3 in
    (fast.items ≡ full.items)
    × (fast.has_next ≡ full.has_next)
    × (fast.has_previous ≡ full.has_previous)
fast-metadata_example =
    fast-metadata statement five 2 3 statement-HasRows (omega arith) (omega arith)
