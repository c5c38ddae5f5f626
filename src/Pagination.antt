-- ===== src/Pagination.antt =====
-- Pagination: the repository's two queries of backend/core/infrastructure/database/repositories/base.py
-- and the transfer objects of backend/core/api/dtos/pagination.py. Page numbers and sizes are at least
-- 1 where a theorem says so; the query of a page before the first has no meaning in SQL.
pub mod Pages
pub mod Agreement
use backend_prod_ready.Prelude.{
  Bool, List, Option, drop, if◌then◌else◌, leb, length, ltb, none, some, take, ℕ, ◌&&◌, ◌*◌, ◌+◌,
  ◌-◌, ◌/◌, ◌≡◌,
}

-- A select statement, as the database answers it: the count of its rows, and its rows with LIMIT and
-- OFFSET.
pub record Query {ℓ} (A : Type ℓ) : Type ℓ where
  pub count : Option ℕ
  pub select : ℕ → ℕ → List A

-- The statement has these rows, in its order.
pub record HasRows {ℓ} {A : Type ℓ} (q : Query A) (rows : List A) : Type ℓ where
  pub count_rows : q.count ≡ some (length rows)
  pub select_rows : (limit offset : ℕ) → q.select limit offset ≡ take limit (drop offset rows)

-- `PaginatedResult`; `none` stands for the -1 of an unknown total
pub record PaginatedResult {ℓ} (A : Type ℓ) : Type ℓ where
  pub items : List A
  pub current_page : ℕ
  pub total_pages : Option ℕ
  pub total_results : Option ℕ
  pub page_size : ℕ
  pub has_next : Bool
  pub has_previous : Bool

-- `count_result.scalar() or 0`
abbrev pub scalar_or_zero : Option ℕ → ℕ
scalar_or_zero none = 0
scalar_or_zero (some n) = n

-- The number of pages in `paginated_select_with_metadata`.
unfoldable pub pages_of : ℕ → ℕ → ℕ
pages_of total_results page_size =
    if ltb 0 total_results then (total_results + page_size - 1) / page_size else 1

module _ {ℓ} {A : Type ℓ} where
  -- `paginated_select_with_metadata`
  unfoldable pub paginated_select_with_metadata : Query A → ℕ → ℕ → PaginatedResult A
  unfolding pages_of
  paginated_select_with_metadata stmt page_size page_number =
      let total_results = scalar_or_zero stmt.count in
      let total_pages = pages_of total_results page_size in
      record {
        items = stmt.select page_size ((page_number - 1) * page_size);
        current_page = page_number;
        total_pages = some total_pages;
        total_results = some total_results;
        page_size = page_size;
        has_next = ltb page_number total_pages;
        has_previous = ltb 1 page_number;
      }

  -- `paginated_select_fast`
  unfoldable pub paginated_select_fast : Query A → ℕ → ℕ → PaginatedResult A
  paginated_select_fast stmt page_size page_number =
      let items = stmt.select (page_size + 1) ((page_number - 1) * page_size) in
      let has_next = ltb page_size (length items) in
      record {
        items = if has_next then take page_size items else items;
        current_page = page_number;
        total_pages = none;
        total_results = none;
        page_size = page_size;
        has_next = has_next;
        has_previous = ltb 1 page_number;
      }

-- `PaginationParams`
pub record PaginationParams : Type 0 where
  pub page : ℕ
  pub per_page : ℕ

-- The constraints of its fields: `ge=1`, and `ge=1, le=100`.
unfoldable pub make_params : ℕ → ℕ → Option PaginationParams
make_params page per_page =
    if leb 1 page && (leb 1 per_page && leb per_page 100)
    then some (record { page = page; per_page = per_page })
    else none

-- `PaginationParams.offset`
unfoldable pub offset : PaginationParams → ℕ
offset p = (p.page - 1) * p.per_page

-- `PaginationParams.limit`
unfoldable pub limit : PaginationParams → ℕ
limit p = p.per_page

-- `PaginationMeta`
pub record PaginationMeta : Type 0 where
  pub page : ℕ
  pub per_page : ℕ
  pub total : ℕ
  pub total_pages : ℕ
  pub has_next : Bool
  pub has_prev : Bool

-- `PaginationMeta.create`
unfoldable pub create : ℕ → ℕ → ℕ → PaginationMeta
create page per_page total =
    let total_pages = if ltb 0 per_page then (total + per_page - 1) / per_page else 0 in
    record {
      page = page;
      per_page = per_page;
      total = total;
      total_pages = total_pages;
      has_next = ltb page total_pages;
      has_prev = ltb 1 page;
    }
