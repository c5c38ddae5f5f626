-- ===== src/Idempotency/Stuck.antt =====
-- The markers that stay: `get_stuck_in_progress_count` and `cleanup_stuck_in_progress` of
-- backend/core/infrastructure/idempotency/service.py, over the Redis client of the cache. Python's
-- loops are on fuel, and out of it they give none.
pub mod Cleaned
pub mod Deleted
use backend_prod_ready.Prelude.{
  Bool, List, Option, Text, [], codes, false, if◌then◌else◌, is_empty, leb, length, ltb, none, not,
  some, suc, true, zero, ℕ, ◌++◌, ◌+◌, ◌==◌, ◌||◌, ◌∷◌,
}
use backend_prod_ready.Idempotency.{cache_prefix, in_progress_suffix}
use backend_prod_ready.Cache.Service.{Service}
use backend_prod_ready.Cache.Scan.{Scanning}

-- The pattern of both.
unfoldable pub stuck_pattern : Option Text → Text
stuck_pattern none = cache_prefix ++ codes ":*" ++ in_progress_suffix
stuck_pattern (some namespace) =
    if is_empty namespace
    then cache_prefix ++ codes ":*" ++ in_progress_suffix
    else cache_prefix ++ codes ":" ++ namespace ++ codes ":*" ++ in_progress_suffix

-- A count, where -1 stands for unknown.
pub data Count : Type 0 where
  unknown : Count
  known : ℕ → Count

-- `self._cache._using_fallback or not self._cache._is_redis_available()`
abbrev pub cannot_scan : Service → Bool
cannot_scan service = service.using_fallback || not service.redis_client

abbrev pub page_size : ℕ
page_size = 100

module _ {Db : Type 0} (s : Scanning Db) where
  open s use {scan, delete_keys, direct}

  -- A call of the client: SCAN, and DEL of one key.
  abbrev pub scan_direct : Text → ℕ → Db → Option (ℕ × List Text) × Db
  scan_direct pattern cursor = direct (ℕ × List Text) (scan cursor pattern page_size)

  abbrev pub delete_direct : Text → Db → Option ℕ × Db
  delete_direct key = direct ℕ (delete_keys (key ∷ []))

  -- The loop of `get_stuck_in_progress_count`; an exception makes the count unknown.
  unfoldable pub count_loop : ℕ → Text → ℕ → ℕ → Db → Option Count × Db
  count_loop zero pattern cursor count db = (none, db)
  count_loop (suc fuel) pattern cursor count db =
      let (reply, db') = scan_direct pattern cursor db in
      elim reply [
        | none ↦ (some unknown, db')
        | some (next, keys) ↦ elim (next == 0) [
          | true ↦ (some (known (count + length keys)), db')
          | false ↦ count_loop fuel pattern next (count + length keys) db'
        ]
      ]

  -- `get_stuck_in_progress_count`
  unfoldable pub get_stuck_in_progress_count : ℕ → Service → Option Text → Db → Option Count × Db
  unfolding count_loop stuck_pattern
  get_stuck_in_progress_count fuel service namespace db =
      if cannot_scan service
      then (some unknown, db)
      else count_loop fuel (stuck_pattern namespace) 0 0 db

  -- The inner loop of `cleanup_stuck_in_progress`: whether it raised, and the number cleaned.
  unfoldable pub clean_keys : ℕ → List Text → ℕ → Db → (Bool × ℕ) × Db
  clean_keys max_cleanup [] cleaned db = ((false, cleaned), db)
  clean_keys max_cleanup (key ∷ keys) cleaned db = elim (leb max_cleanup cleaned) [
    | true ↦ ((false, cleaned), db)
    | false ↦
        let (reply, db') = delete_direct key db in
        elim reply [
          | none ↦ ((true, cleaned), db')
          | some _ ↦ clean_keys max_cleanup keys (cleaned + 1) db'
        ]
  ]

  -- The loop of `cleanup_stuck_in_progress`; an exception ends it with what was cleaned.
  unfoldable pub clean_loop : ℕ → ℕ → Text → ℕ → ℕ → Db → Option ℕ × Db
  clean_loop zero max_cleanup pattern cursor cleaned db = (none, db)
  clean_loop (suc fuel) max_cleanup pattern cursor cleaned db = elim (ltb cleaned max_cleanup) [
    | false ↦ (some cleaned, db)
    | true ↦
        let (reply, db') = scan_direct pattern cursor db in
        elim reply [
          | none ↦ (some cleaned, db')
          | some (next, keys) ↦
              let ((failed, count), db'') = clean_keys max_cleanup keys cleaned db' in
              elim (failed || (next == 0)) [
                | true ↦ (some count, db'')
                | false ↦ clean_loop fuel max_cleanup pattern next count db''
              ]
        ]
  ]

  -- `cleanup_stuck_in_progress`
  unfoldable pub cleanup_stuck_in_progress : ℕ → Service → Option Text → ℕ → Db → Option ℕ × Db
  unfolding clean_loop stuck_pattern
  cleanup_stuck_in_progress fuel service namespace max_cleanup db =
      if cannot_scan service
      then (some 0, db)
      else clean_loop fuel max_cleanup (stuck_pattern namespace) 0 0 db
