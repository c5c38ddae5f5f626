-- ===== src/Idempotency/Stuck/Cleaned.antt =====
-- The loops of backend/core/infrastructure/idempotency/service.py over stuck markers end, and what
-- a cleaning keeps.
use backend_prod_ready.Prelude.{
  Bool, Bool-cases, List, Option-cases, Text, [], all, arith, false, inl, inr, is_none, leb, length,
  refl, subst, suc, sym, true, zero, ℕ, ◌+◌, ◌<◌, ◌==◌, ◌∷◌, ◌≡◌, ◌≤◌, ltb, some, ◌||◌, Option,
}
use backend_prod_ready.Cache.Scan.{Scanning, IsScan}
use backend_prod_ready.Idempotency.Stuck.{
  clean_keys, count_loop, delete_direct, page_size, scan_direct, clean_loop,
  get_stuck_in_progress_count, stuck_pattern, Service,
}

module _ {Db : Type 0} (s : Scanning Db) (rounds : ℕ → Db → ℕ) (is_scan : IsScan s rounds) where
  open s use {scan, delete_keys, direct, matches}
  open is_scan use {scan_less, delete_rounds, scan_matches, direct_runs, direct_keeps}

  -- What a scan that does not raise gives.
  scan_direct-less :
      (pattern : Text) (cursor : ℕ) (db : Db) (page : ℕ × List Text)
      → (scan_direct s pattern cursor db).0 ≡ some page
      → (page.0 == 0) ≡ false
      → rounds page.0 (scan_direct s pattern cursor db).1 < rounds cursor db
  scan_direct-less pattern cursor db page e more =
      let (same, state) = direct_runs (ℕ × List Text) (scan cursor pattern page_size) db page e in
      rw (same, state)
        (scan_less cursor pattern page_size db (subst (λ p. (p.0 == 0) ≡ false) same more))

  scan_direct-matches :
      (pattern : Text) (cursor : ℕ) (db : Db) (page : ℕ × List Text)
      → (scan_direct s pattern cursor db).0 ≡ some page
      → all (matches pattern) page.1 ≡ true
  scan_direct-matches pattern cursor db page e =
      rw (direct_runs (ℕ × List Text) (scan cursor pattern page_size) db page e).0
        (scan_matches cursor pattern page_size db)

  delete_direct-rounds :
      (key : Text) (cursor : ℕ) (db : Db)
      → rounds cursor (delete_direct s key db).1 ≤ rounds cursor db
  delete_direct-rounds key cursor db = elim (direct_keeps ℕ (delete_keys (key ∷ [])) db) [
    | inl same ↦ rw same (omega arith)
    | inr ran ↦ rw ran (delete_rounds cursor (key ∷ []) db)
  ]

  -- With more fuel than an iteration has rounds the loop gives a count,
  -- unknown if there is no Redis client or a command raised.
  count_loop_ends :
      (fuel : ℕ) (pattern : Text) (cursor count : ℕ) (db : Db)
      → rounds cursor db < fuel
      → is_none (count_loop s fuel pattern cursor count db).0 ≡ false
  unfolding count_loop
  count_loop_ends zero pattern cursor count db h = absurd (omega arith)
  count_loop_ends (suc fuel) pattern cursor count db h =
      elim (Option-cases (scan_direct s pattern cursor db).0) [
        | inl raise ↦ rw (count_loop, raise) refl
        | inr (page, e) ↦ elim (Bool-cases (page.0 == 0)) [
          | inl last ↦ rw (count_loop, e, last) refl
          | inr more ↦
              rw (count_loop, e, more)
                (count_loop_ends fuel pattern page.0 (count + length page.1)
                  (scan_direct s pattern cursor db).1
                  (omega (arith, h, scan_direct-less pattern cursor db page e more)))
        ]
      ]

  -- A property of the data that a scan keeps, and a deletion of a key that matches.
  module _ (pattern : Text) (P : Db → Type 0)
      (P_scan : (cursor : ℕ) (db : Db) → P db → P (scan cursor pattern page_size db).1)
      (P_delete : (key : Text) (db : Db)
        → matches pattern key ≡ true
        → P db
        → P (delete_keys (key ∷ []) db).1) where
    direct_kept : (A : Type 0) (f : Db → A × Db) (db : Db) → P db → P (f db).1 → P (direct A f db).1
    direct_kept A f db p q = elim (direct_keeps A f db) [
      | inl same ↦ subst P (sym same) p
      | inr ran ↦ subst P (sym ran) q
    ]

    delete_direct-P :
        (key : Text) (db : Db) → matches pattern key ≡ true → P db → P (delete_direct s key db).1
    delete_direct-P key db m p = direct_kept ℕ (delete_keys (key ∷ [])) db p (P_delete key db m p)

    -- What the inner loop promises of its result from a number cleaned and data.
    abbrev IsCleaned : ℕ → ℕ → ℕ → Db → (Bool × ℕ) × Db → Type 0
    IsCleaned max_cleanup cleaned cursor db result =
        (cleaned ≤ result.0.1)
        × (result.0.1 ≤ max_cleanup)
        × P result.1
        × (rounds cursor result.1 ≤ rounds cursor db)

    clean_keys-IsCleaned :
        (max_cleanup cursor : ℕ) (keys : List Text) (cleaned : ℕ) (db : Db)
        → all (matches pattern) keys ≡ true
        → cleaned ≤ max_cleanup
        → P db
        → IsCleaned max_cleanup cleaned cursor db (clean_keys s max_cleanup keys cleaned db)
    unfolding clean_keys
    clean_keys-IsCleaned max_cleanup cursor [] cleaned db m h p = (omega arith, h, p, omega arith)
    clean_keys-IsCleaned max_cleanup cursor (key ∷ keys) cleaned db m h p =
        let gone = (delete_direct s key db).1 in
        let kept = delete_direct-P key db (ground arith) p in
        let fewer = delete_direct-rounds key cursor db in
        elim (Bool-cases (leb max_cleanup cleaned)) [
          | inl full ↦ rw (clean_keys, full) (omega arith, h, p, omega arith)
          | inr room ↦ elim (Option-cases (delete_direct s key db).0) [
            | inl raise ↦ rw (clean_keys, room, raise) (omega arith, h, kept, fewer)
            | inr (removed, e) ↦
                let rest =
                  clean_keys-IsCleaned max_cleanup cursor keys (cleaned + 1) gone (ground arith)
                    (ground arith) kept in
                rw (clean_keys, room, e)
                  (omega (arith, rest.0), rest.1, rest.2, omega (arith, rest.3, fewer))
          ]
        ]

    pub clean_loop_ends :
        (fuel max_cleanup cursor cleaned : ℕ) (db : Db)
        → rounds cursor db < fuel
        → cleaned ≤ max_cleanup
        → P db
        → (n : ℕ) × ((clean_loop s fuel max_cleanup pattern cursor cleaned db).0 ≡ some n)
          × (n ≤ max_cleanup)
          × P (clean_loop s fuel max_cleanup pattern cursor cleaned db).1
    unfolding clean_loop
    clean_loop_ends zero max_cleanup cursor cleaned db r h p = absurd (omega arith)
    clean_loop_ends (suc fuel) max_cleanup cursor cleaned db r h p =
        let scanned = (scan_direct s pattern cursor db).1 in
        let kept =
          direct_kept (ℕ × List Text) (scan cursor pattern page_size) db p (P_scan cursor db p) in
        elim (Bool-cases (ltb cleaned max_cleanup)) [
          | inr full ↦ rw (clean_loop, full) (cleaned, refl, h, p)
          | inl room ↦ elim (Option-cases (scan_direct s pattern cursor db).0) [
            | inl raise ↦ rw (clean_loop, room, raise) (cleaned, refl, h, kept)
            | inr (page, e) ↦
                let result = clean_keys s max_cleanup page.1 cleaned scanned in
                let round =
                  clean_keys-IsCleaned max_cleanup page.0 page.1 cleaned scanned
                    (scan_direct-matches pattern cursor db page e) h kept in
                elim (Bool-cases (result.0.0 || (page.0 == 0))) [
                  | inl last ↦ rw (clean_loop, room, e, last) (result.0.1, refl, round.1, round.2)
                  | inr more ↦
                      rw (clean_loop, room, e, more)
                        (clean_loop_ends fuel max_cleanup page.0 result.0.1 result.1
                          (omega (
                            arith,
                            r,
                            round.3,
                            scan_direct-less pattern cursor db page e (ground arith),
                          ))
                          round.1 round.2)
                ]
          ]
        ]

  -- The counting of the markers ends with a count, given more fuel than an iteration of SCAN has
  -- rounds; without a Redis client to scan it is unknown.
  pub get_stuck_in_progress_count_ends :
      (fuel : ℕ) (service : Service) (namespace : Option Text) (db : Db)
      → rounds 0 db < fuel
      → is_none (get_stuck_in_progress_count s fuel service namespace db).0 ≡ false
  unfolding get_stuck_in_progress_count
  get_stuck_in_progress_count_ends fuel service namespace db r =
      ground (arith, count_loop_ends fuel (stuck_pattern namespace) 0 0 db r)
