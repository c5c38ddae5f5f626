-- ===== src/Idempotency/Stuck/Deleted.antt =====
-- What a cleaning of stuck markers deletes: no more keys than its limit, and none outside its pattern.
use backend_prod_ready.Prelude.{
  Bool, Bool-cases, List, Option, Option-cases, Text, [], ap, arith, false, if◌then◌else◌, inl, inr,
  leb, ltb, refl, some, suc, text_eq, text_eq_iff, true, zero, ℕ, ◌+◌, ◌<◌, ◌==◌, ◌||◌, ◌∙◌, ◌∷◌,
  ◌≡◌, ◌≤◌,
}
use backend_prod_ready.Cache.Scan.{Scanning, IsScan}
use backend_prod_ready.Idempotency.Stuck.{
  cannot_scan, clean_keys, clean_loop, cleanup_stuck_in_progress, delete_direct, page_size,
  scan_direct, stuck_pattern, Service,
}
use backend_prod_ready.Idempotency.Stuck.Cleaned.{clean_loop_ends}

module _ {Db : Type 0} (s : Scanning Db) (rounds : ℕ → Db → ℕ) (is_scan : IsScan s rounds) where
  open s use {scan, delete_keys, direct, matches}
  open is_scan use {direct_keeps}

  -- The number of keys that the server has deleted so far: a scan deletes none, and a deletion of one
  -- key at most one.
  pub record CountsDeleted (deleted : Db → ℕ) : Type 0 where
    pub deleted_scan :
        (cursor : ℕ) (pattern : Text) (db : Db)
        → deleted (scan cursor pattern page_size db).1 ≡ deleted db
    pub deleted_key :
        (key : Text) (db : Db) → deleted (delete_keys (key ∷ []) db).1 ≤ deleted db + 1

  module _ (deleted : Db → ℕ) (counts : CountsDeleted deleted) where
    scan_direct-deleted :
        (pattern : Text) (cursor : ℕ) (db : Db)
        → deleted (scan_direct s pattern cursor db).1 ≡ deleted db
    scan_direct-deleted pattern cursor db =
        elim (direct_keeps (ℕ × List Text) (scan cursor pattern page_size) db) [
          | inl same ↦ ap deleted same
          | inr ran ↦ ap deleted ran ∙ counts.deleted_scan cursor pattern db
        ]

    delete_direct-deleted :
        (key : Text) (db : Db) → deleted (delete_direct s key db).1 ≤ deleted db + 1
    delete_direct-deleted key db = elim (direct_keeps ℕ (delete_keys (key ∷ [])) db) [
      | inl same ↦ rw same (omega arith)
      | inr ran ↦ rw ran (counts.deleted_key key db)
    ]

    -- A deletion that raised may have been done.
    abbrev extra : Bool → ℕ
    extra failed = if failed then 1 else 0

    clean_keys-deleted :
        (max_cleanup : ℕ) (keys : List Text) (cleaned : ℕ) (db : Db)
        → cleaned ≤ max_cleanup
        → let ((failed, count), db') = clean_keys s max_cleanup keys cleaned db in
          (deleted db' + cleaned ≤ deleted db + (count + extra failed))
          × (count + extra failed ≤ max_cleanup)
    unfolding clean_keys
    clean_keys-deleted max_cleanup [] cleaned db h = (omega arith, omega (arith, h))
    clean_keys-deleted max_cleanup (key ∷ keys) cleaned db h =
        let gone = (delete_direct s key db).1 in
        let one = delete_direct-deleted key db in
        elim (Bool-cases (leb max_cleanup cleaned)) [
          | inl full ↦ rw (clean_keys, full) (omega arith, omega (arith, h))
          | inr room ↦
              let below : cleaned + 1 ≤ max_cleanup = ground arith in
              elim (Option-cases (delete_direct s key db).0) [
                | inl raise ↦ rw (clean_keys, room, raise) (omega (arith, one), below)
                | inr (removed, e) ↦
                    let rest = clean_keys-deleted max_cleanup keys (cleaned + 1) gone below in
                    rw (clean_keys, room, e) (omega (arith, one, rest.0), rest.1)
              ]
        ]

    clean_loop-deleted :
        (fuel max_cleanup : ℕ) (pattern : Text) (cursor cleaned : ℕ) (db : Db)
        → cleaned ≤ max_cleanup
        → deleted (clean_loop s fuel max_cleanup pattern cursor cleaned db).1 + cleaned
          ≤ deleted db + max_cleanup
    unfolding clean_loop
    clean_loop-deleted zero max_cleanup pattern cursor cleaned db h = omega (arith, h)
    clean_loop-deleted (suc fuel) max_cleanup pattern cursor cleaned db h =
        let scanned = (scan_direct s pattern cursor db).1 in
        let none_gone = scan_direct-deleted pattern cursor db in
        elim (Bool-cases (ltb cleaned max_cleanup)) [
          | inr full ↦ rw (clean_loop, full) (omega (arith, h))
          | inl room ↦ elim (Option-cases (scan_direct s pattern cursor db).0) [
            | inl raise ↦ rw (clean_loop, room, raise) (omega (arith, h, none_gone))
            | inr (page, e) ↦
                let result = clean_keys s max_cleanup page.1 cleaned scanned in
                let round = clean_keys-deleted max_cleanup page.1 cleaned scanned h in
                elim (Bool-cases (result.0.0 || (page.0 == 0))) [
                  | inl last ↦
                      rw (clean_loop, room, e, last) (omega (arith, none_gone, round.0, round.1))
                  | inr more ↦
                      let whole : result.0.0 ≡ false = ground arith in
                      let counted : deleted result.1 + cleaned ≤ deleted scanned + result.0.1 =
                        ground (arith, round.0, whole) in
                      let below : result.0.1 ≤ max_cleanup = omega (arith, round.1) in
                      let rest =
                        clean_loop-deleted fuel max_cleanup pattern page.0 result.0.1 result.1
                          below in
                      rw (clean_loop, room, e, more) (omega (arith, none_gone, counted, rest))
                ]
          ]
        ]

  -- A key that matches is another than one that does not.
  apart :
      (pattern gone key : Text)
      → matches pattern gone ≡ true
      → matches pattern key ≡ false
      → text_eq gone key ≡ false
  apart pattern gone key m o = elim (Bool-cases (text_eq gone key)) [
    | inl same ↦ absurd (cc (m, o, ap (matches pattern) ((text_eq_iff gone key).0 same)))
    | inr differ ↦ differ
  ]

  -- A cleaning ends with a number of at most `max_cleanup`, given more fuel than an iteration of SCAN has
  -- rounds. The server deletes at most `max_cleanup` keys meanwhile, and what readers see under a key that
  -- does not match the pattern of the markers stays, if a scan changes nothing that readers see and a
  -- deletion of one key nothing under another. Without a Redis client to scan, the number is 0 and the
  -- data is as it was.
  pub cleanup_ends :
      (view : Db → Text → Option Text) (deleted : Db → ℕ)
      → ((cursor : ℕ) (pattern : Text) (db : Db) (key : Text)
          → view (scan cursor pattern page_size db).1 key ≡ view db key)
      → ((gone : Text) (db : Db) (key : Text)
          → text_eq gone key ≡ false
          → view (delete_keys (gone ∷ []) db).1 key ≡ view db key)
      → CountsDeleted deleted
      → (fuel : ℕ) (service : Service) (namespace : Option Text) (max_cleanup : ℕ) (db : Db)
        (key : Text)
      → rounds 0 db < fuel
      → matches (stuck_pattern namespace) key ≡ false
      → let result = cleanup_stuck_in_progress s fuel service namespace max_cleanup db in
        (n : ℕ) × (result.0 ≡ some n)
        × (n ≤ (if cannot_scan service then 0 else max_cleanup))
        × (deleted result.1 ≤ deleted db + max_cleanup)
        × (view result.1 key ≡ view db key)
        × (result.1 ≡ (if cannot_scan service then db else result.1))
  unfolding cleanup_stuck_in_progress
  cleanup_ends view deleted view_scan view_delete counts fuel service namespace max_cleanup db key r
        other =
      elim (Bool-cases (cannot_scan service)) [
        | inl blind ↦
            rw (cleanup_stuck_in_progress, blind) (0, refl, omega arith, omega arith, refl, refl)
        | inr sees ↦
            let few =
              clean_loop-deleted deleted counts fuel max_cleanup (stuck_pattern namespace) 0 0 db
                (omega arith) in
            let (n, ends, small, kept) =
              clean_loop_ends s rounds is_scan (stuck_pattern namespace)
                (λ d. view d key ≡ view db key)
                (λ cursor d e. view_scan cursor (stuck_pattern namespace) d key ∙ e)
                (λ gone d m e.
                  view_delete gone d key (apart (stuck_pattern namespace) gone key m other) ∙ e)
                fuel max_cleanup 0 0 db r (omega arith) refl in
            rw (cleanup_stuck_in_progress, sees) (n, ends, small, omega (arith, few), kept, refl)
      ]
