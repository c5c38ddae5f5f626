-- ===== src/Examples/ScanRuns.antt =====
-- The theorems on the loops over SCAN at concrete inputs: a server that gives the keys in two rounds,
-- the first of them empty.
use backend_prod_ready.Prelude.{
  Bool, List, Text, [], all, arith, codes, ends_with, false, inr, keep, length, refl, some, suc,
  true, zero, ℕ, ◌<◌, ◌==◌, ◌∷◌, ◌≡◌, Option, none, starts_with, sym, text_eq, ◌≤◌, ◌+◌, ◌-◌,
}
use backend_prod_ready.Dict.{Dict, pop, keys, pop_all}
use backend_prod_ready.Dict.Laws.{find-pop_ne}
use backend_prod_ready.Exec.{ok}
use backend_prod_ready.Cache.Memory.{Memory, view}
use backend_prod_ready.Cache.Redis.{connected}
use backend_prod_ready.Cache.Service.{prod}
use backend_prod_ready.Cache.Scan.{Scanning, IsScan, delete_pattern, delete_pattern_ends}
use backend_prod_ready.Idempotency.Stuck.{cleanup_stuck_in_progress}
use backend_prod_ready.Idempotency.Stuck.Deleted.{CountsDeleted, cleanup_ends}
use backend_prod_ready.Examples.Server.{connected_world, server_with}

-- The end of a pattern after its last `*`.
abbrev matches_end : Text → Text → Bool
matches_end pattern key = ends_with (codes ":in_progress") key

scan_rounds : ℕ → Text → ℕ → Memory → (ℕ × List Text) × Memory
scan_rounds zero pattern count m = ((1, []), m)
scan_rounds (suc cursor) pattern count m = ((0, keep (matches_end pattern) (keys m.cache)), m)

abbrev two_rounds : Scanning Memory
two_rounds = record {
  scan = scan_rounds;
  delete_keys = λ ks m. (length ks, record m { cache = pop_all ks m.cache });
  direct = λ A f m. (some (f m).0, (f m).1);
  matches = matches_end;
}

abbrev rounds_left : ℕ → Memory → ℕ
rounds_left zero m = 1
rounds_left (suc cursor) m = 0

all-keep : {A : Type 0} (p : A → Bool) (xs : List A) → all p (keep p xs) ≡ true
all-keep p [] = refl
all-keep p (x ∷ xs) = ground (arith, all-keep p xs)

fewer :
    (cursor : ℕ) (pattern : Text) (count : ℕ) (m : Memory)
    → let ((next, found), m') = scan_rounds cursor pattern count m in
      (next == 0) ≡ false → rounds_left next m' < rounds_left cursor m
unfolding scan_rounds
fewer zero pattern count m h = omega arith
fewer (suc cursor) pattern count m h = cc

matching :
    (cursor : ℕ) (pattern : Text) (count : ℕ) (m : Memory)
    → all (matches_end pattern) (scan_rounds cursor pattern count m).0.1 ≡ true
unfolding scan_rounds
matching zero pattern count m = refl
matching (suc cursor) pattern count m = all-keep (matches_end pattern) (keys m.cache)

same_rounds :
    (cursor : ℕ) (ks : List Text) (m : Memory)
    → rounds_left cursor (record m { cache = pop_all ks m.cache }) ≤ rounds_left cursor m
same_rounds zero ks m = omega arith
same_rounds (suc cursor) ks m = omega arith

some_injective : {A : Type 0} {a b : A} → some a ≡ some b → a ≡ b
some_injective h = ground (arith, h)

two_rounds-IsScan : IsScan two_rounds rounds_left
two_rounds-IsScan = record {
  scan_less = fewer;
  delete_rounds = same_rounds;
  scan_matches = matching;
  direct_runs = λ A f m a h. (sym (some_injective h), refl);
  direct_keeps = λ A f m. inr refl;
}

delete_pattern_ends_example :
    (n : ℕ) × ((delete_pattern
        (server_with connected)
        prod
        two_rounds
        2
        (codes "*")
        100
        connected_world).0
      ≡ ok (some n))
delete_pattern_ends_example =
    delete_pattern_ends (server_with connected) prod two_rounds rounds_left two_rounds-IsScan
      (λ A f db. refl) 2 (codes "*") 100 connected_world refl (omega arith)

abbrev seen : Memory → Text → Option Text
seen m key = view 0 m key

seen_after_deletion :
    (gone : Text) (m : Memory) (key : Text)
    → text_eq gone key ≡ false
    → seen (two_rounds.delete_keys (gone ∷ []) m).1 key ≡ seen m key
unfolding view pop_all
seen_after_deletion gone m key h = ground (arith, find-pop_ne gone key m.cache h)

seen_after_scan :
    (cursor : ℕ) (pattern : Text) (m : Memory) (key : Text)
    → seen (scan_rounds cursor pattern 100 m).1 key ≡ seen m key
unfolding scan_rounds
seen_after_scan zero pattern m key = refl
seen_after_scan (suc cursor) pattern m key = refl

abbrev one_marker : Memory
one_marker = record {
  cache =
      (codes "idempotency:a:in_progress", record { value = codes "1"; expiry = none })
      ∷ (codes "idempotency:a", record { value = codes "r"; expiry = none })
      ∷ [];
  max_size = 100;
}

-- The keys that are gone since there were two.
abbrev gone_of_two : Memory → ℕ
gone_of_two m = 2 - length m.cache

length-pop : {A : Type 0} (k : Text) (d : Dict A) → length d ≤ length (pop k d) + 1
unfolding pop
length-pop k [] = omega arith
length-pop k ((j, v) ∷ d) = ground (arith, length-pop k d)

scan_deletes_none :
    (cursor : ℕ) (pattern : Text) (m : Memory)
    → gone_of_two (scan_rounds cursor pattern 100 m).1 ≡ gone_of_two m
unfolding scan_rounds
scan_deletes_none zero pattern m = refl
scan_deletes_none (suc cursor) pattern m = refl

deletes_one :
    (key : Text) (m : Memory)
    → gone_of_two (two_rounds.delete_keys (key ∷ []) m).1 ≤ gone_of_two m + 1
unfolding pop_all
deletes_one key m = omega (arith, length-pop key m.cache)

gone_of_two-CountsDeleted : CountsDeleted two_rounds rounds_left two_rounds-IsScan gone_of_two
gone_of_two-CountsDeleted = record { deleted_scan = scan_deletes_none; deleted_key = deletes_one }

cleanup_ends_example :
    let result = cleanup_stuck_in_progress two_rounds 2 connected_world.service none 1 one_marker in
    (n : ℕ) × (result.0 ≡ some n)
    × (n ≤ 1)
    × (gone_of_two result.1 ≤ gone_of_two one_marker + 1)
    × (seen result.1 (codes "idempotency:a") ≡ seen one_marker (codes "idempotency:a"))
    × (result.1 ≡ result.1)
unfolding ends_with starts_with
cleanup_ends_example =
    cleanup_ends two_rounds rounds_left two_rounds-IsScan seen gone_of_two seen_after_scan
      seen_after_deletion gone_of_two-CountsDeleted 2 connected_world.service none 1 one_marker
      (codes "idempotency:a") (omega arith) refl
