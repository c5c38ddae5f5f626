-- ===== src/Observability/Paths/Numbers.antt =====
-- Which numbers of a path are replaced.
use backend_prod_ready.Prelude.{
  Bool, Text, [], all, ap, arith, false, length, ltb, not, refl, true, zero, ℕ, ◌&&◌, ◌++◌, ◌==◌,
  ◌∷◌, ◌≡◌, ==_iff, suc, ◌+◌,
}
use backend_prod_ready.Observability.Paths.Dashes.{
  all-append, drop-length, drop_all, ends_slash, no_dash, sub_uuids-no_dash,
}
use backend_prod_ready.Observability.Paths.{
  run, sub_numbers, placeholder, number_follows, normalize_path,
}

-- The digits do not include the slash and the dash.
pub record ExcludesMarks (is_digit : ℕ → Bool) : Type 0 where
  pub slash_excluded : is_digit b'/' ≡ false
  pub dash_excluded : is_digit b'-' ≡ false

module _ (is_digit : ℕ → Bool) (e : ExcludesMarks is_digit) where
  -- No digit and no dash.
  abbrev pub is_plain : Text → Bool
  is_plain = all (λ c. not (is_digit c) && not (c == b'-'))

  abbrev pub is_number : Text → Bool
  is_number d = ltb 0 (length d) && all is_digit d

  run-plain : (p s : Text) → is_plain p ≡ true → run is_digit (p ++ b'/' ∷ s) ≡ 0
  unfolding run
  run-plain [] s h = rw e.slash_excluded
  run-plain (c ∷ p) s h = ground arith

  sub_numbers-plain :
      (p s : Text)
      → is_plain p ≡ true
      → sub_numbers is_digit zero (p ++ b'/' ∷ s) ≡ p ++ sub_numbers is_digit zero (b'/' ∷ s)
  unfolding sub_numbers
  sub_numbers-plain [] s h = refl
  sub_numbers-plain (c ∷ p) s h = ground (arith, run-plain p s, sub_numbers-plain p s)

  skip_all : (d : Text) → sub_numbers is_digit (length d) d ≡ []
  unfolding sub_numbers
  skip_all [] = refl
  skip_all (c ∷ d) = skip_all d

  skip_slash :
      (d s : Text)
      → sub_numbers is_digit (suc (length d)) (d ++ b'/' ∷ s) ≡ sub_numbers is_digit zero s
  unfolding sub_numbers
  skip_slash [] s = refl
  skip_slash (c ∷ d) s = skip_slash d s

  run-digits_end : (d : Text) → all is_digit d ≡ true → run is_digit d ≡ length d
  unfolding run
  run-digits_end [] h = refl
  run-digits_end (c ∷ d) h = ground (arith, run-digits_end d)

  run-digits_slash : (d s : Text) → all is_digit d ≡ true → run is_digit (d ++ b'/' ∷ s) ≡ length d
  unfolding run
  run-digits_slash [] s h = rw e.slash_excluded
  run-digits_slash (c ∷ d) s h = ground (arith, run-digits_slash d s)

  number_end :
      (d : Text) → is_number d ≡ true → sub_numbers is_digit zero (b'/' ∷ d) ≡ b'/' ∷ placeholder
  unfolding sub_numbers
  number_end d h =
      let all_digits : all is_digit d ≡ true = ground arith in
      let some_digit : ltb 0 (length d) ≡ true = ground arith in
      let found : number_follows is_digit d ≡ true =
        rw (run-digits_end d all_digits, drop_all d, some_digit) in
      rw (found, sub_numbers, run-digits_end d all_digits, drop_all d)
        (let same : length d + 0 ≡ length d = omega arith in rw (same, skip_all d) refl)

  number_slash :
      (d s : Text)
      → is_number d ≡ true
      → sub_numbers is_digit zero (b'/' ∷ (d ++ b'/' ∷ s))
        ≡ (b'/' ∷ placeholder) ++ (b'/' ∷ sub_numbers is_digit zero s)
  unfolding sub_numbers
  number_slash d s h =
      let all_digits : all is_digit d ≡ true = ground arith in
      let some_digit : ltb 0 (length d) ≡ true = ground arith in
      let found : number_follows is_digit (d ++ b'/' ∷ s) ≡ true =
        rw (run-digits_slash d s all_digits, drop-length d (b'/' ∷ s), some_digit, ends_slash s) in
      rw (found, sub_numbers, run-digits_slash d s all_digits, drop-length d (b'/' ∷ s))
        (let next_one : length d + 1 ≡ suc (length d) = omega arith in
          rw (next_one, skip_slash d s) refl)

  no_slash : (s : Text) → all (λ c. not (c == b'/')) s ≡ true → sub_numbers is_digit zero s ≡ s
  unfolding sub_numbers
  no_slash [] h = refl
  no_slash (c ∷ s) h = ground (arith, no_slash s)

  number-no_slash : (d : Text) → all is_digit d ≡ true → all (λ c. not (c == b'/')) d ≡ true
  number-no_slash [] h = refl
  number-no_slash (c ∷ d) h = ground (arith, number-no_slash d, ==_iff c b'/', e.slash_excluded)

  number-no_dash : (d : Text) → all is_digit d ≡ true → no_dash d ≡ true
  number-no_dash [] h = refl
  number-no_dash (c ∷ d) h = ground (arith, number-no_dash d, ==_iff c b'-', e.dash_excluded)

  plain-no_dash : (p : Text) → is_plain p ≡ true → no_dash p ≡ true
  plain-no_dash [] h = refl
  plain-no_dash (c ∷ p) h = ground (arith, plain-no_dash p)

  run-plain_end : (p : Text) → is_plain p ≡ true → run is_digit p ≡ 0
  unfolding run
  run-plain_end [] h = refl
  run-plain_end (c ∷ p) h = ground arith

  plain_lem : (p : Text) → is_plain p ≡ true → sub_numbers is_digit zero p ≡ p
  unfolding sub_numbers
  plain_lem [] h = refl
  plain_lem (c ∷ p) h = ground (arith, run-plain_end p, plain_lem p)

  -- The text is scanned by the second substitution alone.
  normalize_lem :
      (s : Text) → no_dash s ≡ true → normalize_path is_digit s ≡ sub_numbers is_digit zero s
  unfolding normalize_path
  normalize_lem s n = ap (sub_numbers is_digit zero) (sub_uuids-no_dash s n)

  join-no_dash : (p s : Text) → no_dash p ≡ true → no_dash s ≡ true → no_dash (p ++ b'/' ∷ s) ≡ true
  join-no_dash p s hp hs = ground (arith, all-append (λ c. not (c == b'-')) p (b'/' ∷ s))

  -- A number that is a segment of the path becomes the placeholder, at the end of the path or before
  -- another segment, where the rest of the path has no digit and no dash: requests that differ in the
  -- number share a path.
  pub number_replaced :
      (p d q : Text)
      → is_plain p ≡ true
      → is_number d ≡ true
      → is_plain q ≡ true
      → (normalize_path is_digit (p ++ b'/' ∷ d) ≡ p ++ b'/' ∷ placeholder)
        × (normalize_path is_digit (p ++ b'/' ∷ (d ++ b'/' ∷ q))
            ≡ p ++ b'/' ∷ (placeholder ++ b'/' ∷ q))
  number_replaced p d q hp hd hq =
      let d_no_dash = number-no_dash d (ground arith) in
      let p_no_dash = plain-no_dash p hp in
      let q_no_dash = plain-no_dash q hq in
      (
        rw
            (
              normalize_lem (p ++ b'/' ∷ d) (join-no_dash p d p_no_dash d_no_dash),
              sub_numbers-plain p d hp,
              number_end d hd,
            )
            refl,
        rw
            (
              normalize_lem (p ++ b'/' ∷ (d ++ b'/' ∷ q))
                  (join-no_dash p (d ++ b'/' ∷ q) p_no_dash (join-no_dash d q d_no_dash q_no_dash)),
              sub_numbers-plain p (d ++ b'/' ∷ q) hp,
              number_slash d q hd,
              plain_lem q hq,
            )
            refl,
      )

  -- Of two numbers in a row the second stays, where what is before them has no digit and no dash: the
  -- match of the first takes the slash that the second needs.
  pub second_number_kept :
      (p d d' : Text)
      → is_plain p ≡ true
      → is_number d ≡ true
      → is_number d' ≡ true
      → normalize_path is_digit (p ++ b'/' ∷ (d ++ b'/' ∷ d'))
        ≡ p ++ b'/' ∷ (placeholder ++ b'/' ∷ d')
  second_number_kept p d d' hp hd hd' =
      let d_no_dash = number-no_dash d (ground arith) in
      let d'_digits : all is_digit d' ≡ true = ground arith in
      rw
        (
          normalize_lem (p ++ b'/' ∷ (d ++ b'/' ∷ d')) (
              join-no_dash p (d ++ b'/' ∷ d') (plain-no_dash p hp)
                (join-no_dash d d' d_no_dash (number-no_dash d' d'_digits))),
          sub_numbers-plain p (d ++ b'/' ∷ d') hp,
          number_slash d d' hd,
          no_slash d' (number-no_slash d' d'_digits),
        )
        refl
