-- ===== src/Responses/Digits.antt =====
-- The digits of a number as a text, read back.
use backend_prod_ready.Prelude.{
  Text, [], arith, if_cases, ltb, refl, suc, zero, ℕ, ◌%◌, ◌*◌, ◌++◌, ◌+◌, ◌-◌, ◌/◌, ◌<◌, ◌∙◌, ◌∷◌,
  ◌≡◌,
}
use backend_prod_ready.Responses.{decimal, digits}

-- The number of some digits, after a number that was read before them.
abbrev pub read : ℕ → Text → ℕ
read acc [] = acc
read acc (c ∷ cs) = read (acc * 10 + (c - b'0')) cs

read-append :
    (acc : ℕ) (xs : Text) (c : ℕ) → read acc (xs ++ c ∷ []) ≡ read acc xs * 10 + (c - b'0')
read-append acc [] c = refl
read-append acc (x ∷ xs) c = read-append (acc * 10 + (x - b'0')) xs c

read-digits : (fuel n : ℕ) → n < fuel → read 0 (digits fuel n) ≡ n
unfolding digits
read-digits zero n h = absurd (omega (arith, h))
read-digits (suc fuel) n h =
    if_cases (λ (t : Text). read 0 t ≡ n) (ltb n 10) _ _ (λ small. omega arith)
      (λ large.
        let rest = digits fuel (n / 10) in
        let ten : 9 < n = ground arith in
        let read_rest = read-digits fuel (n / 10) (omega (arith, h, ten)) in
        read-append 0 rest (b'0' + n % 10) ∙ omega (arith, read_rest))

-- The decimal digits of a number read as that number: the fuel is enough.
pub read-decimal : (n : ℕ) → read 0 (decimal n) ≡ n
unfolding decimal
read-decimal n = read-digits (n + 1) n (omega arith)
