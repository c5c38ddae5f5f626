-- ===== src/Observability/Paths/Dashes.antt =====
-- Texts without a dash, in which there is no UUID, and parts of a text.
use backend_prod_ready.Prelude.{
  Bool, List, Text, [], all, ap, arith, drop, false, length, not, refl, true, zero, ◌&&◌, ◌++◌,
  ◌==◌, ◌∷◌, ◌≡◌,
}
use backend_prod_ready.Observability.Paths.{ends_segment, matches, sub_uuids, uuid_pattern}

abbrev pub no_dash : Text → Bool
no_dash = all (λ c. not (c == b'-'))

pub all-append {ℓ} :
    {A : Type ℓ} (p : A → Bool) (xs ys : List A) → all p (xs ++ ys) ≡ all p xs && all p ys
all-append p [] ys = refl
all-append p (x ∷ xs) ys = ground (arith, all-append p xs ys)

pub drop-length {ℓ} : {A : Type ℓ} (d s : List A) → drop (length d) (d ++ s) ≡ s
drop-length [] s = refl
drop-length (c ∷ d) s = drop-length d s

pub drop_all {ℓ} : {A : Type ℓ} (d : List A) → drop (length d) d ≡ []
drop_all [] = refl
drop_all (c ∷ d) = drop_all d

pub ends_slash : (s : Text) → ends_segment (b'/' ∷ s) ≡ true
ends_slash [] = refl
ends_slash (c ∷ s) = refl

matches-no_dash :
    (ps : List Bool) (s : Text) → all (λ p. p) ps ≡ false → no_dash s ≡ true → matches ps s ≡ false
unfolding matches
matches-no_dash [] s h n = absurd (cc h)
matches-no_dash (p ∷ ps) [] h n = refl
matches-no_dash (true ∷ ps) (c ∷ s) h n = ground (arith, matches-no_dash ps s)
matches-no_dash (false ∷ ps) (c ∷ s) h n = ground arith

pub sub_uuids-no_dash : (s : Text) → no_dash s ≡ true → sub_uuids zero s ≡ s
unfolding sub_uuids
sub_uuids-no_dash [] n = refl
sub_uuids-no_dash (c ∷ s) n =
    rw (matches-no_dash uuid_pattern (c ∷ s) refl n, sub_uuids)
      (ap (λ (t : Text). c ∷ t) (sub_uuids-no_dash s (ground arith)))
