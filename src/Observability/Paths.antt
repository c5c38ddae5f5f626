-- ===== src/Observability/Paths.antt =====
-- `_normalize_path` of backend/core/observability/metrics.py, which replaces identifiers in a path.
-- The two substitutions scan the text from the left; a counter skips what a match took. `is_digit` is
-- what the class `\d` matches in a text: the decimal digits of Unicode.
pub mod Dashes
pub mod Numbers
use backend_prod_ready.Prelude.{
  Bool, List, Text, [], codes, drop, false, if◌then◌else◌, leb, length, ltb, suc, true, zero, ℕ,
  ◌&&◌, ◌++◌, ◌+◌, ◌==◌, ◌||◌, ◌∷◌,
}

abbrev is_hex : ℕ → Bool
is_hex c = (leb b'0' c && leb c b'9') || (leb b'a' c && leb c b'f') || (leb b'A' c && leb c b'F')

abbrev pub dash : Bool
dash = false

abbrev hex4 : List Bool
hex4 = true ∷ true ∷ true ∷ true ∷ []

-- The pattern of a UUID: a hexadecimal digit, or a dash.
abbrev pub uuid_pattern : List Bool
uuid_pattern =
    hex4
    ++ (hex4
        ++ (dash
            ∷ (hex4 ++ (dash ∷ (hex4 ++ (dash ∷ (hex4 ++ (dash ∷ (hex4 ++ (hex4 ++ hex4))))))))))

abbrev fits : Bool → ℕ → Bool
fits true c = is_hex c
fits false c = c == b'-'

-- The pattern matches at the start of the text.
unfoldable pub matches : List Bool → Text → Bool
matches [] s = true
matches (p ∷ ps) [] = false
matches (p ∷ ps) (c ∷ s) = fits p c && matches ps s

abbrev pub placeholder : Text
placeholder = codes "{id}"

-- `re.sub` of the UUIDs
unfoldable pub sub_uuids : ℕ → Text → Text
sub_uuids skip [] = []
sub_uuids (suc skip) (c ∷ s) = sub_uuids skip s
sub_uuids zero (c ∷ s) = elim (matches uuid_pattern (c ∷ s)) [
  | true ↦ placeholder ++ sub_uuids 35 s
  | false ↦ c ∷ sub_uuids zero s
]

-- `(/|$)`: `$` also stands before a newline at the end
abbrev pub ends_segment : Text → Bool
ends_segment [] = true
ends_segment (c ∷ []) = (c == b'/') || (c == 10)
ends_segment (c ∷ c' ∷ s) = c == b'/'

-- The slash that the group of the pattern took, and its length.
abbrev pub slash_of : Text → Text
slash_of [] = []
slash_of (c ∷ s) = if c == b'/' then b'/' ∷ [] else []

module _ (is_digit : ℕ → Bool) where
  -- How many characters `\d+` takes.
  unfoldable pub run : Text → ℕ
  run [] = 0
  run (c ∷ s) = let rest = run s in if is_digit c then suc rest else 0

  -- `\d+(/|$)` matches at the start of the text.
  abbrev pub number_follows : Text → Bool
  number_follows s = ltb 0 (run s) && ends_segment (drop (run s) s)

  -- `re.sub` of the numbers
  unfoldable pub sub_numbers : ℕ → Text → Text
  unfolding run
  sub_numbers skip [] = []
  sub_numbers (suc skip) (c ∷ s) = sub_numbers skip s
  sub_numbers zero (c ∷ s) = elim ((c == b'/') && number_follows s) [
    | true ↦
        (b'/' ∷ placeholder)
        ++ (slash_of (drop (run s) s) ++ sub_numbers (run s + length (slash_of (drop (run s) s))) s)
    | false ↦ c ∷ sub_numbers zero s
  ]

  -- `_normalize_path`
  unfoldable pub normalize_path : Text → Text
  unfolding sub_uuids sub_numbers
  normalize_path path = sub_numbers zero (sub_uuids zero path)
