-- ===== src/Decimal.antt =====
-- strconv.FormatUint(n, 10) and strconv.ParseUint(value, 10, 32), as internal/store/store.go uses
-- them for the synchronization cursor.
pub mod RoundTrip
use suzie_filtering_system.Base.{
  ℕ, zero, suc, ◌+◌, ◌-◌, ◌*◌, ◌/◌, ◌%◌, ◌^◌, Text, ◌||◌, Option, none, some, [], ◌∷◌, ◌++◌, ltb,
  leb, if◌then◌else◌,
}

abbrev pub max_u32 : ℕ
max_u32 = 2 ^ 32 - 1

-- `fuel` bounds the number of digits.
digits : ℕ → ℕ → Text
digits zero n = []
digits (suc fuel) n =
    let front = digits fuel (n / 10) in
    if ltb n 10 then (b'0' + n) ∷ [] else front ++ (b'0' + n % 10) ∷ []

-- 20 digits are enough for every uint64.
pub format_uint : ℕ → Text
unfolding digits
format_uint n = digits 20 n

read : Text → ℕ → Option ℕ
read [] n = some n
read (c ∷ s) n = if ltb c b'0' || ltb b'9' c then none else read s (n * 10 + (c - b'0'))

in_range : Option ℕ → Option ℕ
in_range none = none
in_range (some n) = if leb n max_u32 then some n else none

pub parse_uint : Text → Option ℕ
unfolding read in_range
parse_uint [] = none
parse_uint (c ∷ s) = in_range (read (c ∷ s) 0)
