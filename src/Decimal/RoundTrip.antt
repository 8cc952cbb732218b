-- ===== src/Decimal/RoundTrip.antt =====
-- Reading back what was printed.
use mathlib.Core.List.{cons-ne-nil, concat-ne-nil}
use native.Mathlib.Nat.{pow-suc}
use suzie_filtering_system.Base.{
  Option, none, ℕ, zero, suc, ◌+◌, ◌*◌, ◌/◌, ◌%◌, ◌^◌, ◌≤◌, ◌<◌, ◌≡◌, refl, ap, ◌∙◌, Text, ◌≢◌, inl,
  inr, some, [], ◌∷◌, ◌++◌, append_assoc, append-nil, arith, ltb, Bool-cases,
}
use suzie_filtering_system.Decimal.{max_u32, digits, format_uint, read, in_range, parse_uint}

div_lt_pow : (f n : ℕ) → n < 10 ^ suc f → n / 10 < 10 ^ f
div_lt_pow f n h = omega (arith, rw pow-suc at h)

read_one :
    (d acc : ℕ) (rest : Text) → d < 10 → read ((b'0' + d) ∷ rest) acc ≡ read rest (acc * 10 + d)
unfolding read
read_one d acc rest h = ground arith

read-digits : (f n : ℕ) (rest : Text) → n < 10 ^ f → read (digits f n ++ rest) 0 ≡ read rest n
unfolding digits
read-digits zero n rest h = rw (zero_of n h)
  where
    zero_of : (k : ℕ) → k < 1 → k ≡ 0
    zero_of k lt = omega arith
read-digits (suc f) n rest h = elim (Bool-cases (ltb n 10)) [
  | inl small ↦ rw small (read_one n 0 rest (ground arith) ∙ ap (read rest) (omega arith))
  | inr big ↦
      rw (big, append_assoc, read-digits f (n / 10) _ (div_lt_pow f n h))
        (read_one (n % 10) (n / 10) rest (omega arith) ∙ ap (read rest) (omega arith))
]

digits-ne-nil : (f n : ℕ) → digits (suc f) n ≢ []
unfolding digits
digits-ne-nil f n = elim (Bool-cases (ltb n 10)) [
  | inl small ↦ rw small (cons-ne-nil _ _)
  | inr big ↦ rw big (concat-ne-nil _ _)
]

parse_uint-read : (s : Text) → s ≢ [] → parse_uint s ≡ in_range (read s 0)
unfolding parse_uint
parse_uint-read [] h = absurd (h refl)
parse_uint-read (c ∷ s) h = refl

read-format_uint : (n : ℕ) → n < 10 ^ 20 → read (format_uint n) 0 ≡ some n
unfolding format_uint read
read-format_uint n h = rw (← append-nil (digits 20 n)) (read-digits 20 n [] h)

format_uint-ne-nil : (n : ℕ) → format_uint n ≢ []
unfolding format_uint
format_uint-ne-nil n = digits-ne-nil 19 n

-- Every uint32 is read back from its decimal print.
pub parse_uint-format_uint : (n : ℕ) → n ≤ max_u32 → parse_uint (format_uint n) ≡ some n
unfolding in_range
parse_uint-format_uint n h =
    rw (parse_uint-read _ (format_uint-ne-nil n), read-format_uint n (omega arith)) (ground arith)

-- What is read is a uint32.
pub parse_uint_bounds : (t : Text) (n : ℕ) → parse_uint t ≡ some n → n ≤ max_u32
unfolding parse_uint
parse_uint_bounds [] n h = absurd (cc)
parse_uint_bounds (c ∷ t) n h = go (read (c ∷ t) 0) h
  where
    go : (r : Option ℕ) → in_range r ≡ some n → n ≤ max_u32
    go none k = absurd (cc)
    go (some m) k = ground arith
