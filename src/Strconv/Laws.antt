-- ===== src/Strconv/Laws.antt =====
-- Reading back what was written.
use deckard.Common.{
  ℕ, zero, suc, ◌+◌, ◌/◌, ◌%◌, ◌≡◌, ◌<◌, ◌≤◌, refl, some, [], ◌∷◌, ltb, Str, arith, ◌∙◌, inl, inr,
  Bool-cases,
}
use deckard.Common.Int.{ℤ, pos, negsuc, Int64}
use deckard.Strconv.{
  format_digits, format_int64, read_digits, str_to_int64, positive_in_range, negative_in_range,
}

read-format_digits :
    (fuel n : ℕ) (rest : Str)
    → n < fuel
    → read_digits 0 (format_digits fuel n rest) ≡ read_digits n rest
unfolding format_digits read_digits
read-format_digits zero n rest h = absurd (omega arith)
read-format_digits (suc fuel) n rest h =
    ground (arith, read-format_digits fuel (n / 10) ((n % 10 + 48) ∷ rest))

-- The text of a number is not empty and begins with a digit.
format_digits-head :
    (fuel n : ℕ) (rest : Str)
    → n < fuel
    → (c : ℕ) × (s : Str) × (format_digits fuel n rest ≡ c ∷ s) × (48 ≤ c) × (c ≤ 57)
unfolding format_digits
format_digits-head zero n rest h = absurd (omega arith)
format_digits-head (suc fuel) n rest h = elim (Bool-cases (ltb n 10)) [
  | inl small ↦ (n + 48, rest, rw small, omega arith, ground arith)
  | inr big ↦ rw big (format_digits-head fuel (n / 10) ((n % 10 + 48) ∷ rest) (ground arith))
]

unsigned :
    (c : ℕ) (s : Str)
    → 48 ≤ c
    → c ≤ 57
    → str_to_int64 (c ∷ s) ≡ positive_in_range (read_digits 0 (c ∷ s))
unfolding str_to_int64 read_digits
unsigned c [] h k = ground arith
unsigned c (d ∷ s) h k = ground arith

read_format : (fuel n : ℕ) → n < fuel → read_digits 0 (format_digits fuel n []) ≡ some n
unfolding read_digits
read_format fuel n h = read-format_digits fuel n [] h

signed : (c : ℕ) (s : Str) → str_to_int64 (b'-' ∷ c ∷ s) ≡ negative_in_range (read_digits 0 (c ∷ s))
unfolding str_to_int64
signed c s = refl

-- The text of an int64 reads back as that int64.
pub str_to_int64-format_int64 : (v : ℤ) → Int64 v → str_to_int64 (format_int64 v) ≡ some v
unfolding format_int64
str_to_int64-format_int64 (pos n) h =
    let (c, s, e, lo, hi) = format_digits-head (suc n) n [] (omega arith) in
    rw (e, unsigned c s lo hi, ← e, read_format (suc n) n (omega arith)) (ground arith)
str_to_int64-format_int64 (negsuc n) h =
    let (c, s, e, lo, hi) = format_digits-head (suc (suc n)) (suc n) [] (omega arith) in
    rw e (signed c s ∙ rw (← e, read_format (suc (suc n)) (suc n) (omega arith)) (ground arith))
