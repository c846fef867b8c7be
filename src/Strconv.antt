-- ===== src/Strconv.antt =====
-- Go's decimal texts of int64 values, as `strconv.FormatInt(v, 10)` writes them and
-- `utils.StrToInt64` of internal/queue/utils/primitive_conversion.go reads them.
pub mod Laws
use deckard.Common.{
  ℕ, zero, suc, ◌+◌, ◌-◌, ◌*◌, ◌/◌, ◌%◌, ◌^◌, ◌≡◌, Bool, true, false, Option, none, some, List, [],
  ◌∷◌, if◌then◌else◌, leb, ltb, ◌==◌, ◌&&◌, Str,
}
use deckard.Common.Int.{ℤ, pos, negsuc, sub_ℕ}

-- The digits of n before the text `rest`; the fuel is more than n.
unfoldable pub format_digits : ℕ → ℕ → Str → Str
format_digits zero n rest = rest
format_digits (suc fuel) n rest =
    let more = format_digits fuel (n / 10) ((n % 10 + 48) ∷ rest) in
    if ltb n 10 then (n + 48) ∷ rest else more

unfoldable pub format_int64 : ℤ → Str
format_int64 (pos n) = format_digits (suc n) n []
format_int64 (negsuc n) = b'-' ∷ format_digits (suc (suc n)) (suc n) []

-- The number that the digits continue, if the text holds digits only.
unfoldable pub read_digits : ℕ → Str → Option ℕ
read_digits acc [] = some acc
read_digits acc (c ∷ s) =
    let more = read_digits (acc * 10 + (c - 48)) s in if leb 48 c && leb c 57 then more else none

abbrev pub positive_in_range : Option ℕ → Option ℤ
positive_in_range none = none
positive_in_range (some n) = if ltb n (2 ^ 63) then some (pos n) else none

abbrev pub negative_in_range : Option ℕ → Option ℤ
negative_in_range none = none
negative_in_range (some n) = if leb n (2 ^ 63) then some (sub_ℕ 0 n) else none

-- `none` stands for an error.
unfoldable pub str_to_int64 : Str → Option ℤ
str_to_int64 [] = none
str_to_int64 (c ∷ []) = if leb 48 c && leb c 57 then some (pos (c - 48)) else none
str_to_int64 (c ∷ d ∷ s) =
    if c == b'-'
    then negative_in_range (read_digits 0 (d ∷ s))
    else if c == b'+'
    then positive_in_range (read_digits 0 (d ∷ s))
    else positive_in_range (read_digits 0 (c ∷ d ∷ s))
