-- ===== src/Text/Numbers.antt =====
-- Reading and printing numbers: `str::parse` and `to_string` of Rust's integers.
use unraid.Base.{
  ℕ, zero, suc, ◌+◌, ◌*◌, ◌-◌, ◌/◌, ◌%◌, ◌^◌, [], ◌∷◌, Option, none, some, ltb, ◌==◌, if◌then◌else◌,
}
use unraid.Text.{Text, is_ascii_digit}

-- An `i64` or `i32`: `negsuc n` is -(n + 1).
pub data ℤ : Type 0 where
  pos negsuc : ℕ → ℤ

unfoldable pub digits_from : ℕ → Text → Option ℕ
digits_from n [] = some n
digits_from n (c ∷ t) =
    let rest = digits_from (n * 10 + (c - b'0')) t in if is_ascii_digit c then rest else none

-- A number written in digits, at least one.
unfoldable pub parse_digits : Text → Option ℕ
unfolding digits_from is_ascii_digit
parse_digits [] = none
parse_digits (c ∷ t) = digits_from 0 (c ∷ t)

abbrev below : ℕ → Option ℕ → Option ℕ
below bound none = none
below bound (some n) = if ltb n bound then some n else none

-- `parse::<uW>()` at the width W: an optional `+`, digits, and no overflow.
unfoldable pub parse_unsigned : ℕ → Text → Option ℕ
unfolding parse_digits
parse_unsigned width [] = none
parse_unsigned width (c ∷ t) = below (2 ^ width) (parse_digits (if c == b'+' then t else c ∷ t))

abbrev to_negative : Option ℕ → Option ℤ
to_negative none = none
to_negative (some zero) = some (ℤ.pos 0)
to_negative (some (suc n)) = some (ℤ.negsuc n)

abbrev to_positive : Option ℕ → Option ℤ
to_positive none = none
to_positive (some n) = some (ℤ.pos n)

-- `parse::<i64>()`
unfoldable pub parse_i64 : Text → Option ℤ
unfolding parse_digits
parse_i64 [] = none
parse_i64 (c ∷ t) =
    if c == b'-'
    then to_negative (below (2 ^ 63 + 1) (parse_digits t))
    else to_positive (below (2 ^ 63) (parse_digits (if c == b'+' then t else c ∷ t)))

-- The decimal digits of a number, with more fuel than it has digits.
unfoldable pub decimal_from : ℕ → ℕ → Text → Text
decimal_from zero n later = later
decimal_from (suc fuel) n later =
    let more = decimal_from fuel (n / 10) ((b'0' + n % 10) ∷ later) in
    if ltb n 10 then (b'0' + n) ∷ later else more

-- `n.to_string()`
unfoldable pub decimal : ℕ → Text
unfolding decimal_from
decimal n = decimal_from (suc n) n []
