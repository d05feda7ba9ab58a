-- ===== src/Text/Decimals.antt =====
-- Numbers that are printed are read back.
use unraid.Base.{
  refl, inr, inl, ltb, [], some, Bool-cases, zero, ◌∷◌, ◌%◌, ◌+◌, ◌/◌, suc, arith, ◌≡◌, ◌<◌,
}
use unraid.Text.{Text, is_ascii_digit}
use unraid.Text.Numbers.{parse_digits, decimal, decimal_from, digits_from}
use Prim.Native.Nat.{ℕ}

digits_from-decimal_from :
    (fuel n : ℕ) (later : Text)
    → n < fuel
    → digits_from 0 (decimal_from fuel n later) ≡ digits_from n later
unfolding digits_from decimal_from is_ascii_digit
digits_from-decimal_from zero n later h = absurd (omega arith)
digits_from-decimal_from (suc fuel) n later h =
    ground (arith, digits_from-decimal_from fuel (n / 10) ((b'0' + n % 10) ∷ later))

-- Two numbers with the same digits are the same.
pub decimal-injective : (m n : ℕ) → decimal m ≡ decimal n → m ≡ n
unfolding decimal digits_from
decimal-injective m n h =
    let a : digits_from 0 (decimal_from (suc m) m []) ≡ some m =
      digits_from-decimal_from (suc m) m [] (omega arith) in
    let b : digits_from 0 (decimal_from (suc n) n []) ≡ some n =
      digits_from-decimal_from (suc n) n [] (omega arith) in
    cc (a, b, h)

decimal_from-cons :
    (fuel n c : ℕ) (later : Text) → (d : ℕ) × (t : Text) × (decimal_from fuel n (c ∷ later) ≡ d ∷ t)
unfolding decimal_from
decimal_from-cons zero n c later = (c, later, refl)
decimal_from-cons (suc fuel) n c later = elim (Bool-cases (ltb n 10)) [
  | inl e ↦ (b'0' + n, c ∷ later, rw e)
  | inr e ↦ rw e (decimal_from-cons fuel (n / 10) (b'0' + n % 10) (c ∷ later))
]

digits_of : (n : ℕ) → (d : ℕ) × (t : Text) × (decimal n ≡ d ∷ t)
unfolding decimal decimal_from
digits_of n = elim (Bool-cases (ltb n 10)) [
  | inl e ↦ (b'0' + n, [], rw e)
  | inr e ↦ rw e (decimal_from-cons n (n / 10) (b'0' + n % 10) [])
]

-- The digits of a number are parsed as the number.
pub parse_digits-decimal : (n : ℕ) → parse_digits (decimal n) ≡ some n
unfolding parse_digits digits_from decimal
parse_digits-decimal n =
    let (d, t, e) = digits_of n in
    let a : digits_from 0 (decimal n) ≡ some n =
      digits_from-decimal_from (suc n) n [] (omega arith) in
    rw e (rw e at a)
