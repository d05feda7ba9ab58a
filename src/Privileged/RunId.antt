-- ===== src/Privileged/RunId.antt =====
-- src/docker_adopt/privileged.rs: `validate_run_id` and `validate_nonce`.
use unraid.Text.Utf8.{bytes}
use unraid.Text.Numbers.{parse_unsigned}
use unraid.Text.{is_ascii_digit, Text}
use unraid.Base.{
  all, not, elem, zero, ◌-◌, ltb, ◌==◌, if◌then◌else◌, leb, suc, guard, length, ◌^◌, ◌||◌, ◌%◌,
  ◌&&◌, take, Option, get_or, List, Bool, Result, ℕ, false, [], ◌∷◌,
}
use unraid.Order.{list_ord, nat_ord}
use unraid.Base.{none, some}

abbrev pub drop {ℓ} : {A : Type ℓ} → ℕ → List A → List A
drop zero xs = xs
drop (suc n) [] = []
drop (suc n) (x ∷ xs) = drop n xs

-- `xs[from .. from + n]`
abbrev pub slice : ℕ → ℕ → List ℕ → List ℕ
slice from n xs = take n (drop from xs)

abbrev pub is_hex_lower : ℕ → Bool
is_hex_lower c = is_ascii_digit c || leb b'a' c && leb c b'f'

abbrev number_at : ℕ → ℕ → Text → ℕ
number_at from n ts = get_or (parse_unsigned 32 (slice from n ts)) (2 ^ 32 - 1)

unfoldable pub is_leap : ℕ → Bool
is_leap y = y % 4 == 0 && (not (y % 100 == 0) || y % 400 == 0)

-- The days of a month, none if there is no such month.
unfoldable pub days_of : ℕ → ℕ → Option ℕ
unfolding is_leap
days_of y m =
    if elem m (1 ∷ 3 ∷ 5 ∷ 7 ∷ 8 ∷ 10 ∷ 12 ∷ [])
    then some 31
    else if elem m (4 ∷ 6 ∷ 9 ∷ 11 ∷ [])
    then some 30
    else if m == 2
    then some (if is_leap y then 29 else 28)
    else none

abbrev is_day : ℕ → Option ℕ → Bool
is_day d none = false
is_day d (some days) = leb 1 d && leb d days

unfoldable pub real_timestamp : Text → Bool
unfolding parse_unsigned days_of
real_timestamp ts =
    is_day (number_at 6 2 ts) (days_of (number_at 0 4 ts) (number_at 4 2 ts))
    && ltb (number_at 9 2 ts) 24
    && ltb (number_at 11 2 ts) 60
    && ltb (number_at 13 2 ts) 60

-- The tests of the bytes. Where they hold, the id is ASCII, so that its slices are those of its bytes.
unfoldable pub has_id_bytes : List ℕ → Bool
unfolding is_ascii_digit
has_id_bytes b =
    length b == 24
    && (all is_ascii_digit (take 8 b)
        && (all (◌==◌ b'-') (slice 8 1 b)
            && (all is_ascii_digit (slice 9 6 b)
                && (all (◌==◌ b'-') (slice 15 1 b) && all is_hex_lower (drop 16 b)))))

pub data IdError : Type 0 where
  invalid_run_id : (id : Text) → IdError
  invalid_nonce : IdError

unfoldable pub validate_run_id : Text → Result IdError (Unit {0})
unfolding has_id_bytes real_timestamp bytes
validate_run_id id =
    guard (has_id_bytes (bytes id) && real_timestamp (take 15 id)) (invalid_run_id id)

unfoldable pub validate_nonce : Text → Result IdError (Unit {0})
unfolding bytes is_ascii_digit
validate_nonce n = guard (length (bytes n) == 16 && all is_hex_lower (bytes n)) invalid_nonce
