-- ===== src/Cache/Decode.antt =====
-- Reading a query back: the percent-decoding of RFC 3986, and the fields that it carries.
use unraid.Base.{
  ◌+◌, ◌-◌, [], ◌&&◌, ◌*◌, leb, ◌==◌, ◌∷◌, if◌then◌else◌, Option, List, ℕ, none, some,
}
use unraid.Text.{Text, split, split_once}

-- The value of a hex digit.
unfoldable pub unhex : ℕ → Option ℕ
unhex c =
    if leb b'0' c && leb c b'9'
    then some (c - b'0')
    else if leb b'A' c && leb c b'F'
    then some (c - b'A' + 10)
    else if leb b'a' c && leb c b'f'
    then some (c - b'a' + 10)
    else none

-- Where the decoder is in a `%XX`: outside, before the first digit, or behind it.
pub data At : Type 0 where
  outside high : At
  low : ℕ → At

abbrev pub cons_byte : ℕ → Option (List ℕ) → Option (List ℕ)
cons_byte b none = none
cons_byte b (some bs) = some (b ∷ bs)

abbrev pub two_digits : Option ℕ → Option ℕ → Option (List ℕ) → Option (List ℕ)
two_digits (some h) (some l) rest = cons_byte (h * 16 + l) rest
two_digits _ _ rest = none

unfoldable pub decode_at : At → Text → Option (List ℕ)
decode_at outside [] = some []
decode_at high [] = none
decode_at (low h) [] = none
decode_at outside (c ∷ t) =
    let inside = decode_at high t in
    let rest = decode_at outside t in if c == b'%' then inside else cons_byte c rest
decode_at high (c ∷ t) = decode_at (low c) t
decode_at (low h) (c ∷ t) = two_digits (unhex h) (unhex c) (decode_at outside t)

-- One field of a query: its name, and the bytes of its value.
unfoldable pub read_field : Text → Option (Text × List ℕ)
read_field part = elim (split_once b'=' part) [
  | none ↦ none
  | some (name, v) ↦ elim (decode_at outside v) [ none ↦ none | some bs ↦ some (name, bs) ]
]

abbrev pub cons_field : {A : Type 0} → Option A → Option (List A) → Option (List A)
cons_field (some f) (some fs) = some (f ∷ fs)
cons_field _ _ = none

unfoldable pub read_fields : List Text → Option (List (Text × List ℕ))
read_fields [] = some []
read_fields (p ∷ ps) = cons_field (read_field p) (read_fields ps)

unfoldable pub read_query : Text → Option (List (Text × List ℕ))
read_query q = read_fields (split b'&' q)
