-- ===== src/Text/Utf8.antt =====
-- The bytes of a text: its UTF-8 encoding.
use unraid.Base.{
  ◌-◌, length, none, ◌==◌, some, Option, ◌%◌, ◌/◌, ◌+◌, [], ltb, ◌++◌, if◌then◌else◌, ◌∷◌, ℕ, List,
}
use unraid.Text.{Text}

-- The bytes of one code point.
unfoldable pub encode : ℕ → List ℕ
encode c =
    if ltb c 0x80
    then c ∷ []
    else if ltb c 0x800
    then (0xc0 + c / 64) ∷ (0x80 + c % 64) ∷ []
    else if ltb c 0x10000
    then (0xe0 + c / 4096) ∷ (0x80 + c / 64 % 64) ∷ (0x80 + c % 64) ∷ []
    else (0xf0 + c / 262144) ∷ (0x80 + c / 4096 % 64) ∷ (0x80 + c / 64 % 64) ∷ (0x80 + c % 64) ∷ []

unfoldable pub bytes : Text → List ℕ
unfolding encode
bytes [] = []
bytes (c ∷ t) = encode c ++ bytes t

abbrev and_more : ℕ → Option Text → Option Text
and_more c none = none
and_more c (some t) = some (c ∷ t)

-- `t.get(..n)`: the first n bytes, if they end a character of the text.
unfoldable pub prefix_bytes : ℕ → Text → Option Text
unfolding encode
prefix_bytes n [] = if n == 0 then some [] else none
prefix_bytes n (c ∷ t) =
    let width = length (encode c) in
    let rest = prefix_bytes (n - width) t in
    if n == 0 then some [] else if ltb n width then none else and_more c rest
