-- ===== src/Text.antt =====
-- The text functions of Rust's `str` that the program uses, over lists of code points.
pub mod Laws
pub mod Numbers
pub mod Utf8
pub mod Decimals
use Prim.Native.Char.{code}
use Prim.Native.String.{String}
use unraid.Base.{
  none, some, reverse, Option, if◌then◌else◌, ℕ, ◌≡◌, refl, ◌↔◌, Bool, true, false, ◌&&◌, ◌||◌,
  List, [], ◌∷◌, ◌++◌, arith, leb, ◌==◌,
}

abbrev pub Text : Type 0
Text = List ℕ

-- The code points of a literal.
abbrev pub codes : String → Text
codes String.[] = []
codes (String.◌∷◌ c s) = code c ∷ codes s

unfoldable pub text_eq : Text → Text → Bool
text_eq [] [] = true
text_eq (a ∷ s) (b ∷ t) = a == b && text_eq s t
text_eq _ _ = false

pub text_eq_iff : (s t : Text) → (text_eq s t ≡ true) ↔ (s ≡ t)
unfolding text_eq
text_eq_iff [] [] = ground arith
text_eq_iff [] (b ∷ t) = ground arith
text_eq_iff (a ∷ s) [] = ground arith
text_eq_iff (a ∷ s) (b ∷ t) = ground (arith, text_eq_iff s t)

pub text_eq_refl : (s : Text) → text_eq s s ≡ true
text_eq_refl s = (text_eq_iff s s).1 refl

-- Whether a text is among those of a list.
unfoldable pub contains : List Text → Text → Bool
contains [] t = false
contains (x ∷ xs) t = text_eq x t || contains xs t

-- `char::is_whitespace`: the code points with the property White_Space.
unfoldable pub is_whitespace : ℕ → Bool
is_whitespace c =
    leb 9 c && leb c 13
    || c == 32
    || c == 0x85
    || c == 0xa0
    || c == 0x1680
    || leb 0x2000 c && leb c 0x200a
    || c == 0x2028
    || c == 0x2029
    || c == 0x202f
    || c == 0x205f
    || c == 0x3000

unfoldable pub is_ascii_digit : ℕ → Bool
is_ascii_digit c = leb b'0' c && leb c b'9'

unfoldable pub is_ascii_alphanumeric : ℕ → Bool
unfolding is_ascii_digit
is_ascii_alphanumeric c = leb b'a' c && leb c b'z' || leb b'A' c && leb c b'Z' || is_ascii_digit c

unfoldable pub is_ascii_hexdigit : ℕ → Bool
unfolding is_ascii_digit
is_ascii_hexdigit c = is_ascii_digit c || leb b'a' c && leb c b'f' || leb b'A' c && leb c b'F'

-- `char::is_control`: the code points of category Cc.
unfoldable pub is_control : ℕ → Bool
is_control c = leb c 0x1f || leb 0x7f c && leb c 0x9f

abbrev pub is_empty : Text → Bool
is_empty [] = true
is_empty (_ ∷ _) = false

-- `words.join(sep)`
unfoldable pub join : Text → List Text → Text
join sep [] = []
join sep (w ∷ []) = w
join sep (w ∷ v ∷ ws) = w ++ (sep ++ join sep (v ∷ ws))

-- `t.strip_prefix(p)`
unfoldable pub strip_prefix : Text → Text → Option Text
strip_prefix [] t = some t
strip_prefix (a ∷ p) [] = none
strip_prefix (a ∷ p) (b ∷ t) = if a == b then strip_prefix p t else none

-- `t.starts_with(p)`
unfoldable pub starts_with : Text → Text → Bool
starts_with [] t = true
starts_with (a ∷ p) [] = false
starts_with (a ∷ p) (b ∷ t) = a == b && starts_with p t

abbrev map_head : (Text → Text) → Option (Text × Text) → Option (Text × Text)
map_head f none = none
map_head f (some (a, b)) = some (f a, b)

-- `t.split_once(c)`
unfoldable pub split_once : ℕ → Text → Option (Text × Text)
split_once c [] = none
split_once c (x ∷ t) = if x == c then some ([], t) else map_head (◌∷◌ x) (split_once c t)

-- `t.split_once(p)` for a text `p`
unfoldable pub split_once_text : Text → Text → Option (Text × Text)
unfolding strip_prefix
split_once_text p [] = elim (strip_prefix p []) [ none ↦ none | some r ↦ some ([], r) ]
split_once_text p (x ∷ t) = elim (strip_prefix p (x ∷ t)) [
  | none ↦ map_head (◌∷◌ x) (split_once_text p t)
  | some r ↦ some ([], r)
]

abbrev pub cons_first : ℕ → List Text → List Text
cons_first x [] = (x ∷ []) ∷ []
cons_first x (w ∷ ws) = (x ∷ w) ∷ ws

-- `t.split(c)`
unfoldable pub split : ℕ → Text → List Text
split c [] = [] ∷ []
split c (x ∷ t) = if x == c then [] ∷ split c t else cons_first x (split c t)

-- `t.trim_start_matches(p)`, `t.trim_end_matches(p)`, `t.trim_matches(p)`
unfoldable pub trim_start_matches : (ℕ → Bool) → Text → Text
trim_start_matches p [] = []
trim_start_matches p (x ∷ t) = if p x then trim_start_matches p t else x ∷ t

unfoldable pub trim_end_matches : (ℕ → Bool) → Text → Text
unfolding trim_start_matches
trim_end_matches p t = reverse (trim_start_matches p (reverse t))

unfoldable pub trim_matches : (ℕ → Bool) → Text → Text
unfolding trim_end_matches
trim_matches p t = trim_end_matches p (trim_start_matches p t)

unfoldable pub trim : Text → Text
unfolding trim_matches is_whitespace
trim t = trim_matches is_whitespace t

-- `t.lines()`: `\n` or `\r\n` ends a line, and the last line may have no end.
abbrev chomp : Text → Text
chomp [] = []
chomp (x ∷ []) = if x == b'\r' then [] else x ∷ []
chomp (x ∷ y ∷ t) = x ∷ chomp (y ∷ t)

unfoldable pub lines_from : Text → Text → List Text
lines_from cur [] = if is_empty cur then [] else cur ∷ []
lines_from cur (x ∷ t) =
    if x == b'\n' then chomp cur ∷ lines_from [] t else lines_from (cur ++ x ∷ []) t

unfoldable pub lines : Text → List Text
unfolding lines_from
lines t = lines_from [] t

-- `t.split_whitespace()`
unfoldable pub words_from : Text → Text → List Text
unfolding is_whitespace
words_from cur [] = if is_empty cur then [] else cur ∷ []
words_from cur (x ∷ t) =
    let rest = words_from [] t in
    let longer = words_from (cur ++ x ∷ []) t in
    if is_whitespace x then (if is_empty cur then rest else cur ∷ rest) else longer

unfoldable pub split_whitespace : Text → List Text
unfolding words_from
split_whitespace t = words_from [] t
