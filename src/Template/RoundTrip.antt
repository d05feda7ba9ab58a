-- ===== src/Template/RoundTrip.antt =====
-- Escaped text is read back.
use unraid.Text.{codes, starts_with, Text}
use unraid.Template.Xml.{replace, xml_unescape, replace_from, xml_escape, escape_char}
use unraid.Base.{refl, arith, ◌++◌, ◌||◌, ◌≡◌, if◌then◌else◌, ◌==◌, Bool, ℕ, [], ◌∷◌}
use unraid.Order.{list_ord, nat_ord}

-- A text in which only some of the characters are escaped.
escape_some : (ℕ → Bool) → Text → Text
unfolding escape_char
escape_some q [] = []
escape_some q (c ∷ s) = (if q c then escape_char c else c ∷ []) ++ escape_some q s

abbrev amp : ℕ → Bool
amp c = c == b'&'

abbrev with_apos : ℕ → Bool
with_apos c = amp c || c == b'\''

abbrev with_quot : ℕ → Bool
with_quot c = with_apos c || c == b'"'

abbrev with_gt : ℕ → Bool
with_gt c = with_quot c || c == b'>'

abbrev every : ℕ → Bool
every c = with_gt c || c == b'<'

xml_escape-every : (s : Text) → xml_escape s ≡ escape_some every s
unfolding xml_escape escape_some escape_char
xml_escape-every [] = refl
xml_escape-every (c ∷ s) = ground (arith, xml_escape-every s)

replace_lt :
    (s : Text)
    → replace_from 0 (codes "&lt;") (codes "<") (escape_some every s) ≡ escape_some with_gt s
unfolding escape_some escape_char replace_from starts_with
replace_lt [] = refl
replace_lt (c ∷ s) = ground (arith, replace_lt s)

replace_gt :
    (s : Text)
    → replace_from 0 (codes "&gt;") (codes ">") (escape_some with_gt s) ≡ escape_some with_quot s
unfolding escape_some escape_char replace_from starts_with
replace_gt [] = refl
replace_gt (c ∷ s) = ground (arith, replace_gt s)

replace_quot :
    (s : Text)
    → replace_from 0 (codes "&quot;") (b'"' ∷ []) (escape_some with_quot s)
      ≡ escape_some with_apos s
unfolding escape_some escape_char replace_from starts_with
replace_quot [] = refl
replace_quot (c ∷ s) = ground (arith, replace_quot s)

replace_apos :
    (s : Text)
    → replace_from 0 (codes "&apos;") (codes "'") (escape_some with_apos s) ≡ escape_some amp s
unfolding escape_some escape_char replace_from starts_with
replace_apos [] = refl
replace_apos (c ∷ s) = ground (arith, replace_apos s)

replace_amp : (s : Text) → replace_from 0 (codes "&amp;") (codes "&") (escape_some amp s) ≡ s
unfolding escape_some escape_char replace_from starts_with
replace_amp [] = refl
replace_amp (c ∷ s) = ground (arith, replace_amp s)

-- Text that is escaped and unescaped is the same text, whatever markup it holds.
pub xml_unescape-xml_escape : (s : Text) → xml_unescape (xml_escape s) ≡ s
unfolding xml_unescape replace
xml_unescape-xml_escape s =
    rw (
      xml_escape-every s,
      replace_lt s,
      replace_gt s,
      replace_quot s,
      replace_apos s,
      replace_amp s,
    )
