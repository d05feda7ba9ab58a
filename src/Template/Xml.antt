-- ===== src/Template/Xml.antt =====
-- src/docker_adopt/template.rs: the escaping of XML text, and the elements that are found by it.
use unraid.Text.{starts_with, is_empty, codes, trim, Text, split_once_text}
use unraid.Base.{zero, ◌-◌, length, ◌==◌, suc, ◌++◌, if◌then◌else◌, ℕ, Option, some, [], ◌∷◌}
use unraid.Order.{list_ord, nat_ord}
use unraid.Base.{none}

unfoldable pub escape_char : ℕ → Text
escape_char c =
    if c == b'&'
    then codes "&amp;"
    else if c == b'<'
    then codes "&lt;"
    else if c == b'>'
    then codes "&gt;"
    else if c == b'"'
    then codes "&quot;"
    else if c == b'\''
    then codes "&apos;"
    else c ∷ []

unfoldable pub xml_escape : Text → Text
unfolding escape_char
xml_escape [] = []
xml_escape (c ∷ s) = escape_char c ++ xml_escape s

-- `t.replace(p, r)`: the first argument counts what is left of an occurrence.
unfoldable pub replace_from : ℕ → Text → Text → Text → Text
replace_from skip p r [] = []
replace_from (suc skip) p r (c ∷ t) = replace_from skip p r t
replace_from zero p r (c ∷ t) =
    let found = replace_from (length p - 1) p r t in
    let rest = replace_from zero p r t in if starts_with p (c ∷ t) then r ++ found else c ∷ rest

unfoldable pub replace : Text → Text → Text → Text
unfolding replace_from
replace p r t = replace_from 0 p r t

unfoldable pub xml_unescape : Text → Text
unfolding replace
xml_unescape s = replace (codes "&amp;") (codes "&") (
    replace (codes "&apos;") (codes "'") (
      replace (codes "&quot;") (b'"' ∷ [])
        (replace (codes "&gt;") (codes ">") (replace (codes "&lt;") (codes "<") s))))

-- What stands between an opening tag and the closing tag behind it.
abbrev between : Text → Text → Option Text
between close t = elim (split_once_text close t) [ none ↦ none | some (inner, _) ↦ some inner ]

abbrev unescaped : Option Text → Option Text
unescaped none = none
unescaped (some t) = some (xml_unescape (trim t))

unfoldable pub extract_name : Text → Option Text
unfolding split_once_text
extract_name xml = elim (split_once_text (codes "<Name>") xml) [
  | none ↦ none
  | some (_, rest) ↦ unescaped (between (codes "</Name>") rest)
]

-- The inner text of the element that `icon_span` finds, and the rest of the file around it. An
-- element `<Icon/>` has no inner text.
pub record IconSpan : Type 0 where
  pub before : Text
  pub inner : Option Text
  pub after : Text

abbrev icon_close : Text → Option (Text × Text) → Option IconSpan
icon_close before none = none
icon_close before (some (inner, after)) =
    some (record { before = before; inner = some inner; after = after })

abbrev icon_open : Option (Text × Text) → Option IconSpan
icon_open none = none
icon_open (some (before, rest)) = icon_close before (split_once_text (codes "</Icon>") rest)

unfoldable pub icon_span : Text → Option IconSpan
unfolding split_once_text
icon_span xml = elim (split_once_text (codes "<Icon/>") xml) [
  | some (before, after) ↦ some (record { before = before; inner = none; after = after })
  | none ↦ icon_open (split_once_text (codes "<Icon>") xml)
]

abbrev shown_icon : Text → Option Text
shown_icon inner = if is_empty inner then none else some (xml_unescape inner)

abbrev icon_of : Option IconSpan → Option Text
icon_of none = none
icon_of (some span) = elim span.inner [ none ↦ none | some inner ↦ shown_icon (trim inner) ]

unfoldable pub extract_icon : Text → Option Text
unfolding icon_span
extract_icon xml = icon_of (icon_span xml)
