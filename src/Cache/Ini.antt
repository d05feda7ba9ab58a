-- ===== src/Cache/Ini.antt =====
-- src/share_cache.rs: the ini files of emhttp.
use unraid.Base.{
  ◌==◌, Bool, if◌then◌else◌, map, ℕ, Option, [], ◌++◌, ◌∷◌, List, none, some, reverse, get_or,
}
use unraid.Text.{
  is_empty, Text, codes, trim, lines, strip_prefix, split_once, trim_matches, text_eq,
}
use unraid.Map.{Map, get, insert}
use unraid.Order.{list_ord, nat_ord}

abbrev pub Sections : Type 0
Sections = List (Text × Map Text Text)

-- The sections that are read, the last of them apart.
pub record Reading : Type 0 where
  pub earlier : Sections
  pub name : Text
  pub kv : Map Text Text

abbrev pub sections_of : Reading → Sections
sections_of s = s.earlier ++ (s.name, s.kv) ∷ []

abbrev is_quote_mark : ℕ → Bool
is_quote_mark c = c == b'"'

-- `strip_suffix(']')`
abbrev without_bracket : Text → Option Text
without_bracket r = elim (strip_prefix (codes "]") (reverse r)) [
  | none ↦ none
  | some n ↦ some (reverse n)
]

-- The name of a section's header.
unfoldable pub header : Text → Option Text
header t = elim (strip_prefix (codes "[") t) [ none ↦ none | some r ↦ without_bracket r ]

unfoldable pub read_line : Reading → Text → Reading
unfolding header
read_line s line =
    let t = trim line in
    elim (header t) [
      | some name ↦ record {
        earlier = sections_of s;
        name = trim_matches is_quote_mark name;
        kv = [];
      }
      | none ↦ elim (split_once b'=' t) [
        | none ↦ s
        | some (k, v) ↦ record s { kv = insert (trim k) (trim_matches is_quote_mark (trim v)) s.kv }
      ]
    ]

unfoldable pub read_lines : Reading → List Text → Reading
read_lines s [] = s
read_lines s (l ∷ ls) = read_lines (read_line s l) ls

unfoldable pub parse_ini : Text → Sections
unfolding read_lines
parse_ini text = sections_of (read_lines (record { earlier = []; name = []; kv = [] }) (lines text))

pub record ShareCache : Type 0 where
  pub share : Text
  pub use_cache : Text
  pub cache_pool : Text
  pub floor : Text

abbrev pub to_share : Text × Map Text Text → ShareCache
to_share (share, kv) = record {
  share = share;
  use_cache = get_or (get kv (codes "useCache")) [];
  cache_pool = get_or (get kv (codes "cachePool")) [];
  floor = get_or (get kv (codes "floor")) [];
}

abbrev pub skip_first : {A : Type 0} → List A → List A
skip_first [] = []
skip_first (_ ∷ xs) = xs

unfoldable pub parse_shares_ini : Text → List ShareCache
parse_shares_ini text = map to_share (skip_first (parse_ini text))

-- The section of a share, behind the first one.
unfoldable pub section_named : Text → Sections → Option (Map Text Text)
section_named share [] = none
section_named share ((s, kv) ∷ rest) = if text_eq s share then some kv else section_named share rest

-- The first value of a key, and not an empty one.
unfoldable pub first_value : Text → Sections → Option Text
first_value key [] = none
first_value key ((_, kv) ∷ rest) = elim (get kv key) [
  | some v ↦ some v
  | none ↦ first_value key rest
]

abbrev pub non_empty : Option Text → Option Text
non_empty none = none
non_empty (some t) = if is_empty t then none else some t

-- `parse_ini(..).remove(0).1`
abbrev pub first_section : Sections → Map Text Text
first_section [] = []
first_section ((_, kv) ∷ _) = kv
