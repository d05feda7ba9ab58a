-- ===== src/Paths.antt =====
-- `std::path`: a path as its components, which is how the source compares paths.
use unraid.Text.{starts_with, is_empty, codes, text_eq, Text, split, join}
use unraid.Base.{
  ◌||◌, map, if◌then◌else◌, ◌&&◌, ◌++◌, List, Option, Bool, some, true, false, [], ◌∷◌,
}
use unraid.Order.{list_ord, nat_ord}
use unraid.Base.{none}

pub data Component : Type 0 where
  root_dir cur_dir parent_dir : Component
  normal : Text → Component

abbrev pub FilePath : Type 0
FilePath = List Component

abbrev component_eq : Component → Component → Bool
component_eq root_dir root_dir = true
component_eq cur_dir cur_dir = true
component_eq parent_dir parent_dir = true
component_eq (normal s) (normal t) = text_eq s t
component_eq _ _ = false

unfoldable pub path_eq : FilePath → FilePath → Bool
path_eq [] [] = true
path_eq (a ∷ p) (b ∷ q) = let rest = path_eq p q in component_eq a b && rest
path_eq _ _ = false

-- `p.starts_with(q)`, the prefix first.
unfoldable pub is_prefix : FilePath → FilePath → Bool
is_prefix [] p = true
is_prefix (a ∷ q) [] = false
is_prefix (a ∷ q) (b ∷ p) = let rest = is_prefix q p in component_eq a b && rest

abbrev piece : Text → FilePath
piece t =
    if is_empty t || text_eq t (codes ".")
    then []
    else if text_eq t (codes "..")
    then parent_dir ∷ []
    else normal t ∷ []

abbrev pieces : List Text → FilePath
pieces [] = []
pieces (t ∷ ts) = piece t ++ pieces ts

abbrev first_piece : List Text → FilePath
first_piece [] = []
first_piece (t ∷ ts) = (if text_eq t (codes ".") then cur_dir ∷ [] else piece t) ++ pieces ts

-- `Path::components`
unfoldable pub components : Text → FilePath
unfolding split
components t =
    if starts_with (codes "/") t
    then root_dir ∷ pieces (split b'/' t)
    else first_piece (split b'/' t)

-- `file_name`: the last component, if it is a name.
unfoldable pub file_name : FilePath → Option Text
file_name [] = none
file_name (normal t ∷ []) = some t
file_name (_ ∷ []) = none
file_name (_ ∷ b ∷ p) = file_name (b ∷ p)

abbrev and_first : Component → Option FilePath → Option FilePath
and_first a none = none
and_first a (some p) = some (a ∷ p)

-- `parent`
unfoldable pub parent : FilePath → Option FilePath
parent [] = none
parent (root_dir ∷ []) = none
parent (_ ∷ []) = some []
parent (a ∷ b ∷ p) = and_first a (parent (b ∷ p))

abbrev shown_component : Component → Text
shown_component root_dir = []
shown_component cur_dir = codes "."
shown_component parent_dir = codes ".."
shown_component (normal t) = t

-- A path as text, without the separators that its components do not need.
unfoldable pub path_text : FilePath → Text
unfolding join
path_text (root_dir ∷ []) = codes "/"
path_text p = join (codes "/") (map shown_component p)
