-- ===== src/Names.antt =====
-- src/docker_adopt/mod.rs: the names that docker's objects may have.
use unraid.Order.{list_ord, nat_ord}
use unraid.Text.Utf8.{bytes}
use unraid.Text.{is_ascii_alphanumeric, Text}
use unraid.Base.{length, leb, all, ◌==◌, ◌||◌, ◌&&◌, guard, [], false, Result, Bool, ◌∷◌, ℕ, List}

abbrev pub is_name_byte : ℕ → Bool
is_name_byte c = is_ascii_alphanumeric c || c == b'_' || c == b'.' || c == b'-'

abbrev pub first_is_alphanumeric : List ℕ → Bool
first_is_alphanumeric [] = false
first_is_alphanumeric (c ∷ b) = is_ascii_alphanumeric c

abbrev pub after_first : List ℕ → List ℕ
after_first [] = []
after_first (c ∷ b) = b

unfoldable pub is_valid_name : Text → Bool
unfolding bytes is_ascii_alphanumeric
is_valid_name name =
    let b = bytes name in
    first_is_alphanumeric b && all is_name_byte (after_first b) && leb (length b) 128

-- The error names what has the name, and the name.
pub data NameError : Type 0 where
  invalid_name : (what name : Text) → NameError

unfoldable pub validate_name : Text → Text → Result NameError (Unit {0})
validate_name what name = guard (is_valid_name name) (invalid_name what name)
