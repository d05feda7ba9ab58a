-- ===== src/Safefs.antt =====
-- src/docker_adopt/safefs.rs: the files of a directory that is held open. A file's mode is left out.
pub mod Changed
pub mod Succeeds
pub mod Kept
use unraid.Base.{err, [], ◌∷◌, inl, inr}
use unraid.Text.{is_empty, codes, Text, text_eq}
use unraid.Effects.{fail, ◌>>=◌, give, ask_state, ◌>>◌, Effect, fail_if}
use unraid.Base.{elem, ◌||◌, if◌then◌else◌, not, Option, ◌++◌, ℕ, Bool, List, ok, true, false}
use unraid.Order.{list_ord, nat_ord}
use unraid.Base.{none, some}

-- What a directory has under a name. A symbolic link is special: it is never followed.
pub data Node : Type 0 where
  regular : (content : List ℕ) → Node
  directory special : Node

abbrev pub Folder : Type 0
Folder = Text → Option Node

pub data Call : Type 0 where
  open_call stat_call create_call write_call rename_call unlink_call : (name : Text) → Call

-- The system calls that fail for a reason that is not in the directory, such as a full disk, and
-- what is left in a file whose writing fails.
pub record Faults : Type 0 where
  pub fails : Call → Bool
  pub torn : Text → List ℕ

pub data FileError : Type 0 where
  not_component : (name : Text) → FileError
  call_failed : (call : Call) → FileError
  not_regular already_exists is_directory : (name : Text) → FileError

abbrev pub FileEffect : Type 0 → Type 0
FileEffect A = Effect FileError Folder A

unfoldable pub is_component : Text → Bool
unfolding text_eq
is_component name = not (
    is_empty name
    || text_eq name (codes ".")
    || text_eq name (codes "..")
    || elem b'/' name
    || elem 0 name)

unfoldable pub component : Text → FileEffect (Unit {0})
unfolding is_component
component name = fail_if (not (is_component name)) (not_component name)

abbrev pub call : Faults → Call → FileEffect (Unit {0})
call f c = fail_if (f.fails c) (call_failed c)

unfoldable pub put_node : Text → Option Node → Folder → Folder
unfolding text_eq
put_node name found d n = if text_eq n name then found else d n

abbrev pub set_node : Text → Option Node → FileEffect (Unit {0})
set_node name found d = (ok tt, put_node name found d)

abbrev pub content_of : Text → Option Node → FileEffect (Option (List ℕ))
content_of name none = give none
content_of name (some (regular content)) = give (some content)
content_of name (some directory) = fail (not_regular name)
content_of name (some special) = fail (not_regular name)

-- `read_file`, with `open_regular`
unfoldable pub read_file : Faults → Text → FileEffect (Option (List ℕ))
unfolding component
read_file f name =
    component name >> call f (open_call name) >> (ask_state >>= λ d. content_of name (d name))

abbrev pub absent : Text → Option Node → FileEffect (Unit {0})
absent name none = give tt
absent name (some _) = fail (already_exists name)

-- The file is made before it is written, and stays if that fails.
abbrev pub write_new : Faults → Text → List ℕ → FileEffect (Unit {0})
write_new f name content =
    if f.fails (write_call name)
    then set_node name (some (regular (f.torn name))) >> fail (call_failed (write_call name))
    else set_node name (some (regular content))

unfoldable pub create_file : Faults → Text → List ℕ → FileEffect (Unit {0})
unfolding component put_node
create_file f name content =
    component name
    >> call f (create_call name)
    >> (ask_state >>= λ d. absent name (d name))
    >> write_new f name content

abbrev pub replaceable : Text → Option Node → FileEffect (Unit {0})
replaceable name none = give tt
replaceable name (some (regular _)) = give tt
replaceable name (some directory) = fail (not_regular name)
replaceable name (some special) = fail (not_regular name)

abbrev pub temp_name : Text → Text → Text
temp_name name suffix = name ++ (codes ".orca-tmp-" ++ suffix)

-- The temporary file takes the place of the named one, or is removed if it cannot.
unfoldable pub rename_over : Faults → Text → Text → List ℕ → FileEffect (Unit {0})
unfolding put_node
rename_over f temp name content =
    if f.fails (rename_call name)
    then (if f.fails (unlink_call temp) then give tt else set_node temp none)
      >> fail (call_failed (rename_call name))
    else set_node temp none >> set_node name (some (regular content))

-- `suffix` is what `random_suffix` gives.
unfoldable pub replace_file : Faults → Text → Text → List ℕ → FileEffect (Unit {0})
unfolding component create_file rename_over
replace_file f suffix name content =
    component name
    >> call f (stat_call name)
    >> (ask_state >>= λ d. replaceable name (d name))
    >> create_file f (temp_name name suffix) content
    >> rename_over f (temp_name name suffix) name content

abbrev pub unlinked : Faults → Text → Option Node → FileEffect Bool
unlinked f name none = give false
unlinked f name (some directory) = fail (is_directory name)
unlinked f name (some (regular _)) = call f (unlink_call name) >> set_node name none >> give true
unlinked f name (some special) = call f (unlink_call name) >> set_node name none >> give true

unfoldable pub remove_file : Faults → Text → FileEffect Bool
unfolding component put_node
remove_file f name =
    component name >> call f (stat_call name) >> (ask_state >>= λ d. unlinked f name (d name))
