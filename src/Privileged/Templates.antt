-- ===== src/Privileged/Templates.antt =====
-- src/docker_adopt/privileged.rs: the template that root writes for a container, and restores.
pub mod FileNames
pub mod Apart
pub mod Stored
pub mod Restored
pub mod Atomic
mod Tests
use unraid.Template.Render.{managed_marker}
use unraid.Privileged.Checked.{
  check_write, check_names, not_orcas, no_backup, file_failed, has_part, TemplateError, wrap_error,
}
use unraid.Template.Xml.{extract_name}
use unraid.Privileged.RunId.{IdError, validate_run_id}
use unraid.Paths.{file_name, components}
use unraid.Text.Utf8.{bytes}
use unraid.Safefs.{
  remove_file, FileError, Folder, replace_file, Faults, FileEffect, read_file, create_file,
}
use unraid.Names.{NameError, validate_name}
use unraid.Adopt.{backup_path, template_path}
use unraid.Effects.{fail_if, fail, ◌>>=◌, give, lift, ◌>>◌, Effect}
use unraid.Text.{text_eq, codes, is_empty, is_whitespace, trim_end_matches, Text, starts_with}
use unraid.Base.{
  not, is_nil, ◌==◌, ◌&&◌, leb, zero, if◌then◌else◌, guard, ◌-◌, ◌||◌, get_or, length, option_eq,
  reverse, List, Bool, suc, ◌++◌, Result, Option, ℕ, ok, err, true, false, [], ◌∷◌, inl, inr,
}
use unraid.Order.{list_ord, nat_ord}
use unraid.Base.{none, some}

abbrev pub TemplateEffect : Type 0 → Type 0
TemplateEffect A = Effect TemplateError Folder A

-- `in_dir`: the name of the file that is meant, in the directory that is held.
unfoldable pub in_dir : Text → Text
unfolding components file_name
in_dir path = get_or (file_name (components path)) []

unfoldable pub none_sentinel : Text → Text → Text
unfolding backup_path
none_sentinel name id = backup_path name id ++ codes ".none"

unfoldable pub template_file : Text → Text
unfolding in_dir template_path
template_file name = in_dir (template_path name)

unfoldable pub backup_file : Text → Text → Text
unfolding in_dir backup_path
backup_file name id = in_dir (backup_path name id)

unfoldable pub sentinel_file : Text → Text → Text
unfolding in_dir none_sentinel
sentinel_file name id = in_dir (none_sentinel name id)

abbrev pub file : {A : Type 0} → FileEffect A → TemplateEffect A
file act d = (wrap_error file_failed (act d).0, (act d).1)

pub data OldTemplate : Type 0 where
  backed_up no_previous : OldTemplate

unfoldable pub save_old : Faults → Text → Text → Option (List ℕ) → TemplateEffect OldTemplate
unfolding create_file backup_file sentinel_file
save_old f name id (some old) = file (create_file f (backup_file name id) old) >> give backed_up
save_old f name id none = file (create_file f (sentinel_file name id) []) >> give no_previous

unfoldable pub write_template_in : Faults → Text → Text → Text → Text → TemplateEffect OldTemplate
unfolding check_write save_old read_file replace_file template_file bytes
write_template_in f suffix name xml id =
    lift (check_write name xml id)
    >> (file (read_file f (template_file name)) >>= save_old f name id)
    >>= λ saved. file (replace_file f suffix (template_file name) (bytes xml)) >> give saved

pub data Restoration : Type 0 where
  put_back removed_own : Restoration

-- Whether a template is one that the plugin wrote. The bytes of the marker are ASCII, and what a
-- lossy decoding replaces is not.
unfoldable pub is_orcas : List ℕ → Bool
unfolding has_part
is_orcas cur = is_nil cur || has_part managed_marker cur

unfoldable pub remove_own : Faults → Text → Text → Option (List ℕ) → TemplateEffect Restoration
unfolding read_file remove_file template_file sentinel_file is_orcas
remove_own f name id none = fail (no_backup id (template_file name))
remove_own f name id (some _) =
    (file (read_file f (template_file name)) >>= λ cur.
    fail_if (not (is_orcas (get_or cur []))) (not_orcas (template_file name)))
    >> file (remove_file f (template_file name))
    >>= λ _. file (remove_file f (sentinel_file name id)) >>= λ _. give removed_own

unfoldable pub restore_from :
    Faults → Text → Text → Text → Option (List ℕ) → TemplateEffect Restoration
unfolding replace_file read_file template_file sentinel_file remove_own
restore_from f suffix name id (some old) =
    file (replace_file f suffix (template_file name) old) >> give put_back
restore_from f suffix name id none =
    file (read_file f (sentinel_file name id)) >>= remove_own f name id

unfoldable pub restore_template_in : Faults → Text → Text → Text → TemplateEffect Restoration
unfolding check_names read_file backup_file restore_from
restore_template_in f suffix name id =
    lift (check_names name id)
    >> (file (read_file f (backup_file name id)) >>= restore_from f suffix name id)
