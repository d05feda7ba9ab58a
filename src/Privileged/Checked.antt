-- ===== src/Privileged/Checked.antt =====
-- src/docker_adopt/privileged.rs: `check_template`, and what is checked before a template is touched.
use unraid.Base.{◌>>◌}
use unraid.Template.Xml.{extract_name}
use unraid.Safefs.{FileError}
use unraid.Privileged.RunId.{IdError, validate_run_id}
use unraid.Names.{NameError, validate_name}
use unraid.Text.Utf8.{bytes}
use unraid.Text.{text_eq, codes, is_whitespace, is_empty, trim_end_matches, starts_with, Text}
use unraid.Base.{
  ◌==◌, ◌&&◌, leb, zero, guard, if◌then◌else◌, ◌-◌, ◌||◌, option_eq, reverse, length, suc, Bool,
  List, Result, ℕ, Option, ok, err, [], ◌∷◌,
}
use unraid.Order.{list_ord, nat_ord}
use unraid.Base.{some}

-- The source's limit, in bytes.
abbrev pub max_template_bytes : ℕ
max_template_bytes = 1048576

pub data TemplateError : Type 0 where
  template_too_large not_a_container not_one_name : TemplateError
  other_name : (found : Option Text) (expected : Text) → TemplateError
  name_refused : NameError → TemplateError
  id_refused : IdError → TemplateError
  file_failed : FileError → TemplateError
  not_orcas : (file : Text) → TemplateError
  no_backup : (id file : Text) → TemplateError

-- `xml.contains(part)`, of bytes.
unfoldable pub has_part : List ℕ → List ℕ → Bool
unfolding starts_with
has_part part [] = is_empty part
has_part part (x ∷ t) = let later = has_part part t in starts_with part (x ∷ t) || later

-- `xml.matches(part).count()`, with the characters of the last match that are still to pass.
unfoldable pub count_from : ℕ → Text → Text → ℕ
unfolding starts_with
count_from skip part [] = 0
count_from (suc skip) part (x ∷ t) = count_from skip part t
count_from zero part (x ∷ t) =
    let after = count_from (length part - 1) part t in
    let later = count_from 0 part t in if starts_with part (x ∷ t) then suc after else later

abbrev ends_with : Text → Text → Bool
ends_with part t = starts_with (reverse part) (reverse t)

abbrev name_is : Text → Option Text → Bool
name_is name found = option_eq text_eq found (some name)

unfoldable pub check_template : Text → Text → Result TemplateError (Unit {0})
unfolding bytes has_part count_from trim_end_matches is_whitespace extract_name text_eq starts_with
check_template name xml =
    guard (leb (length (bytes xml)) max_template_bytes) template_too_large
    >> guard
        (has_part (codes "<Container") xml
          && ends_with (codes "</Container>") (trim_end_matches is_whitespace xml))
        not_a_container
    >> guard (count_from 0 (codes "<Name>") xml == 1) not_one_name
    >> guard (name_is name (extract_name xml)) (other_name (extract_name xml) name)

abbrev pub wrap_error {ℓ} : {E F : Type 0} {A : Type ℓ} → (E → F) → Result E A → Result F A
wrap_error f (ok a) = ok a
wrap_error f (err e) = err (f e)

unfoldable pub check_names : Text → Text → Result TemplateError (Unit {0})
unfolding validate_name validate_run_id
check_names name id =
    wrap_error name_refused (validate_name (codes "container name") name)
    >> wrap_error id_refused (validate_run_id id)

unfoldable pub check_write : Text → Text → Text → Result TemplateError (Unit {0})
unfolding check_names check_template
check_write name xml id = check_names name id >> check_template name xml
