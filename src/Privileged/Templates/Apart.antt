-- ===== src/Privileged/Templates/Apart.antt =====
-- No two of the files that a template's backup and restoration use are the same.
use unraid.Base.{arith}
use unraid.Names.{is_name_byte}
use unraid.Ownership.Bounds.{all-append}
use unraid.Privileged.Templates.FileNames.{in_dir-plain, is_component-plain, is_plain}
use unraid.Safefs.{temp_name, is_component}
use unraid.Adopt.{templates_dir, template_path, backup_path}
use unraid.Privileged.Templates.{in_dir, none_sentinel, backup_file, sentinel_file, template_file}
use unraid.Text.{is_ascii_digit, codes, is_ascii_alphanumeric, Text}
use unraid.Base.{append_assoc, refl, ◌∙◌, ap, sym, ◌++◌, ◌≡◌, ◌≢◌, ℕ, true, [], ◌∷◌}
use unraid.Order.{list_ord, nat_ord}
use mathlib.Core.List.{append_cancel_left}

abbrev pub own_file : Text → Text
own_file name = codes "my-" ++ (name ++ codes ".xml")

own_plain : (name : Text) → is_plain name ≡ true → is_plain (name ++ codes ".xml") ≡ true
unfolding is_ascii_alphanumeric is_ascii_digit
own_plain name h = all-append is_name_byte name (codes ".xml") h refl

template_file-eq : (name : Text) → is_plain name ≡ true → template_file name ≡ own_file name
unfolding template_file template_path
template_file-eq name h = in_dir-plain (name ++ codes ".xml") (own_plain name h)

-- A name that begins with that of the container's template.
begins_plain :
    (name t : Text)
    → is_plain name ≡ true
    → is_plain t ≡ true
    → is_plain ((name ++ codes ".xml") ++ t) ≡ true
begins_plain name t h k = all-append is_name_byte (name ++ codes ".xml") t (own_plain name h) k

backup_plain : (id : Text) → is_plain id ≡ true → is_plain (codes ".bak-" ++ id) ≡ true
unfolding is_ascii_alphanumeric is_ascii_digit
backup_plain id h = all-append is_name_byte (codes ".bak-") id refl h

sentinel_plain :
    (id : Text) → is_plain id ≡ true → is_plain ((codes ".bak-" ++ id) ++ codes ".none") ≡ true
unfolding is_ascii_alphanumeric is_ascii_digit
sentinel_plain id h =
    all-append is_name_byte (codes ".bak-" ++ id) (codes ".none") (backup_plain id h) refl

temp_plain :
    (suffix : Text) → is_plain suffix ≡ true → is_plain (codes ".orca-tmp-" ++ suffix) ≡ true
unfolding is_ascii_alphanumeric is_ascii_digit
temp_plain suffix h = all-append is_name_byte (codes ".orca-tmp-") suffix refl h

backup_file-eq :
    (name id : Text)
    → is_plain name ≡ true
    → is_plain id ≡ true
    → backup_file name id ≡ own_file name ++ (codes ".bak-" ++ id)
unfolding backup_file backup_path template_path
backup_file-eq name id h k =
    in_dir-plain ((name ++ codes ".xml") ++ (codes ".bak-" ++ id))
      (begins_plain name (codes ".bak-" ++ id) h (backup_plain id k))

sentinel_file-eq :
    (name id : Text)
    → is_plain name ≡ true
    → is_plain id ≡ true
    → sentinel_file name id ≡ own_file name ++ ((codes ".bak-" ++ id) ++ codes ".none")
unfolding sentinel_file none_sentinel backup_path template_path
sentinel_file-eq name id h k =
    let tail = (codes ".bak-" ++ id) ++ codes ".none" in
    let e : sentinel_file name id
        ≡ in_dir (templates_dir ++ (codes "/my-" ++ ((name ++ codes ".xml") ++ tail))) =
      ap (λ t. in_dir (templates_dir ++ (codes "/my-" ++ t)))
        (append_assoc (name ++ codes ".xml") (codes ".bak-" ++ id) (codes ".none")) in
    e
    ∙ in_dir-plain ((name ++ codes ".xml") ++ tail) (begins_plain name tail h (sentinel_plain id k))

apart_by : (name s t : Text) → s ≢ t → own_file name ++ s ≢ own_file name ++ t
apart_by name s t h e = h (append_cancel_left (own_file name) s t e)

-- The files of a container's template and of a run, with the temporary file of a replacement.
pub record FilesApart (name id suffix : Text) : Type 0 where
  pub template_ok : is_component (template_file name) ≡ true
  pub backup_ok : is_component (backup_file name id) ≡ true
  pub sentinel_ok : is_component (sentinel_file name id) ≡ true
  pub temp_ok : is_component (temp_name (template_file name) suffix) ≡ true
  pub backup_is_other : backup_file name id ≢ template_file name
  pub sentinel_is_other : sentinel_file name id ≢ template_file name
  pub backup_not_sentinel : backup_file name id ≢ sentinel_file name id
  pub temp_is_other : temp_name (template_file name) suffix ≢ template_file name
  pub temp_not_backup : temp_name (template_file name) suffix ≢ backup_file name id
  pub temp_not_sentinel : temp_name (template_file name) suffix ≢ sentinel_file name id

longer : (s : Text) (c : ℕ) (t : Text) → s ++ c ∷ t ≢ s
longer [] c t h = cc h
longer (x ∷ s) c t h = longer s c t (cc h)

abbrev second : Text → ℕ
second (_ ∷ c ∷ _) = c
second _ = 0

temp_is_no_backup : (s t : Text) → codes ".orca-tmp-" ++ s ≢ codes ".bak-" ++ t
temp_is_no_backup s t e = let same : ◌≡◌ {A = ℕ} b'o' b'b' = ap second e in omega arith

pub files_apart :
    (name id suffix : Text)
    → is_plain name ≡ true
    → is_plain id ≡ true
    → is_plain suffix ≡ true
    → FilesApart name id suffix
files_apart name id suffix h k j =
    let tail = codes ".bak-" ++ id in
    let own = template_file-eq name h in
    let bak = backup_file-eq name id h k in
    let sen = sentinel_file-eq name id h k in
    record {
      template_ok = rw own (is_component-plain (name ++ codes ".xml") (own_plain name h));
      backup_ok = rw bak (
          is_component-plain ((name ++ codes ".xml") ++ tail)
            (begins_plain name tail h (backup_plain id k)));
      sentinel_ok = rw sen (
          is_component-plain ((name ++ codes ".xml") ++ (tail ++ codes ".none"))
            (begins_plain name (tail ++ codes ".none") h (sentinel_plain id k)));
      temp_ok = rw own (
          is_component-plain ((name ++ codes ".xml") ++ (codes ".orca-tmp-" ++ suffix))
            (begins_plain name (codes ".orca-tmp-" ++ suffix) h (temp_plain suffix j)));
      backup_is_other = λ e. longer (own_file name) _ _ (sym bak ∙ e ∙ own);
      sentinel_is_other = λ e. longer (own_file name) _ _ (sym sen ∙ e ∙ own);
      backup_not_sentinel = λ e.
          apart_by name (tail ++ codes ".none") tail (longer tail _ _) (sym (sym bak ∙ e ∙ sen));
      temp_is_other =
          λ e. longer (own_file name) _ _ (ap (λ t. temp_name t suffix) (sym own) ∙ e ∙ own);
      temp_not_backup = λ e.
          apart_by name (codes ".orca-tmp-" ++ suffix) tail (temp_is_no_backup suffix id)
            (ap (λ t. temp_name t suffix) (sym own) ∙ e ∙ bak);
      temp_not_sentinel = λ e.
          apart_by name (codes ".orca-tmp-" ++ suffix) (tail ++ codes ".none")
            (temp_is_no_backup suffix (id ++ codes ".none"))
            (ap (λ t. temp_name t suffix) (sym own) ∙ e ∙ sen);
    }
