-- ===== src/Privileged/Templates/Atomic.antt =====
-- A writing that fails has not touched the template.
use unraid.Base.{ok}
use unraid.Base.{Result}
use unraid.Privileged.Templates.Restored.{names_of_write, names_plain}
use unraid.Privileged.Templates.FileNames.{is_plain}
use unraid.Text.Utf8.{bytes}
use unraid.Base.{◌≡◌, true}
use unraid.Privileged.Checked.{TemplateError, check_write}
use unraid.Effects.{◌>>◌, ◌>>=◌, lift, give}
use unraid.Privileged.Templates.Apart.{files_apart, FilesApart}
use unraid.Safefs.Kept.{
  replace_file-KeepsOnError, Keeps-create_file, Keeps-read_file, Keeps-bind, KeepsOnError-bind,
  KeepsOnError, Keeps,
}
use unraid.Safefs.{read_file, replace_file, Folder, Faults, FileEffect}
use unraid.Privileged.Templates.{
  TemplateEffect, backup_file, backed_up, sentinel_file, no_previous, template_file, file,
  write_template_in, save_old,
}
use unraid.Text.{Text}
use unraid.Base.{sym, refl, ◌∙◌, ap, ℕ, Result-cases, List, Option, err, [], inl, inr}
use unraid.Order.{list_ord, nat_ord}
use unraid.Base.{none, some}

Keeps-file : {A : Type 0} (n : Text) (act : FileEffect A) → Keeps n act → Keeps n (file act)
Keeps-file n act h = h

file-KeepsOnError :
    {A : Type 0} (n : Text) (act : FileEffect A) → KeepsOnError n act → KeepsOnError n (file act)
file-KeepsOnError n act h d e d' r = elim (Result-cases (act d).0) [
  | inl (a, q) ↦ absurd (cc (rw q at (ap (λ x. x.0) r)))
  | inr (m, q) ↦ h d m d' (ap (λ x. (x, (act d).1)) q ∙ ap (λ t. (err m, t)) (ap (λ x. x.1) r))
]

Keeps-save_old :
    (f : Faults) (name id suffix : Text) (old : Option (List ℕ))
    → FilesApart name id suffix
    → Keeps (template_file name) (save_old f name id old)
unfolding save_old
Keeps-save_old f name id suffix none apart =
    Keeps-bind (template_file name) _ (λ _. give no_previous)
      (Keeps-create_file (template_file name) f (sentinel_file name id) []
        (λ e. apart.sentinel_is_other (sym e)))
      (λ _ d. refl)
Keeps-save_old f name id suffix (some content) apart =
    Keeps-bind (template_file name) _ (λ _. give backed_up)
      (Keeps-create_file (template_file name) f (backup_file name id) content
        (λ e. apart.backup_is_other (sym e)))
      (λ _ d. refl)

-- What succeeds afterwards is not what has failed.
KeepsOnError-give :
    {A B : Type 0} (n : Text) (act : TemplateEffect A) (b : B)
    → KeepsOnError n act
    → KeepsOnError n (act >>= λ _. give b)
unfolding ◌>>=◌
KeepsOnError-give n act b h d e d' r = elim (Result-cases (act d).0) [
  | inl (a, q) ↦ absurd (cc (ap (λ x. x.0) (rw (q, ◌>>=◌) at r)))
  | inr (m, q) ↦
      let failed : (err m, (act d).1) ≡ (err e, d') = rw (q, ◌>>=◌) at r in
      let error : m ≡ e = cc failed in
      let left : (act d).1 ≡ d' = ap (λ x. x.1) failed in
      h d e d' (
        ap (λ x. (x, (act d).1)) q ∙ ap (λ x. (err x, (act d).1)) error ∙ ap (λ t. (err e, t)) left)
]

stopped :
    {A B C : Type 0} (res : Result TemplateError A) (m : TemplateError)
    (next : A → TemplateEffect B) (rest : B → TemplateEffect C) (d : Folder)
    → res ≡ err m
    → (lift res >>= next >>= rest) d ≡ (err m, d)
unfolding ◌>>=◌
stopped (ok a) m next rest d h = absurd (cc h)
stopped (err k) m next rest d h = ap (λ x. (x, d)) (ap err (cc h))

write_after_check :
    (f : Faults) (suffix name xml id : Text)
    → FilesApart name id suffix
    → KeepsOnError (template_file name) (write_template_in f suffix name xml id)
unfolding write_template_in
write_after_check f suffix name xml id apart =
    let tpl = template_file name in
    KeepsOnError-bind tpl _ _
      (Keeps-bind tpl (lift (check_write name xml id)) _ (λ d. refl)
        (λ _.
          Keeps-bind tpl _ (save_old f name id) (Keeps-read_file tpl f tpl)
            (λ old. Keeps-save_old f name id suffix old apart)))
      (λ saved. KeepsOnError-give tpl _ saved (
        file-KeepsOnError tpl (replace_file f suffix tpl (bytes xml)) (
          replace_file-KeepsOnError tpl f suffix tpl (bytes xml)
            (λ e. apart.temp_is_other (sym e)))))

-- If the writing of a template fails, at whatever step and system call, the container's template is
-- as it was.
pub write_template_in-KeepsOnError :
    (f : Faults) (suffix name xml id : Text) (before after : Folder) (e : TemplateError)
    → is_plain suffix ≡ true
    → write_template_in f suffix name xml id before ≡ (err e, after)
    → after (template_file name) ≡ before (template_file name)
unfolding write_template_in
write_template_in-KeepsOnError f suffix name xml id before after e plain h =
    elim (Result-cases (check_write name xml id)) [
      | inl (u, q) ↦
          let (n, i) = names_plain name id (names_of_write name xml id q) in
          write_after_check f suffix name xml id (files_apart name id suffix n i plain) before e
            after h
      | inr (m, q) ↦
          let same =
            stopped (check_write name xml id) m
              (λ _. file (read_file f (template_file name)) >>= save_old f name id)
              (λ saved. file (replace_file f suffix (template_file name) (bytes xml)) >> give saved)
              before q in
          let left = ap (λ x. x.1) (sym same ∙ h) in sym (ap (λ x. x (template_file name)) left)
    ]
