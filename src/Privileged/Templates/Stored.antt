-- ===== src/Privileged/Templates/Stored.antt =====
-- What a successful writing of a template leaves: the new template, and what there was before it.
use unraid.Effects.{lift-inv, ◌>>=◌, ◌>>◌, lift, give, bind-inv}
use unraid.Base.{sym, get_or}
use mathlib.Core.Path.{subst}
use unraid.Text.Utf8.{bytes}
use unraid.Safefs.Changed.{
  replace_file-Changed, read_file-inv, put_node-Changed, create_file-inv, Changed, node_of,
}
use unraid.Privileged.Checked.{check_write, file_failed, wrap_error}
use unraid.Privileged.Templates.{
  OldTemplate, backed_up, no_previous, write_template_in, save_old, backup_file, sentinel_file,
  template_file, file,
}
use unraid.Text.{Text}
use unraid.Safefs.{read_file, replace_file, create_file, Faults, regular, Folder, FileEffect}
use unraid.Base.{◌∙◌, ℕ, Result-cases, List, ap, Option, ◌≡◌, ok, [], inl, inr}
use unraid.Order.{list_ord, nat_ord}
use unraid.Base.{none, some}

-- A file operation that has succeeded within a template's.
file-inv :
    {A : Type 0} (act : FileEffect A) (d : Folder) (a : A) (d' : Folder)
    → file act d ≡ (ok a, d')
    → act d ≡ (ok a, d')
file-inv act d a d' h = elim (Result-cases (act d).0) [
  | inl (b, e) ↦
      let whole : act d ≡ (ok b, (act d).1) = ap (λ r. (r, (act d).1)) e in
      let same : ok b ≡ ok a = rw e at (ap (λ r. r.0) h) in
      let value : b ≡ a = cc same in
      let left : (act d).1 ≡ d' = ap (λ r. r.1) h in
      whole ∙ ap (λ b. (ok b, (act d).1)) value ∙ ap (λ t. (ok a, t)) left
  | inr (m, e) ↦ absurd (cc (rw e at (ap (λ r. r.0) h)))
]

pub file-ok :
    {A : Type 0} (act : FileEffect A) (d : Folder) (a : A) (d' : Folder)
    → act d ≡ (ok a, d')
    → file act d ≡ (ok a, d')
file-ok act d a d' h = ap (λ r. (wrap_error file_failed r.0, r.1)) h

-- The file that keeps what was there, and its content: the run's backup, or the empty sentinel that
-- tells that there was nothing.
abbrev pub keeper : Text → Text → Option (List ℕ) → Text
keeper name id none = sentinel_file name id
keeper name id (some _) = backup_file name id

-- What a successful writing has done.
pub record WrittenFor (name xml id suffix : Text) (before after : Folder) : Type 0 where
  pub checked : check_write name xml id ≡ ok tt
  pub old : Option (List ℕ)
  pub was : before (template_file name) ≡ node_of old
  pub saved : Folder
  pub was_free : before (keeper name id old) ≡ none
  pub is_saved : Changed (keeper name id old) (some (regular (get_or old []))) before saved
  pub is_written : Changed (template_file name) (some (regular (bytes xml))) saved after

create_file-Changed :
    (f : Faults) (name : Text) (content : List ℕ) (d : Folder) (u : Unit {0}) (d' : Folder)
    → create_file f name content d ≡ (ok u, d')
    → (d name ≡ none) × Changed name (some (regular content)) d d'
create_file-Changed f name content d u d' h =
    let (free, made) = create_file-inv f name content d u d' h in
    (
      free,
      subst (Changed name (some (regular content)) d) (sym made)
          (put_node-Changed name (some (regular content)) d),
    )

save_old-Changed :
    (f : Faults) (name id : Text) (old : Option (List ℕ)) (d : Folder) (w : OldTemplate)
    (d' : Folder)
    → save_old f name id old d ≡ (ok w, d')
    → (d (keeper name id old) ≡ none)
      × Changed (keeper name id old) (some (regular (get_or old []))) d d'
unfolding save_old
save_old-Changed f name id none d w d' h =
    let act = file (create_file f (sentinel_file name id) []) in
    let (u, t, e, k) = bind-inv act (λ _. give no_previous) d w d' h in
    let left : t ≡ d' = ap (λ r. r.1) k in
    let (free, made) =
      create_file-Changed f (sentinel_file name id) [] d u t
        (file-inv (create_file f (sentinel_file name id) []) d u t e) in
    (free, subst (Changed (sentinel_file name id) (some (regular [])) d) left made)
save_old-Changed f name id (some content) d w d' h =
    let act = file (create_file f (backup_file name id) content) in
    let (u, t, e, k) = bind-inv act (λ _. give backed_up) d w d' h in
    let left : t ≡ d' = ap (λ r. r.1) k in
    let (free, made) =
      create_file-Changed f (backup_file name id) content d u t
        (file-inv (create_file f (backup_file name id) content) d u t e) in
    (free, subst (Changed (backup_file name id) (some (regular content)) d) left made)

pub write_template_in-WrittenFor :
    (f : Faults) (suffix name xml id : Text) (d : Folder) (w : OldTemplate) (d' : Folder)
    → write_template_in f suffix name xml id d ≡ (ok w, d')
    → WrittenFor name xml id suffix d d'
unfolding write_template_in
write_template_in-WrittenFor f suffix name xml id d w d' h =
    let write = file (replace_file f suffix (template_file name) (bytes xml)) in
    let read = file (read_file f (template_file name)) in
    let check = lift (check_write name xml id) in
    let (saved, t, e, k) =
      bind-inv (check >> (read >>= save_old f name id)) (λ saved. write >> give saved) d w d' h in
    let (u, r, a, b) = bind-inv check (λ _. read >>= save_old f name id) d saved t e in
    let (valid, same) = lift-inv (check_write name xml id) d u r a in
    let (old, q, c, g) = bind-inv read (save_old f name id) r saved t b in
    let (was, kept) =
      read_file-inv f (template_file name) r old q
        (file-inv (read_file f (template_file name)) r old q c) in
    let (free, made) = save_old-Changed f name id old q saved t g in
    let (v, z, i, j) = bind-inv write (λ _. give saved) t w d' k in
    let (_, replaced) =
      replace_file-Changed f suffix (template_file name) (bytes xml) t v z
        (file-inv (replace_file f suffix (template_file name) (bytes xml)) t v z i) in
    let left : z ≡ d' = ap (λ r. r.1) j in
    let start : q ≡ d = sym (same ∙ kept) in
    record {
      checked = valid;
      old = old;
      was = ap (λ x. x (template_file name)) same ∙ was;
      saved = t;
      was_free = sym (ap (λ x. x (keeper name id old)) start) ∙ free;
      is_saved =
          subst (λ x. Changed (keeper name id old) (some (regular (get_or old []))) x t) start made;
      is_written =
          subst (Changed (template_file name) (some (regular (bytes xml))) t) left replaced;
    }
