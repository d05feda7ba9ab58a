-- ===== src/Privileged/Templates/Restored.antt =====
-- What is written for a run is undone by the run's restoration.
use unraid.Privileged.RunId.{validate_run_id}
use unraid.Privileged.Templates.FileNames.{id-plain, name-plain, is_plain}
use unraid.Names.{is_valid_name, validate_name}
use unraid.Base.{Result-cases}
use unraid.Template.Render.{managed_marker}
use unraid.Privileged.Checked.{check_write, not_orcas, has_part, check_names}
use unraid.Base.{arith, not, ap, get_or, Option, true}
use unraid.Privileged.Templates.Stored.{write_template_in-WrittenFor, keeper, file-ok}
use unraid.Effects.{fail_if, lift, ◌>>=◌, give, bind_step}
use unraid.Base.{refl, sym}
use unraid.Safefs.Succeeds.{read_file-succeeds, remove_file-succeeds, replace_file-succeeds}
use unraid.Safefs.Succeeds.{replace_file-succeeds}
use unraid.Text.Utf8.{bytes}
use unraid.Privileged.Templates.{
  write_template_in, OldTemplate, Restoration, removed_own, restore_template_in, remove_own,
  is_orcas, file, put_back, backup_file, restore_from, sentinel_file, template_file,
}
use unraid.Safefs.Changed.{node_of, replace_file-Changed, Changed}
use unraid.Privileged.Templates.Apart.{files_apart, FilesApart}
use unraid.Text.{text_eq_iff, text_eq, Text}
use unraid.Safefs.{remove_file, read_file, replace_file, temp_name, regular, Folder, Call, Faults}
use unraid.Base.{sym, ◌∙◌, ◌≢◌, Bool-cases, ℕ, List, ◌≡◌, ok, false, [], inl, inr}
use unraid.Order.{list_ord, nat_ord}
use unraid.Base.{none, some}

module _ (g : Faults) (quiet : (c : Call) → g.fails c ≡ false) (other name id : Text)
    (apart : FilesApart name id other) (before saved after : Folder) (xml : Text)
    (written : Changed (template_file name) (some (regular (bytes xml))) saved after) where
  put_back_everywhere :
      (content : List ℕ) (last : Folder)
      → before (template_file name) ≡ some (regular content)
      → Changed (backup_file name id) (some (regular content)) before saved
      → Changed (template_file name) (some (regular content)) after last
      → (n : Text) → n ≢ backup_file name id
      → last n ≡ before n
  put_back_everywhere content last was kept back n h =
      elim (Bool-cases (text_eq n (template_file name))) [
        | inl e ↦
            let same : n ≡ template_file name = (text_eq_iff n (template_file name)).0 e in
            rw same (back.at ∙ sym was)
        | inr e ↦
            let differs : n ≢ template_file name =
              λ q. cc ((text_eq_iff n (template_file name)).1 q, e) in
            back.elsewhere n differs ∙ written.elsewhere n differs ∙ kept.elsewhere n h
      ]

  removed_everywhere :
      (middle last : Folder)
      → before (template_file name) ≡ none
      → before (sentinel_file name id) ≡ none
      → Changed (sentinel_file name id) (some (regular [])) before saved
      → Changed (template_file name) none after middle
      → Changed (sentinel_file name id) none middle last
      → (n : Text) → last n ≡ before n
  removed_everywhere middle last was free kept gone cleared n =
      elim (Bool-cases (text_eq n (sentinel_file name id))) [
        | inl e ↦
            let same : n ≡ sentinel_file name id = (text_eq_iff n (sentinel_file name id)).0 e in
            rw same (cleared.at ∙ sym free)
        | inr e ↦
            let differs : n ≢ sentinel_file name id =
              λ q. cc ((text_eq_iff n (sentinel_file name id)).1 q, e) in
            cleared.elsewhere n differs ∙ elim (Bool-cases (text_eq n (template_file name))) [
              | inl k ↦
                  let same : n ≡ template_file name = (text_eq_iff n (template_file name)).0 k in
                  rw same (gone.at ∙ sym was)
              | inr k ↦
                  let new : n ≢ template_file name =
                    λ q. cc ((text_eq_iff n (template_file name)).1 q, k) in
                  gone.elsewhere n new ∙ written.elsewhere n new ∙ kept.elsewhere n differs
            ]
      ]

  puts_back :
      (content : List ℕ)
      → before (temp_name (template_file name) other) ≡ none
      → Changed (backup_file name id) (some (regular content)) before saved
      → (last : Folder) × (restore_from g other name id (some content) after ≡ (ok put_back, last))
        × Changed (template_file name) (some (regular content)) after last
  unfolding restore_from
  puts_back content free kept =
      let temp = temp_name (template_file name) other in
      let still_free =
        written.elsewhere temp apart.temp_is_other
        ∙ kept.elsewhere temp apart.temp_not_backup
        ∙ free in
      let (last, e) =
        replace_file-succeeds g quiet other (template_file name) content after (some (bytes xml))
          apart.template_ok apart.temp_ok written.at still_free in
      let act = replace_file g other (template_file name) content in
      (
        last,
        bind_step (file act) (λ _. give put_back) after tt last _ (file-ok act after tt last e)
            refl,
        (replace_file-Changed g other (template_file name) content after tt last e).1,
      )

  finds_own :
      has_part managed_marker (bytes xml) ≡ true
      → (file (read_file g (template_file name)) >>= λ cur.
            fail_if (not (is_orcas (get_or cur []))) (not_orcas (template_file name)))
          after
        ≡ (ok tt, after)
  unfolding is_orcas
  finds_own marked =
      let act = read_file g (template_file name) in
      let own : is_orcas (bytes xml) ≡ true = ground arith in
      bind_step (file act) _ after (some (bytes xml)) after _
        (file-ok act after (some (bytes xml)) after (
          read_file-succeeds g quiet (template_file name) after (some (bytes xml)) apart.template_ok
            written.at))
        (rw own refl)

  removes :
      has_part managed_marker (bytes xml) ≡ true
      → Changed (sentinel_file name id) (some (regular [])) before saved
      → (middle : Folder) × (last : Folder) × (restore_from g other name id none after
          ≡ (ok removed_own, last))
        × Changed (template_file name) none after middle
        × Changed (sentinel_file name id) none middle last
  unfolding restore_from remove_own
  removes marked kept =
      let sen = sentinel_file name id in
      let tpl = template_file name in
      let told = written.elsewhere sen apart.sentinel_is_other ∙ kept.at in
      let (b, middle, e, gone) =
        remove_file-succeeds g quiet tpl after (some (bytes xml)) apart.template_ok written.at in
      let still = gone.elsewhere sen apart.sentinel_is_other ∙ told in
      let (b', last, e', cleared) =
        remove_file-succeeds g quiet sen middle (some []) apart.sentinel_ok still in
      let act = read_file g sen in
      (
        middle,
        last,
        bind_step (file act) (remove_own g name id) after (some []) after _
            (file-ok act after (some []) after
              (read_file-succeeds g quiet sen after (some []) apart.sentinel_ok told))
            (bind_step _ (λ _. file (remove_file g sen) >>= λ _. give removed_own) after b middle _
              (bind_step _ (λ _. file (remove_file g tpl)) after tt after _ (finds_own marked)
                (file-ok (remove_file g tpl) after b middle e))
              (bind_step (file (remove_file g sen)) (λ _. give removed_own) middle b' last _
                (file-ok (remove_file g sen) middle b' last e') refl)),
        gone,
        cleared,
      )

  reads_backup :
      (o : Option (List ℕ))
      → check_names name id ≡ ok tt
      → saved (backup_file name id) ≡ node_of o
      → (r : Restoration) (last : Folder) → restore_from g other name id o after ≡ (ok r, last)
      → restore_template_in g other name id after ≡ (ok r, last)
  unfolding restore_template_in
  reads_backup o valid was r last h =
      let bak = backup_file name id in
      let act = read_file g bak in
      bind_step (lift (check_names name id)) (λ _. file act >>= restore_from g other name id) after
        tt after _ (ap (λ e. (e, after)) valid)
        (bind_step (file act) (restore_from g other name id) after o after _
          (file-ok act after o after (
            read_file-succeeds g quiet bak after o apart.backup_ok
              (written.elsewhere bak apart.backup_is_other ∙ was)))
          h)

  restores :
      (old : Option (List ℕ))
      → check_names name id ≡ ok tt
      → has_part managed_marker (bytes xml) ≡ true
      → before (backup_file name id) ≡ none
      → before (temp_name (template_file name) other) ≡ none
      → before (template_file name) ≡ node_of old
      → before (keeper name id old) ≡ none
      → Changed (keeper name id old) (some (regular (get_or old []))) before saved
      → (r : Restoration) × (last : Folder) × (restore_template_in g other name id after
          ≡ (ok r, last))
        × ((n : Text) → n ≢ backup_file name id → last n ≡ before n)
  restores none valid marked fresh free was absent kept =
      let (middle, last, e, gone, cleared) = removes marked kept in
      let unsaved = kept.elsewhere (backup_file name id) apart.backup_not_sentinel ∙ fresh in
      (
        removed_own,
        last,
        reads_backup none valid unsaved removed_own last e,
        λ n _. removed_everywhere middle last was absent kept gone cleared n,
      )
  restores (some content) valid marked fresh free was absent kept =
      let (last, e, back) = puts_back content free kept in
      (
        put_back,
        last,
        reads_backup (some content) valid kept.at put_back last e,
        put_back_everywhere content last was kept back,
      )

pub names_of_write :
    (name xml id : Text) → check_write name xml id ≡ ok tt → check_names name id ≡ ok tt
unfolding check_write
names_of_write name xml id h = elim (Result-cases (check_names name id)) [
  | inl (u, e) ↦ e
  | inr (m, e) ↦ absurd (cc (rw e at h))
]

pub names_plain :
    (name id : Text) → check_names name id ≡ ok tt → (is_plain name ≡ true) × (is_plain id ≡ true)
unfolding check_names validate_name
names_plain name id h = elim (Bool-cases (is_valid_name name)) [
  | inl e ↦ elim (Result-cases (validate_run_id id)) [
    | inl (u, k) ↦ (name-plain name e, id-plain id k)
    | inr (m, k) ↦ absurd (cc (rw k at (rw e at h)))
  ]
  | inr e ↦ absurd (cc (rw e at h))
]

-- If a template has been written for a run that has no backup, then, unless a system call fails, the
-- run's restoration succeeds, and each file but the backup is as it was before the writing. The
-- template has the marker, and the name of the temporary file is plain and not taken.
pub restore_template_in-write_template_in :
    (f g : Faults) (suffix other name xml id : Text) (before after : Folder) (w : OldTemplate)
    → write_template_in f suffix name xml id before ≡ (ok w, after)
    → has_part managed_marker (bytes xml) ≡ true
    → ((c : Call) → g.fails c ≡ false)
    → is_plain other ≡ true
    → before (backup_file name id) ≡ none
    → before (temp_name (template_file name) other) ≡ none
    → (r : Restoration) × (last : Folder) × (restore_template_in g other name id after
        ≡ (ok r, last))
      × ((n : Text) → n ≢ backup_file name id → last n ≡ before n)
restore_template_in-write_template_in f g suffix other name xml id before after w h marked quiet
      plain fresh free =
    let r = write_template_in-WrittenFor f suffix name xml id before w after h in
    let valid = names_of_write name xml id r.checked in
    let (n, i) = names_plain name id valid in
    restores g quiet other name id (files_apart name id other n i plain) before r.saved after xml
      r.is_written r.old valid marked fresh free r.was r.was_free r.is_saved
