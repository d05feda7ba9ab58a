-- ===== src/Privileged/Templates/Tests.antt =====
-- A template is written and restored, with and without one before it.
use unraid.Text.{is_ascii_alphanumeric}
use unraid.Privileged.Templates.Atomic.{write_template_in-KeepsOnError}
use unraid.Text.{trim}
use unraid.Template.Xml.{xml_unescape}
use unraid.Names.{is_valid_name}
use unraid.Effects.{◌>>=◌}
use unraid.Privileged.Templates.Restored.{restore_template_in-write_template_in}
use unraid.Privileged.Checked.{file_failed, no_backup}
use unraid.Privileged.RunId.{invalid_run_id, validate_run_id}
use unraid.Text.{text_eq, Text, codes}
use unraid.Safefs.{call_failed, write_call, already_exists, regular, Folder, Call, Faults}
use unraid.Privileged.Templates.{
  template_file, backup_file, backed_up, restore_template_in, Restoration, write_template_in,
}
use unraid.Base.{◌≢◌, refl, ◌++◌, if◌then◌else◌, ◌≡◌, ok, err, false, []}
use unraid.Order.{list_ord, nat_ord}
use unraid.Base.{none, some}

abbrev quiet : Faults
quiet = record { fails = λ _. false; torn = λ _. [] }

abbrev never : (c : Call) → quiet.fails c ≡ false
never c = refl

abbrev run : Text
run = codes "20261004-120000-0123abcd"

abbrev own_template : Text
own_template =
    codes "<?xml version=\"1.0\"?>\n<!-- managed-by: orca -->\n"
    ++ codes "<Container version=\"2\">\n  <Name>pbs</Name>\n</Container>\n"

abbrev empty_folder : Folder
empty_folder _ = none

abbrev with_old : Folder
with_old n = if text_eq n (codes "my-pbs.xml") then some (regular (codes "old")) else none

abbrev written_over : Folder
written_over = (write_template_in quiet (codes "0f") (codes "pbs") own_template run with_old).1

writes :
    (write_template_in quiet (codes "0f") (codes "pbs") own_template run with_old).0 ≡ ok backed_up
unfolding write_template_in ◌>>=◌ is_valid_name xml_unescape trim
writes = refl

keeps_old :
    written_over (codes "my-pbs.xml.bak-20261004-120000-0123abcd") ≡ some (regular (codes "old"))
unfolding write_template_in ◌>>=◌ is_valid_name xml_unescape trim
keeps_old = refl

-- A second writing of the same run does not replace the backup.
no_second_backup :
    (write_template_in quiet (codes "1e") (codes "pbs") own_template run written_over).0
    ≡ err (file_failed (already_exists (codes "my-pbs.xml.bak-20261004-120000-0123abcd")))
unfolding write_template_in ◌>>=◌ is_valid_name xml_unescape trim
no_second_backup = refl

other_run :
    (restore_template_in quiet
      (codes "2d")
      (codes "pbs")
      (codes "20261004-120001-0123abcd")
      written_over).0
    ≡ err (no_backup (codes "20261004-120001-0123abcd") (codes "my-pbs.xml"))
unfolding restore_template_in ◌>>=◌ is_valid_name write_template_in xml_unescape trim
other_run = refl

no_such_day :
    validate_run_id (codes "20260230-120000-0123abcd")
    ≡ err (invalid_run_id (codes "20260230-120000-0123abcd"))
unfolding validate_run_id
no_such_day = refl

leap_day : validate_run_id (codes "20240229-235959-0123abcd") ≡ ok tt
unfolding validate_run_id
leap_day = refl

strict_hex :
    validate_run_id (codes "20261004-120000-ABCDEF12")
    ≡ err (invalid_run_id (codes "20261004-120000-ABCDEF12"))
unfolding validate_run_id
strict_hex = refl

restore_template_in-write_template_in_example :
    (r : Restoration) × (last : Folder) × (restore_template_in quiet
        (codes "2d")
        (codes "pbs")
        run
        written_over
      ≡ (ok r, last))
    × ((n : Text) → n ≢ backup_file (codes "pbs") run → last n ≡ with_old n)
unfolding write_template_in ◌>>=◌ is_valid_name xml_unescape trim
restore_template_in-write_template_in_example =
    restore_template_in-write_template_in quiet quiet (codes "0f") (codes "2d") (codes "pbs")
      own_template run with_old written_over backed_up refl refl never refl refl refl

-- The disk is full when the new template is written.
abbrev full_at : Text → Faults
full_at name = record {
  fails = λ c. elim c [ write_call n ↦ text_eq n name | _ ↦ false ];
  torn = λ _. codes "<Con";
}

abbrev temp_file : Text
temp_file = codes "my-pbs.xml.orca-tmp-0f"

abbrev left_full : Folder
left_full =
    (write_template_in (full_at temp_file) (codes "0f") (codes "pbs") own_template run with_old).1

leaves_torn : left_full temp_file ≡ some (regular (codes "<Con"))
unfolding write_template_in ◌>>=◌ is_valid_name xml_unescape trim
leaves_torn = refl

write_template_in-KeepsOnError_example :
    left_full (template_file (codes "pbs")) ≡ with_old (template_file (codes "pbs"))
unfolding is_ascii_alphanumeric write_template_in ◌>>=◌ is_valid_name xml_unescape trim
write_template_in-KeepsOnError_example =
    write_template_in-KeepsOnError (full_at temp_file) (codes "0f") (codes "pbs") own_template run
      with_old left_full (file_failed (call_failed (write_call temp_file))) refl refl
