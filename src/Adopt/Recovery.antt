-- ===== src/Adopt/Recovery.antt =====
-- src/docker_adopt/mod.rs: `ApplyCtx::recovery`, what an error tells to do by hand.
use unraid.Adopt.{template_path, inspect_backup_path, backup_path}
use unraid.Spec.Command.{docker_run_command}
use unraid.Text.{codes, Text}
use unraid.Ownership.{Conversion}
use unraid.Adopt.Apply.{ApplyCtx}
use unraid.Base.{if◌then◌else◌, ◌++◌, List, [], ◌∷◌}
use unraid.Order.{list_ord, nat_ord}

abbrev rebuild_script : Text
rebuild_script = codes "/usr/local/emhttp/plugins/dynamix.docker.manager/scripts/rebuild_container"

abbrev return_to_template : ApplyCtx → Text
return_to_template cx =
    codes " To return to the previous template: cp "
    ++ (backup_path cx.name cx.run_id
        ++ (b' '
            ∷ (template_path cx.name
                ++ (codes " && " ++ (rebuild_script ++ (b' ' ∷ (cx.name ++ codes ".")))))))

abbrev recreate_original : ApplyCtx → Text
recreate_original cx =
    codes " To recreate the original container: docker rm -f "
    ++ (cx.name
        ++ (codes " && "
            ++ (docker_run_command cx.masks cx.original
                ++ codes " (masked secret values are in the saved inspect).")))

abbrev data_of : Conversion → Text
data_of c =
    codes " Data for "
    ++ (c.target
        ++ (codes " is in volume "
            ++ (c.new
                ++ (codes "; use -v "
                    ++ (c.new
                        ++ (b':'
                            ∷ (c.target
                                ++ (codes " in place of the " ++ (c.old ++ codes " mount.")))))))))

-- The loop over the conversions.
unfoldable pub data_of_all : List Conversion → Text
data_of_all [] = []
data_of_all (c ∷ cs) = data_of c ++ data_of_all cs

unfoldable pub recovery : ApplyCtx → Text
recovery cx =
    codes "The original container config is saved at "
    ++ (inspect_backup_path cx.name cx.run_id
        ++ (b'.'
            ∷ ((if cx.had_template then return_to_template cx else [])
                ++ (recreate_original cx ++ data_of_all cx.conversions))))
