-- ===== src/Spec/Command.antt =====
-- src/docker_adopt/spec.rs: `docker_run_command`, the command that a recovery names.
use unraid.Text.Numbers.{decimal}
use unraid.Shell.{shell_quote}
use unraid.Map.{Set, Map}
use unraid.Spec.Diff.{Masks}
use unraid.Spec.{default_log_driver, volume, bind, RunSpec, MountKind, MountSpec}
use unraid.Text.{text_eq, is_empty, join, codes, Text}
use unraid.Base.{not, ◌∷◌, ◌++◌, if◌then◌else◌, [], List, ℕ, Option, map, Bool, none, some}

abbrev when_set : Bool → Text → List Text
when_set test w = if test then w ∷ [] else []

abbrev option_flag : Text → Option Text → List Text
option_flag flag none = []
option_flag flag (some v) = (flag ++ v) ∷ []

-- The loops over a map and a set of the spec.
unfoldable pub pair_flags : Text → (Text → Text → Text) → Map Text Text → List Text
pair_flags flag show [] = []
pair_flags flag show ((k, v) ∷ m) = (flag ++ (k ++ (b'=' ∷ show k v))) ∷ pair_flags flag show m

unfoldable pub item_flags : Text → Set Text → List Text
item_flags flag [] = []
item_flags flag ((p, _) ∷ s) = (flag ++ p) ∷ item_flags flag s

abbrev kind_word : MountKind → Text
kind_word bind = codes "bind"
kind_word volume = codes "volume"

abbrev with_propagation : Option Text → Text
with_propagation none = []
with_propagation (some p) = codes ",bind-propagation=" ++ p

unfoldable pub mount_flag : MountSpec → Text
mount_flag m =
    codes "--mount=type="
    ++ (kind_word m.kind
        ++ (codes ",src="
            ++ (m.source
                ++ (codes ",dst="
                    ++ (m.target
                        ++ ((if m.read_only then codes ",readonly" else [])
                            ++ with_propagation m.propagation))))))

unfoldable pub mount_flags : Set MountSpec → List Text
mount_flags [] = []
mount_flags ((m, _) ∷ s) = mount_flag m ∷ mount_flags s

unfoldable pub tmpfs_flags : Map Text Text → List Text
tmpfs_flags [] = []
tmpfs_flags ((p, o) ∷ m) =
    (codes "--tmpfs=" ++ (if is_empty o then p else p ++ b':' ∷ o)) ∷ tmpfs_flags m

abbrev limit_flag : Option ℕ → List Text
limit_flag none = []
limit_flag (some n) = (codes "--pids-limit=" ++ decimal n) ∷ []

-- The flags between `--network` and the image.
unfoldable pub run_flags : Masks → RunSpec → List Text
run_flags r spec =
    when_set spec.privileged (codes "--privileged")
    ++ (option_flag (codes "--hostname=") spec.hostname
        ++ (item_flags (codes "--publish=") spec.ports
            ++ (when_set (not (is_empty spec.tz)) (codes "--env=TZ=" ++ spec.tz)
                ++ (pair_flags (codes "--env=") r.mask spec.env
                    ++ (mount_flags spec.mounts
                        ++ (tmpfs_flags spec.tmpfs
                            ++ (when_set (not (text_eq spec.log_driver default_log_driver))
                                  (codes "--log-driver=" ++ spec.log_driver)
                                ++ (pair_flags (codes "--log-opt=") r.mask spec.log_opts
                                    ++ (option_flag (codes "--gpus=") spec.gpus
                                        ++ (option_flag (codes "--restart=") spec.restart
                                            ++ (limit_flag spec.pids_limit
                                                ++ pair_flags (codes "--label=") r.mask_label
                                                    spec.labels)))))))))))

unfoldable pub run_words : Masks → RunSpec → List Text
run_words r spec =
    codes "docker"
    ∷ codes "run"
    ∷ codes "--detach"
    ∷ (codes "--name=" ++ spec.name)
    ∷ (codes "--network=" ++ spec.network)
    ∷ (run_flags r spec ++ (spec.image ∷ r.mask_cmd spec.cmd))

unfoldable pub docker_run_command : Masks → RunSpec → Text
docker_run_command r spec = join (codes " ") (map shell_quote (run_words r spec))
