-- ===== src/Adopt.antt =====
-- src/docker_adopt/mod.rs, privileged.rs and host.rs: the steps of an adopt and what they act on.
pub mod Apply
pub mod Recovery
pub mod Host
pub mod Verify
pub mod Volumes
pub mod Steps
pub mod Verified
pub mod Guarded
pub mod Created
pub mod Removed
pub mod Succeeded
pub mod Digests
pub mod Recorded
pub mod Invariant
pub mod Rollback
pub mod Loop
pub mod Undo
pub mod Marks
pub mod Refines
pub mod Complete
mod Tests
mod Trials
mod Seen
use unraid.Base.{none, some, ok, err, true, false, [], inl, inr}
use unraid.Order.{list_ord, nat_ord}
use unraid.Spec.Diff.{DiffMode}
use unraid.Spec.{RunSpec}
use unraid.Base.{ℕ, ◌∷◌, List, Option, Bool, ◌++◌}
use unraid.Text.{Text, codes, contains, join}
use unraid.Map.{Map}

-- `PrivilegedOp`: what the root path is asked to do.
pub data PrivilegedOp : Type 0 where
  ping : PrivilegedOp
  priv_write_template : (name xml backup_id : Text) → PrivilegedOp
  priv_save_inspect : (name json backup_id : Text) → PrivilegedOp
  priv_restore_template : (name backup_id : Text) → PrivilegedOp
  priv_set_autostart : (name : Text) (on : Bool) → PrivilegedOp
  priv_set_vm_autostart : (name : Text) (on : Bool) → PrivilegedOp
  priv_read_vm_xml : (name : Text) → PrivilegedOp
  priv_set_smb_share : (share security : Text) (read_list write_list : List Text) → PrivilegedOp
  priv_set_share_cache :
      (share : Text) (use_cache cache_pool : Option Text) (floor_kib : Option ℕ) → PrivilegedOp
  priv_rebuild : (name : Text) → PrivilegedOp
  priv_clear_icon_cache : (name : Text) → PrivilegedOp
  priv_refresh_icons : PrivilegedOp
  priv_copy_volume : (name volume dest_suffix nonce : Text) → PrivilegedOp
  priv_remove_copy : (name dest_suffix nonce : Text) → PrivilegedOp
  priv_expose_copy : (name dest_suffix nonce : Text) → PrivilegedOp
  priv_copy_into_volume : (name from to : Text) → PrivilegedOp
  priv_manifest_volume : (volume : Text) (xattrs : Bool) → PrivilegedOp
  priv_volume_empty : (volume : Text) → PrivilegedOp
  priv_retire_stack : (name project dir to run_id : Text) → PrivilegedOp

pub data Step : Type 0 where
  probe stop : Step
  copy_volume : (volume suffix to : Text) → Step
  save_inspect : (json : Text) → Step
  write_template : (xml : Text) → Step
  set_autostart : (on : Bool) → Step
  rebuild : Step
  ensure_state : (running : Bool) → Step
  verify_managed :
      (running : Bool) (icon : Option Text) (image_id : Text) (expect : RunSpec) (mode : DiffMode)
      → Step
  clear_icon_cache refresh_icons : Step
  remove_volume : (volume : Text) → Step
  remove_own_anonymous_volumes : (candidates : List Text) → Step
  ensure_stopped : Step
  create_volume : (volume : Text) (labels : Map Text Text) → Step
  copy_into_volume : (from to : Text) → Step
  expose_copy : (suffix : Text) → Step
  remove_network : (network : Text) → Step
  retire_stack : (project dir to : Text) → Step

unfoldable pub action : Step → Text
action probe = codes "probe-root"
action stop = codes "stop"
action (copy_volume _ _ _) = codes "copy-volume"
action (save_inspect _) = codes "save-inspect"
action (write_template _) = codes "write-template"
action (set_autostart _) = codes "set-autostart"
action rebuild = codes "rebuild"
action (ensure_state _) = codes "ensure-state"
action (verify_managed _ _ _ _ _) = codes "verify-managed"
action clear_icon_cache = codes "clear-icon-cache"
action refresh_icons = codes "refresh-icons"
action (remove_volume _) = codes "remove-volume"
action (remove_own_anonymous_volumes _) = codes "remove-own-anonymous-volumes"
action ensure_stopped = codes "ensure-stopped"
action (create_volume _ _) = codes "create-volume"
action (copy_into_volume _ _) = codes "copy-into-volume"
action (expose_copy _) = codes "expose-copy"
action (remove_network _) = codes "remove-network"
action (retire_stack _ _ _) = codes "retire-stack"

abbrev pub appdata : Text
appdata = codes "/mnt/user/appdata"

abbrev pub autostart_file : Text
autostart_file = codes "/var/lib/docker/unraid-autostart"

abbrev pub templates_dir : Text
templates_dir = codes "/boot/config/plugins/dockerMan/templates-user"

unfoldable pub template_path : Text → Text
template_path name = templates_dir ++ (codes "/my-" ++ (name ++ codes ".xml"))

unfoldable pub inspect_backup_path : Text → Text → Text
inspect_backup_path name date = template_path name ++ (codes ".inspect-" ++ (date ++ codes ".json"))

unfoldable pub backup_path : Text → Text → Text
backup_path name date = template_path name ++ (codes ".bak-" ++ date)

-- The target of `Step::change`.
unfoldable pub target : Text → Text → Step → Text
target name run_id probe = codes "root"
target name run_id stop = name
target name run_id (copy_volume volume _ _) = volume
target name run_id (save_inspect _) = inspect_backup_path name run_id
target name run_id (write_template _) = template_path name
target name run_id (set_autostart _) = autostart_file
target name run_id rebuild = name
target name run_id (ensure_state _) = name
target name run_id (verify_managed _ _ _ _ _) = name
target name run_id clear_icon_cache = name ++ codes "-icon.png"
target name run_id refresh_icons = codes "dockerMan"
target name run_id (remove_volume volume) = volume
target name run_id (remove_own_anonymous_volumes candidates) =
    codes "[" ++ (join (codes ", ") candidates ++ codes "]")
target name run_id ensure_stopped = name
target name run_id (create_volume volume _) = volume
target name run_id (copy_into_volume _ to) = to
target name run_id (expose_copy suffix) = appdata ++ (b'/' ∷ (name ++ b'/' ∷ suffix))
target name run_id (remove_network network) = network
target name run_id (retire_stack _ dir _) = dir
