-- ===== src/Planning/Protocol.antt =====
-- The order that the steps of an adopt have to keep, as a relation between phases.
use unraid.Spec.Diff.{DiffMode}
use unraid.Spec.{RunSpec}
use unraid.Map.{Map}
use unraid.Text.{Text}
use unraid.Base.{Option, List, ◌≡◌, Bool, true, false, [], ◌∷◌}
use unraid.Order.{list_ord, nat_ord}
use unraid.Adopt.{Step}
use unraid.Adopt.{
  retire_stack, remove_network, copy_into_volume, create_volume, ensure_stopped,
  remove_own_anonymous_volumes, remove_volume, refresh_icons, clear_icon_cache, verify_managed,
  ensure_state, rebuild, set_autostart, write_template, save_inspect, expose_copy, copy_volume,
  stop, probe,
}

-- How far an adopt has come. In `quiet` its container has been stopped to copy its volumes.
pub data Phase : Type 0 where
  fresh probed quiet saved staged ensured rebuilt settled verified : Phase

-- The phases in which the container does not run: it was stopped, or it did not run at first.
pub data IsQuiet (running : Bool) : Phase → Type 0 where
  was_stopped : IsQuiet running quiet
  never_ran : running ≡ false → IsQuiet running probed

-- The steps that are allowed in a phase, and the phase they lead to. `copies` says whether volumes
-- are copied, `running` whether the container ran at first.
pub data Allowed (copies running : Bool) : Phase → Step → Phase → Type 0 where
  allow_probe : Allowed copies running fresh probe probed
  allow_stop : copies ≡ true → running ≡ true → Allowed copies running probed stop quiet
  allow_copy :
      {ph : Phase} (volume suffix to : Text)
      → IsQuiet running ph
      → Allowed copies running ph (copy_volume volume suffix to) ph
  allow_create :
      {ph : Phase} (volume : Text) (labels : Map Text Text)
      → IsQuiet running ph
      → Allowed copies running ph (create_volume volume labels) ph
  allow_copy_into :
      {ph : Phase} (from to : Text)
      → IsQuiet running ph
      → Allowed copies running ph (copy_into_volume from to) ph
  allow_save_probed : (json : Text) → Allowed copies running probed (save_inspect json) saved
  allow_save : (json : Text) → Allowed copies running quiet (save_inspect json) saved
  allow_template : (xml : Text) → Allowed copies running saved (write_template xml) staged
  allow_autostart_before : (on : Bool) → Allowed copies running staged (set_autostart on) staged
  allow_expose : (suffix : Text) → Allowed copies running staged (expose_copy suffix) staged
  allow_ensure : Allowed copies running staged ensure_stopped ensured
  allow_rebuild_ensured : Allowed copies running ensured rebuild rebuilt
  allow_rebuild : copies ≡ false → Allowed copies running staged rebuild rebuilt
  allow_autostart_after : (on : Bool) → Allowed copies running rebuilt (set_autostart on) rebuilt
  allow_state : (running' : Bool) → Allowed copies running rebuilt (ensure_state running') settled
  allow_verify :
      (running' : Bool) (icon : Option Text) (image_id : Text) (expect : RunSpec) (mode : DiffMode)
      → Allowed copies running settled (verify_managed running' icon image_id expect mode) verified
  allow_clear_icon : Allowed copies running verified clear_icon_cache verified
  allow_refresh : Allowed copies running verified refresh_icons verified
  allow_remove : (volume : Text) → Allowed copies running verified (remove_volume volume) verified
  allow_remove_own :
      (candidates : List Text)
      → Allowed copies running verified (remove_own_anonymous_volumes candidates) verified
  allow_remove_network :
      (network : Text) → Allowed copies running verified (remove_network network) verified
  allow_retire :
      (project dir to : Text)
      → Allowed copies running verified (retire_stack project dir to) verified

-- Steps that are allowed one after the other.
pub data Trace (copies running : Bool) : Phase → List Step → Phase → Type 0 where
  ended : {ph : Phase} → Trace copies running ph [] ph
  then_ :
      {ph ph' end : Phase} {x : Step} {xs : List Step}
      → Allowed copies running ph x ph'
      → Trace copies running ph' xs end
      → Trace copies running ph (x ∷ xs) end
