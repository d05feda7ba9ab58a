-- ===== src/Adopt/Steps.antt =====
-- src/docker_adopt/mod.rs: `run_step`.
use unraid.Adopt.{
  priv_retire_stack, retire_stack, remove_network, copy_into_volume, create_volume, ensure_stopped,
  remove_own_anonymous_volumes, remove_volume, refresh_icons, clear_icon_cache, verify_managed,
  ensure_state, rebuild, set_autostart, write_template, save_inspect, expose_copy, copy_volume,
  stop, probe,
}
use unraid.Adopt.Volumes.{
  create_volume_step, ensure_stopped_step, remove_own_step, remove_volume_step,
}
use unraid.Adopt.{
  retire_stack, remove_network, priv_copy_into_volume, copy_into_volume, create_volume,
  remove_own_anonymous_volumes, remove_volume, priv_refresh_icons, priv_clear_icon_cache,
  verify_managed, ensure_state, priv_rebuild,
}
use unraid.Adopt.Verify.{verify, says}
use unraid.Orphans.{network_users}
use unraid.Effects.{give, ◌>>◌, ◌>>=◌}
use unraid.Text.{join, codes, Text}
use unraid.Adopt.{
  priv_rebuild, priv_set_autostart, set_autostart, priv_write_template, write_template,
  priv_save_inspect, save_inspect, priv_expose_copy, expose_copy, priv_copy_volume, copy_volume,
  ping, Step, PrivilegedOp,
}
use unraid.Adopt.Host.{run_times, set_stopped, on_host, Run, Wording}
use unraid.Adopt.Apply.{ApplyCtx, Runner, HostOps}
use unraid.Base.{◌++◌, Bool, List, ok, err, true, false, [], ◌∷◌}
use unraid.Order.{list_ord, nat_ord}

module _ {W : Type 0} (ops : HostOps W) (words : Wording) where
  abbrev pub ask : PrivilegedOp → Run W Text
  ask op = on_host (ops.privileged op)

  abbrev pub call : List Text → Text → Run W Text
  call args said = do _ ← on_host (ops.docker args); give said

  -- `if let Ok(c) = ops.inspect_container(name).await`
  unfoldable pub note_stopped : ApplyCtx → Run W (Unit {0})
  note_stopped cx s =
      let (res, s') = on_host (ops.inspect_container cx.name) s in
      elim res [ err _ ↦ (ok tt, s') | ok c ↦ set_stopped (run_times c) s' ]

  unfoldable pub stop_step : ApplyCtx → Run W Text
  stop_step cx = do
    _ ← on_host (ops.docker (codes "stop" ∷ cx.name ∷ []))
    note_stopped cx
    give (codes "stopped")

  unfoldable pub change_state : ApplyCtx → Bool → Bool → Run W Text
  change_state cx false true = call (codes "start" ∷ cx.name ∷ []) (codes "started")
  change_state cx true false = call (codes "stop" ∷ cx.name ∷ []) (codes "stopped")
  change_state cx _ _ = give (codes "unchanged")

  unfoldable pub ensure_state_step : ApplyCtx → Bool → Run W Text
  ensure_state_step cx running = do
    c ← on_host (ops.inspect_container cx.name)
    change_state cx c.state.running running

  abbrev pub rm_unused : Text → List Text → Run W Text
  rm_unused network [] =
      call (codes "network" ∷ codes "rm" ∷ network ∷ []) (codes "removed " ++ network)
  rm_unused network (u ∷ users) = give (
      says (
        codes "kept "
        ∷ network
        ∷ codes ": used by ["
        ∷ join (codes ", ") (u ∷ users)
        ∷ codes "]"
        ∷ []))

  unfoldable pub remove_network_step : Text → Run W Text
  remove_network_step network = do
    containers ← on_host ops.inspect_all
    rm_unused network (network_users network containers)

  unfoldable pub run_step : Step → ApplyCtx → Run W Text
  run_step probe cx = ask ping
  run_step stop cx = stop_step cx
  run_step (copy_volume volume suffix to) cx = ask (priv_copy_volume cx.name volume suffix cx.nonce)
  run_step (expose_copy suffix) cx = ask (priv_expose_copy cx.name suffix cx.nonce)
  run_step (save_inspect json) cx = ask (priv_save_inspect cx.name json cx.run_id)
  run_step (write_template xml) cx = ask (priv_write_template cx.name xml cx.run_id)
  run_step (set_autostart on) cx = ask (priv_set_autostart cx.name on)
  run_step rebuild cx = ask (priv_rebuild cx.name)
  run_step (ensure_state running) cx = ensure_state_step cx running
  run_step (verify_managed running icon image_id expect mode) cx =
      verify ops words cx running icon image_id expect mode
  run_step clear_icon_cache cx = ask (priv_clear_icon_cache cx.name)
  run_step refresh_icons cx = ask priv_refresh_icons
  run_step (remove_volume volume) cx = remove_volume_step ops cx volume
  run_step (remove_own_anonymous_volumes candidates) cx = remove_own_step ops cx candidates
  run_step ensure_stopped cx = ensure_stopped_step ops cx
  run_step (create_volume volume labels) cx = create_volume_step ops cx volume labels
  run_step (copy_into_volume from to) cx = ask (priv_copy_into_volume cx.name from to)
  run_step (remove_network network) cx = remove_network_step network
  run_step (retire_stack project dir to) cx =
      ask (priv_retire_stack cx.name project dir to cx.run_id)

  -- What `apply` runs on.
  abbrev pub runner_of : Runner W
  runner_of = record { ops = ops; run_step = run_step }
