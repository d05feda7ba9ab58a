-- ===== src/Adopt/Invariant.antt =====
-- The invariant of a run: the digests that it records are whole.
use unraid.Adopt.Refines.{apply-refines}
use unraid.Adopt.Loop.{apply}
use mathlib.Core.Path.{subst}
use unraid.Adopt.Undo.{
  Undo, is_rebuild, steps_of, undone, run_steps, apply_of, behind, perform, leave, the_copy,
  the_created_volumes, the_stop, the_autostart, the_template,
}
use unraid.Orphans.{network_users, unmounted}
use unraid.Adopt.Rollback.{
  try_note, leave_exposed, remove_copy, remove_created, start_container, Notes, restore_autostart,
  ◌⨾◌, restore_template, each, inspect_volume,
}
use unraid.Effects.{lift}
use unraid.Adopt.Recorded.{
  note_copy-DigestsWhole, DigestsWhole, rm_unused-KeepsManifests, verify-KeepsManifests,
  change_state-KeepsManifests, stop_step-KeepsManifests,
}
use unraid.Inspect.{VolumeInspect}
use unraid.Adopt.Steps.{runner_of, remove_network_step, ensure_state_step}
use unraid.Map.{Map}
use unraid.Adopt.Digests.{
  all_unchanged-KeepsManifests, remove_if_running-KeepsManifests, walk-KeepsManifests,
  volume_exists-KeepsManifests, fail_if-KeepsManifests, bind-KeepsManifests, KeepsManifests,
}
use unraid.Text.{Text}
use unraid.Adopt.Volumes.{
  same_times, unwalked, create_args, remove_volume_step, create_volume_step, claim_volume,
  ensure_stopped_step, remove_own_step,
}
use unraid.Adopt.Host.{run_times, push_created, read_state, volume_exists, on_host, Wording}
use unraid.Adopt.Apply.{note_copy, State, ApplyCtx, HostOps}
use unraid.Base.{
  ◌++◌, any, Bool-cases, Result-cases, length, ◌∙◌, All, sym, ◌≡◌, refl, List, [], ◌∷◌, inl, inr,
}
use unraid.Order.{list_ord, nat_ord}
use unraid.Adopt.{
  priv_volume_empty, Step, retire_stack, remove_network, copy_into_volume, create_volume,
  ensure_stopped, remove_own_anonymous_volumes, remove_volume, refresh_icons, clear_icon_cache,
  verify_managed, ensure_state, rebuild, set_autostart, write_template, save_inspect, expose_copy,
  copy_volume, stop, probe,
}
use unraid.Adopt.Steps.{run_step}
use unraid.Adopt.Undo.{Ran, all_ran, failed_at}

module _ {W : Type 0} (ops : HostOps W) (words : Wording) (cx : ApplyCtx) where
  claim_volume-KeepsManifests :
      (volume : Text) (labels : Map Text Text) (v : VolumeInspect)
      → KeepsManifests (claim_volume ops cx volume labels v)
  unfolding claim_volume
  claim_volume-KeepsManifests volume labels v =
      bind-KeepsManifests _ _ (fail_if-KeepsManifests _ _) (λ _.
        bind-KeepsManifests (on_host (ops.privileged (priv_volume_empty volume))) _ (λ s. refl)
          (λ e. bind-KeepsManifests _ _ (fail_if-KeepsManifests _ _) (λ _.
            bind-KeepsManifests (push_created (volume, v.created_at)) _ (λ s. refl) (λ u s. refl))))

  create_volume_step-KeepsManifests :
      (volume : Text) (labels : Map Text Text)
      → KeepsManifests (create_volume_step ops cx volume labels)
  unfolding create_volume_step
  create_volume_step-KeepsManifests volume labels =
      bind-KeepsManifests (volume_exists ops volume) _
        (volume_exists-KeepsManifests ops words cx volume)
        (λ b. bind-KeepsManifests _ _ (fail_if-KeepsManifests _ _) (λ _.
          bind-KeepsManifests (on_host (ops.docker (create_args volume labels))) _ (λ s. refl)
            (λ _.
              bind-KeepsManifests (on_host (inspect_volume ops volume)) _ (λ s. refl)
                (claim_volume-KeepsManifests volume labels))))

  ensure_stopped_step-KeepsManifests : KeepsManifests (ensure_stopped_step ops cx)
  unfolding ensure_stopped_step
  ensure_stopped_step-KeepsManifests =
      bind-KeepsManifests (on_host (ops.inspect_container cx.name)) _ (λ s. refl)
        (λ c. bind-KeepsManifests _ _ (fail_if-KeepsManifests _ _) (λ _.
          bind-KeepsManifests read_state _ (λ s. refl)
            (λ st.
              bind-KeepsManifests (lift (same_times cx.name st.stopped (run_times c))) _ (λ s. refl)
                (λ _.
                  bind-KeepsManifests _ _ (all_unchanged-KeepsManifests ops words cx _)
                    (λ _ s. refl)))))

  remove_own_step-KeepsManifests :
      (candidates : List Text) → KeepsManifests (remove_own_step ops cx candidates)
  unfolding remove_own_step
  remove_own_step-KeepsManifests candidates =
      bind-KeepsManifests (on_host ops.inspect_all) _ (λ s. refl)
        (λ containers s.
          walk-KeepsManifests ops words cx unwalked (unmounted candidates containers) s)

  -- No step changes the digests: `apply` alone records them.
  run_step-KeepsManifests : (x : Step) → KeepsManifests (run_step ops words x cx)
  unfolding run_step remove_volume_step ensure_state_step remove_network_step
  run_step-KeepsManifests stop = stop_step-KeepsManifests ops words cx
  run_step-KeepsManifests (ensure_state running) =
      bind-KeepsManifests (on_host (ops.inspect_container cx.name)) _ (λ s. refl)
        (λ c. change_state-KeepsManifests ops words cx c.state.running running)
  run_step-KeepsManifests (verify_managed running icon image_id expect mode) =
      verify-KeepsManifests ops words cx running icon image_id expect mode
  run_step-KeepsManifests (remove_volume volume) =
      bind-KeepsManifests (on_host (ops.inspect_container cx.name)) _ (λ s. refl)
        (λ c. remove_if_running-KeepsManifests ops words cx volume c.state.running)
  run_step-KeepsManifests (remove_own_anonymous_volumes candidates) =
      remove_own_step-KeepsManifests candidates
  run_step-KeepsManifests ensure_stopped = ensure_stopped_step-KeepsManifests
  run_step-KeepsManifests (create_volume volume labels) =
      create_volume_step-KeepsManifests volume labels
  run_step-KeepsManifests (remove_network network) =
      bind-KeepsManifests (on_host ops.inspect_all) _ (λ s. refl)
        (λ containers.
          rm_unused-KeepsManifests ops words cx network (network_users network containers))
  run_step-KeepsManifests probe = λ s. refl
  run_step-KeepsManifests (copy_volume _ _ _) = λ s. refl
  run_step-KeepsManifests (expose_copy _) = λ s. refl
  run_step-KeepsManifests (save_inspect _) = λ s. refl
  run_step-KeepsManifests (write_template _) = λ s. refl
  run_step-KeepsManifests (set_autostart _) = λ s. refl
  run_step-KeepsManifests rebuild = λ s. refl
  run_step-KeepsManifests clear_icon_cache = λ s. refl
  run_step-KeepsManifests refresh_icons = λ s. refl
  run_step-KeepsManifests (copy_into_volume _ _) = λ s. refl
  run_step-KeepsManifests (retire_stack _ _ _) = λ s. refl

  -- The state that steps leave, whether or not one has failed.
  abbrev left : Ran W → State W
  left (all_ran ran s) = s
  left (failed_at before x e s) = s

  left-behind : (y : Step × Text) (ran : Ran W) → left (behind y ran) ≡ left ran
  left-behind y (all_ran ran s) = refl
  left-behind y (failed_at before x e s) = refl

  run_steps-DigestsWhole :
      (s : State W) (steps : List Step)
      → DigestsWhole s.state
      → DigestsWhole (left (run_steps (runner_of ops words) cx s steps)).state
  unfolding run_steps
  run_steps-DigestsWhole s [] h = h
  run_steps-DigestsWhole s (x ∷ steps) h =
      let t = (run_step ops words x cx s).1 in
      let k : DigestsWhole t.state =
        subst (λ m. All (λ e. length e.1 ≡ 64) m) (sym (run_step-KeepsManifests x s)) h in
      elim (Result-cases (run_step ops words x cx s).0) [
        | inr (m, e) ↦ rw (e, run_steps) k
        | inl (d, e) ↦
            let next = record t { state = note_copy x d t.state } in
            rw (e, run_steps)
              (subst (λ u. DigestsWhole u.state)
                (sym (left-behind (x, d) (run_steps (runner_of ops words) cx next steps)))
                (run_steps-DigestsWhole next steps (note_copy-DigestsWhole x d t.state k)))
      ]

  each-state :
      {A : Type 0} (act : A → Notes W)
      → ((a : A) (s : State W) → (act a s).1.state ≡ s.state)
      → (xs : List A) (s : State W) → (each act xs s).1.state ≡ s.state
  unfolding each ◌⨾◌
  each-state act h [] s = refl
  each-state act h (x ∷ xs) s = each-state act h xs (act x s).1 ∙ h x s

  perform-state :
      (u : Undo) (s : State W) → (perform (runner_of ops words) cx u s).1.state ≡ s.state
  unfolding perform restore_template restore_autostart start_container remove_created remove_copy
      leave_exposed try_note
  perform-state the_template s = refl
  perform-state the_autostart s = refl
  perform-state the_stop s = refl
  perform-state the_created_volumes s =
      each-state (remove_created (runner_of ops words)) (λ v t. refl) s.state.created s
  perform-state (the_copy suffix) s = refl
  perform-state (leave suffix) s = refl

  apply_of-DigestsWhole :
      (ran : Ran W)
      → DigestsWhole (left ran).state
      → DigestsWhole (apply_of (runner_of ops words) cx ran).1.state
  unfolding apply_of
  apply_of-DigestsWhole (all_ran ran s) h = h
  apply_of-DigestsWhole (failed_at ran x e s) h =
      let undos = undone cx.was_running (steps_of ran) x in
      let same = each-state (perform (runner_of ops words) cx) perform-state undos s in
      elim (Bool-cases (any is_rebuild (steps_of ran ++ x ∷ []))) [
        | inl b ↦ rw b h
        | inr b ↦ rw b (subst DigestsWhole (sym same) h)
      ]

  -- Whatever a run does, and whether or not it is rolled back, the digests that it has recorded are
  -- those of whole manifests, of 64 digits: the slices of their first twelve that the errors show
  -- are in bounds.
  pub apply-DigestsWhole :
      (s : State W) (steps : List Step)
      → DigestsWhole s.state
      → DigestsWhole (apply (runner_of ops words) cx s steps).1.state
  apply-DigestsWhole s steps h =
      subst (λ r. DigestsWhole r.1.state) (sym (apply-refines (runner_of ops words) cx s steps))
        (apply_of-DigestsWhole (run_steps (runner_of ops words) cx s steps)
          (run_steps-DigestsWhole s steps h))
