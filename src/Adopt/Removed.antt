-- ===== src/Adopt/Removed.antt =====
-- When the steps of `run_step` remove a volume.
use unraid.Adopt.Verified.{on_host-inv}
use unraid.Adopt.Guarded.{on_host-state, changed_since_copy-none, SameContent}
use unraid.Effects.{lift-inv, bind-inv}
use unraid.Adopt.Host.{changed_since_copy, on_host}
use unraid.Inspect.{ContainerInspect}
use unraid.Adopt.Volumes.{docker_rm, remove_if_running, rm_unless, remove_volume_step}
use unraid.Text.{Text}
use unraid.Adopt.Apply.{State, ApplyCtx, HostOps}
use unraid.Base.{ap, ◌∙◌, Bool-cases, ◌⊎◌, Option, ◌≡◌, some, ok, true, false, inl, inr}
use mathlib.Core.Path.{subst}
use unraid.Order.{list_ord, nat_ord}
use unraid.Base.{none}

module _ {W : Type 0} (ops : HostOps W) (cx : ApplyCtx) where
  -- The container was seen running, the volume has the content of its copy, and docker removed it.
  pub record Removed (volume : Text) (s t : State W) : Type 0 where
    pub c : ContainerInspect
    pub inspected : (ops.inspect_container cx.name s.host).0 ≡ ok c
    pub runs : c.state.running ≡ true
    pub content : SameContent ops s.state volume
    pub before : State W
    pub answer : Text
    pub removed : docker_rm ops cx volume before ≡ (ok answer, t)

  -- The container was not seen running, or the volume is not proven to have the content of its copy:
  -- nothing follows the inspection, and the reading of the content.
  pub record Kept (volume : Text) (s t : State W) : Type 0 where
    pub c : ContainerInspect
    pub after : State W
    pub inspected : on_host (ops.inspect_container cx.name) s ≡ (ok c, after)
    pub why :
        ((c.state.running ≡ false) × (after ≡ t))
        ⊎ ((reason : Text) × (changed_since_copy ops volume false after ≡ (ok (some reason), t)))

  pub data Outcome (volume : Text) (s t : State W) : Type 0 where
    removed : Removed volume s t → Outcome volume s t
    kept : Kept volume s t → Outcome volume s t

  removed_or_kept :
      (volume : Text) (c : ContainerInspect) (why : Option Text) (s s₁ s₂ : State W) (said : Text)
      (t : State W)
      → on_host (ops.inspect_container cx.name) s ≡ (ok c, s₁)
      → c.state.running ≡ true
      → changed_since_copy ops volume false s₁ ≡ (ok why, s₂)
      → rm_unless ops cx volume why s₂ ≡ (ok said, t)
      → Outcome volume s t
  unfolding rm_unless
  removed_or_kept volume c (some why) s s₁ s₂ said t k r k₁ h =
      let (_, same) = lift-inv _ _ _ _ h in
      kept (record {
        c = c;
        after = s₁;
        inspected = k;
        why = inr (why, k₁ ∙ ap (λ z. (ok (some why), z)) same);
      })
  removed_or_kept volume c none s s₁ s₂ said t k r k₁ h =
      let (answer, s₃, k₂, h₁) = bind-inv _ _ _ _ _ h in
      let (_, last) = lift-inv _ _ _ _ h₁ in
      let (content, _) = changed_since_copy-none ops volume false s₁ s₂ k₁ in
      removed (record {
        c = c;
        inspected = on_host-inv (ops.inspect_container cx.name) s c s₁ k;
        runs = r;
        content =
            subst (λ st. SameContent ops st volume)
              (on_host-state (ops.inspect_container cx.name) s _ s₁ k) content;
        before = s₂;
        answer = answer;
        removed = k₂ ∙ ap (λ z. (ok answer, z)) last;
      })

  -- A step that is to remove a volume removes it only if the container runs and the content of the
  -- volume, read anew, is that of its copy; else it keeps it, and asks nothing more of docker.
  pub remove_volume_step-Outcome :
      (volume : Text) (s : State W) (said : Text) (t : State W)
      → remove_volume_step ops cx volume s ≡ (ok said, t)
      → Outcome volume s t
  unfolding remove_volume_step remove_if_running
  remove_volume_step-Outcome volume s said t h =
      let (c, s₁, k, h₁) = bind-inv _ _ _ _ _ h in
      elim (Bool-cases c.state.running) [
        | inl r ↦
            let (why, s₂, k₁, h₂) = bind-inv _ _ _ _ _ (rw r at h₁) in
            removed_or_kept volume c why s s₁ s₂ said t k r k₁ h₂
        | inr n ↦
            let (_, same) = lift-inv _ _ _ _ (rw n at h₁) in
            kept (record { c = c; after = s₁; inspected = k; why = inl (n, same) })
      ]
