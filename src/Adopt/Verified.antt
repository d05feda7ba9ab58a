-- ===== src/Adopt/Verified.antt =====
-- What the step `VerifyManaged` has seen when it succeeds.
use unraid.Base.{not-false_inv}
use unraid.Spec.Agrees.{Agrees, IsOrdered}
use unraid.Inspect.Translated.{live_spec}
use unraid.Inspect.Ordered.{live_spec-IsOrdered, IsDecoded}
use unraid.Spec.Diff.Gate.{diff-Agrees}
use unraid.Effects.{fail_if-inv, bind-inv}
use unraid.Spec.{RunSpec}
use unraid.Spec.Diff.Entries.{AllIntended}
use unraid.Text.{codes, text_eq, text_eq_iff, Text}
use unraid.Inspect.{managed_label, icon_label, ImageInspect, ContainerInspect}
use unraid.Spec.Diff.{DiffMode, Delta}
use unraid.Adopt.Host.{on_host, Wording}
use unraid.Adopt.Apply.{ApplyCtx, State, HostOps, Act}
use unraid.Adopt.Verify.{
  managed_by_dockerman, label_or_empty, check_icon, check_spec, check_container, verify,
  blockers_of,
}
use unraid.Base.{
  ◌∙◌, Bool-cases, ap, arith, is_nil, ◌≡◌, ◌&&◌, Option, List, not, Bool, some, ok, true, false, [],
  ◌∷◌, inl, inr,
}
use unraid.Order.{list_ord, nat_ord}
use unraid.Base.{none}

blockers_of-none : (ds : List Delta) → is_nil (blockers_of ds) ≡ true → AllIntended ds
unfolding blockers_of
blockers_of-none [] h = tt
blockers_of-none (d ∷ ds) h = elim (Bool-cases d.intended) [
  | inl e ↦ (e, blockers_of-none ds (rw e at h))
  | inr n ↦ absurd (cc (rw n at h))
]

module _ {W : Type 0} where
  pub on_host-inv :
      {A : Type 0} (act : Act W A) (s : State W) (a : A) (t : State W)
      → on_host act s ≡ (ok a, t)
      → (act s.host).0 ≡ ok a
  on_host-inv act s a t h = ap (λ r. r.0) h

  -- What a verified container is, as docker shows it at a state of the run: managed by dockerMan, in
  -- the wanted state, on the wanted image, and as the rendered command says.
  pub record Verified (ops : HostOps W) (cx : ApplyCtx) (running : Bool) (icon : Option Text)
      (image_id : Text) (expect : RunSpec) (mode : DiffMode) (s : State W) : Type 0 where
    pub c : ContainerInspect
    pub img : ImageInspect
    -- The host that docker was asked for the image on.
    pub later : W
    pub inspected : (ops.inspect_container cx.name s.host).0 ≡ ok c
    pub image_inspected : (ops.inspect_image c.image later).0 ≡ ok img
    pub managed : label_or_empty c managed_label ≡ managed_by_dockerman
    pub runs : running ≡ true → c.state.status ≡ codes "running"
    pub on_image : c.image ≡ image_id
    pub has_icon : (want : Text) → icon ≡ some want → label_or_empty c icon_label ≡ want
    pub agrees : IsDecoded c → IsOrdered expect → Agrees expect (live_spec c img).0 mode

  module _ (ops : HostOps W) (words : Wording) (cx : ApplyCtx) where
    check_icon-inv :
        (c : ContainerInspect) (icon : Option Text) (s : State W) (u : Unit {0}) (t : State W)
        → check_icon ops words cx c icon s ≡ (ok u, t)
        → (want : Text) → icon ≡ some want
        → label_or_empty c icon_label ≡ want
    check_icon-inv c none s u t h want e = absurd (cc e)
    check_icon-inv c (some w) s u t h want e =
        let (same, _) = fail_if-inv (not (text_eq (label_or_empty c icon_label) w)) _ s u t h in
        (text_eq_iff _ _).0 (not-false_inv _ same) ∙ cc e

    runs_if : (running : Bool) (b : Bool) → (running && not b) ≡ false → running ≡ true → b ≡ true
    runs_if running b h e = ground arith

    -- A step that verifies has found a container that is managed by dockerMan, runs if it is to,
    -- is on the image, has the icon, and agrees with the spec that its command was rendered from.
    pub verify-Verified :
        (running : Bool) (icon : Option Text) (image_id : Text) (expect : RunSpec) (mode : DiffMode)
        (s : State W) (said : Text) (t : State W)
        → verify ops words cx running icon image_id expect mode s ≡ (ok said, t)
        → Verified ops cx running icon image_id expect mode s
    unfolding verify check_container check_spec
    verify-Verified running icon image_id expect mode s said t h =
        let (c, s₁, k₁, h₁) = bind-inv _ _ _ _ _ h in
        let (u, s₂, k₂, h₂) = bind-inv _ _ _ _ _ h₁ in
        let (img, s₃, k₃, h₃) = bind-inv _ _ _ _ _ h₂ in
        let (v, s₄, k₄, h₄) = bind-inv _ _ _ _ _ h₃ in
        let (_, p₁, g₁, j₁) = bind-inv _ _ _ _ _ k₂ in
        let (_, p₂, g₂, j₂) = bind-inv _ _ _ _ _ j₁ in
        let (_, p₃, g₃, j₃) = bind-inv _ _ _ _ _ j₂ in
        let (is_managed, _) = fail_if-inv _ _ _ _ _ g₁ in
        let (is_running, _) = fail_if-inv _ _ _ _ _ g₂ in
        let (same_image, _) = fail_if-inv _ _ _ _ _ g₃ in
        let (no_blocker, _) = fail_if-inv _ _ _ _ _ k₄ in
        record {
          c = c;
          img = img;
          later = s₂.host;
          inspected = on_host-inv (ops.inspect_container cx.name) s c s₁ k₁;
          image_inspected = on_host-inv (ops.inspect_image c.image) s₂ img s₃ k₃;
          managed = (text_eq_iff _ _).0 (not-false_inv _ is_managed);
          runs = λ e. (text_eq_iff _ _).0 (runs_if running _ is_running e);
          on_image = (text_eq_iff _ _).0 (not-false_inv _ same_image);
          has_icon = check_icon-inv c icon p₃ u s₂ j₃;
          agrees = λ d o.
              (diff-Agrees cx.masks expect (live_spec c img).0 mode o
                  (live_spec-IsOrdered c img d)).0
                (blockers_of-none _ (not-false_inv _ no_blocker));
        }
