-- ===== src/Adopt/Guarded.antt =====
-- What the steps that guard and create volumes have seen when they succeed.
use mathlib.Core.Path.{subst}
use unraid.Inspect.{ContainerInspect}
use unraid.Adopt.Volumes.{
  ensure_stopped_step, converts, sources_of, refuse_changed, same_times, all_unchanged,
}
use unraid.Base.{All, arith, false, [], ◌∷◌}
use unraid.Adopt.Verified.{on_host-inv}
use unraid.Adopt.{priv_manifest_volume}
use unraid.Map.{Set, get}
use unraid.Effects.{fail_if-inv, lift-inv, bind-inv, ◌>>=◌}
use unraid.Text.{text_eq_iff, text_eq, Text}
use unraid.Adopt.Host.{
  read_state, run_times, list_args, on_host, reread, volume_exists, changed_from,
  changed_since_copy, change_of,
}
use unraid.Adopt.Apply.{ApplyCtx, manifest_digest, State, ApplyState, Act, HostOps}
use unraid.Base.{refl, ◌∙◌, ap, Bool-cases, sym, ◌≡◌, Option, Bool, Result, some, ok, inl, inr}
use unraid.Order.{list_ord, nat_ord}
use unraid.Base.{none}

change_of-none :
    (copied now : Text) (d : Option Text) → change_of copied now d ≡ none → d ≡ some copied
unfolding change_of
change_of-none copied now none h = absurd (cc h)
change_of-none copied now (some d) h = elim (Bool-cases (text_eq d copied)) [
  | inl e ↦ ap (λ x. some x) ((text_eq_iff d copied).0 e)
  | inr n ↦ absurd (cc (rw n at h))
]

module _ {W : Type 0} where
  -- A volume still has the content that was recorded when it was copied.
  pub record SameContent (ops : HostOps W) (st : ApplyState) (volume : Text) : Type 0 where
    pub digest : Text
    pub recorded : get st.manifests volume ≡ some digest
    pub xattrs : Bool
    pub at : W
    pub answer : Text
    pub read : (ops.privileged (priv_manifest_volume volume xattrs) at).0 ≡ ok answer
    pub same : manifest_digest answer ≡ some digest

  pub on_host-state :
      {A : Type 0} (act : Act W A) (s : State W) (r : Result Text A) (t : State W)
      → on_host act s ≡ (r, t)
      → t.state ≡ s.state
  on_host-state act s r t h = sym (ap (λ p. p.1.state) h)

  read_state-inv :
      (s : State W) (st : ApplyState) (t : State W)
      → read_state s ≡ (ok st, t)
      → (st ≡ s.state) × (s ≡ t)
  read_state-inv s st t h = (cc h, ap (λ r. r.1) h)

  module _ (ops : HostOps W) where
    changed_from-none :
        (volume : Text) (xattrs : Bool) (m : Option Text) (s t : State W)
        → changed_from ops volume xattrs m s ≡ (ok none, t)
        → get s.state.manifests volume ≡ m
        → SameContent ops s.state volume × (t.state ≡ s.state)
    unfolding changed_from reread
    changed_from-none volume xattrs none s t h g = absurd (cc h)
    changed_from-none volume xattrs (some copied) s t h g =
        let (now, s₁, k, h₁) = bind-inv _ _ _ _ _ h in
        let (e, last) = lift-inv _ _ _ _ h₁ in
        (
          record {
            digest = copied;
            recorded = g;
            xattrs = xattrs;
            at = s.host;
            answer = now;
            read = on_host-inv (ops.privileged (priv_manifest_volume volume xattrs)) s now s₁ k;
            same = change_of-none copied now (manifest_digest now) (cc e);
          },
          sym (ap (λ u. u.state) last)
              ∙ on_host-state (ops.privileged (priv_manifest_volume volume xattrs)) s _ s₁ k,
        )

    -- A volume that is not said to have changed has the content of its copy.
    pub changed_since_copy-none :
        (volume : Text) (xattrs : Bool) (s t : State W)
        → changed_since_copy ops volume xattrs s ≡ (ok none, t)
        → SameContent ops s.state volume × (t.state ≡ s.state)
    unfolding changed_since_copy ◌>>=◌
    changed_since_copy-none volume xattrs s t h =
        changed_from-none volume xattrs (get s.state.manifests volume) s t h refl

    pub volume_exists-state :
        (name : Text) (s : State W) (b : Bool) (t : State W)
        → volume_exists ops name s ≡ (ok b, t)
        → t.state ≡ s.state
    unfolding volume_exists
    volume_exists-state name s b t h =
        let (out, s₁, k, h₁) = bind-inv _ _ _ _ _ h in
        let (_, last) = lift-inv _ _ _ _ h₁ in
        sym (ap (λ u. u.state) last) ∙ on_host-state (ops.docker (list_args name)) s _ s₁ k

    -- What a step that ensures the container is stopped has seen, at the state that it began in.
    pub record StillStopped (cx : ApplyCtx) (s : State W) : Type 0 where
      pub c : ContainerInspect
      pub inspected : (ops.inspect_container cx.name s.host).0 ≡ ok c
      pub is_stopped : c.state.running ≡ false
      pub same_times : s.state.stopped ≡ some (run_times c)
      pub contents : All (λ e. SameContent ops s.state e.0) (sources_of s.state cx.conversions)

    same_times-ok :
        (name : Text) (m : Option (Text × Text)) (now : Text × Text) (u : Unit {0})
        → same_times name m now ≡ ok u
        → m ≡ some now
    unfolding same_times
    same_times-ok name none now u h = absurd (cc h)
    same_times-ok name (some (a, b)) (c, d) u h = ground (arith, text_eq_iff a c, text_eq_iff b d)

    refuse_changed-inv :
        (cx : ApplyCtx) (v : Text) (why : Option Text) (s : State W) (u : Unit {0}) (t : State W)
        → refuse_changed ops cx v why s ≡ (ok u, t)
        → (why ≡ none) × (s ≡ t)
    refuse_changed-inv cx v none s u t h = (refl, ap (λ r. r.1) h)
    refuse_changed-inv cx v (some why) s u t h = absurd (cc h)

    all_unchanged-contents :
        (cx : ApplyCtx) (vs : Set Text) (s : State W) (u : Unit {0}) (t : State W)
        → all_unchanged ops cx vs s ≡ (ok u, t)
        → All (λ e. SameContent ops s.state e.0) vs
    unfolding all_unchanged
    all_unchanged-contents cx [] s u t h = tt
    all_unchanged-contents cx ((v, _) ∷ vs) s u t h =
        let (why, s₁, k, h₁) = bind-inv _ _ _ _ _ h in
        let (_, s₂, k₁, h₂) = bind-inv _ _ _ _ _ h₁ in
        let (clean, kept) = refuse_changed-inv cx v why s₁ _ s₂ k₁ in
        let (content, same) =
          changed_since_copy-none v (converts cx.conversions v) s s₁
            (k ∙ ap (λ w. (ok w, s₁)) clean) in
        let rest = all_unchanged-contents cx vs s₂ u t h₂ in
        (
          content,
          subst (λ st. All (λ e. SameContent ops st e.0) vs) (sym (ap (λ z. z.state) kept) ∙ same)
              rest,
        )

    -- A step that ensures the container is stopped has found it stopped, at the times that were
    -- recorded when it was, and every volume with the content that was recorded when it was copied.
    pub ensure_stopped_step-StillStopped :
        (cx : ApplyCtx) (s : State W) (said : Text) (t : State W)
        → ensure_stopped_step ops cx s ≡ (ok said, t)
        → StillStopped cx s
    unfolding ensure_stopped_step
    ensure_stopped_step-StillStopped cx s said t h =
        let (c, s₁, k, h₁) = bind-inv _ _ _ _ _ h in
        let (_, s₂, k₁, h₂) = bind-inv _ _ _ _ _ h₁ in
        let (st, s₃, k₂, h₃) = bind-inv _ _ _ _ _ h₂ in
        let (u, s₄, k₃, h₄) = bind-inv _ _ _ _ _ h₃ in
        let (v, s₅, k₄, h₅) = bind-inv _ _ _ _ _ h₄ in
        let (stopped, e₁) = fail_if-inv _ _ _ _ _ k₁ in
        let (times, e₃) = lift-inv _ _ _ _ k₃ in
        let e₀ : s₁.state ≡ s.state = on_host-state (ops.inspect_container cx.name) s _ s₁ k in
        let same : s₂.state ≡ s.state = sym (ap (λ z. z.state) e₁) ∙ e₀ in
        let (seen, e₂) = read_state-inv s₂ st s₃ k₂ in
        let read : st ≡ s.state = seen ∙ same in
        let last : s₄.state ≡ s.state = sym (ap (λ z. z.state) (e₂ ∙ e₃)) ∙ same in
        let found = same_times-ok cx.name st.stopped (run_times c) u times in
        let checked = all_unchanged-contents cx (sources_of st cx.conversions) s₄ v s₅ k₄ in
        record {
          c = c;
          inspected = on_host-inv (ops.inspect_container cx.name) s c s₁ k;
          is_stopped = stopped;
          same_times = sym (ap (λ z. z.stopped) read) ∙ found;
          contents =
              subst (λ z. All (λ e. SameContent ops z e.0) (sources_of z cx.conversions)) read
                (subst (λ z. All (λ e. SameContent ops z e.0) (sources_of st cx.conversions))
                  (last ∙ sym read) checked);
        }
