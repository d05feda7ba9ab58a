-- ===== src/Adopt/Created.antt =====
-- What the step `CreateVolume` has done when it succeeds.
use unraid.Base.{not-false_inv}
use unraid.Ownership.{labels_eq_iff}
use unraid.Adopt.{priv_volume_empty}
use unraid.Adopt.Guarded.{on_host-state, volume_exists-state}
use unraid.Adopt.Rollback.{inspect_volume}
use unraid.Effects.{lift-inv, fail_if-inv, bind-inv}
use unraid.Adopt.Volumes.{claim_volume, create_args, create_volume_step}
use unraid.Inspect.{labels_of, VolumeInspect}
use unraid.Adopt.Host.{volume_empty_word, volume_exists, push_created, on_host}
use unraid.Map.{Map}
use unraid.Adopt.Apply.{ApplyState, ApplyCtx, State, Act, HostOps}
use unraid.Text.{text_eq_iff, Text}
use unraid.Base.{◌∙◌, sym, ◌++◌, ap, ◌≡◌, ok, false, [], ◌∷◌}
use unraid.Order.{list_ord, nat_ord}

abbrev pub with_created : Text × Text → ApplyState → ApplyState
with_created v st = record st { created = st.created ++ v ∷ [] }

module _ {W : Type 0} where
  -- A volume that did not exist, has been created with the labels and nothing in it, and is
  -- recorded as this run's.
  pub record Created (ops : HostOps W) (volume : Text) (labels : Map Text Text) (s t : State W)
      : Type 0 where
    pub v : VolumeInspect
    pub middle : State W
    pub was_free : volume_exists ops volume s ≡ (ok false, middle)
    pub at : W
    pub created : (ops.docker (create_args volume labels) middle.host).1 ≡ at
    pub later : W
    pub inspected : inspect_volume ops volume at ≡ (ok v, later)
    pub has_labels : labels_of v ≡ labels
    pub is_empty : (ops.privileged (priv_volume_empty volume) later).0 ≡ ok volume_empty_word
    pub recorded : t.state ≡ with_created (volume, v.created_at) s.state

  on_host-host :
      {A : Type 0} (act : Act W A) (s : State W) (a : A) (t : State W)
      → on_host act s ≡ (ok a, t)
      → act s.host ≡ (ok a, t.host)
  on_host-host act s a t h = ap (λ r. (r.0, r.1.host)) h

  push_created-inv :
      (v : Text × Text) (s : State W) (u : Unit {0}) (t : State W)
      → push_created v s ≡ (ok u, t)
      → t.state ≡ with_created v s.state
  push_created-inv v s u t h = sym (ap (λ r. r.1.state) h)

  module _ (ops : HostOps W) (cx : ApplyCtx) where
    claim_volume-inv :
        (volume : Text) (labels : Map Text Text) (v : VolumeInspect) (s : State W) (said : Text)
        (t : State W)
        → claim_volume ops cx volume labels v s ≡ (ok said, t)
        → (labels_of v ≡ labels)
          × ((ops.privileged (priv_volume_empty volume) s.host).0 ≡ ok volume_empty_word)
          × (t.state ≡ with_created (volume, v.created_at) s.state)
    unfolding claim_volume
    claim_volume-inv volume labels v s said t h =
        let (_, s₁, k₁, h₁) = bind-inv _ _ _ _ _ h in
        let (e, s₂, k₂, h₂) = bind-inv _ _ _ _ _ h₁ in
        let (_, s₃, k₃, h₃) = bind-inv _ _ _ _ _ h₂ in
        let (u, s₄, k₄, h₄) = bind-inv _ _ _ _ _ h₃ in
        let (labelled, e₁) = fail_if-inv _ _ _ _ _ k₁ in
        let (vacant, e₃) = fail_if-inv _ _ _ _ _ k₃ in
        let (_, e₄) = lift-inv _ _ _ _ h₄ in
        let st₂ : s₂.state ≡ s₁.state =
          on_host-state (ops.privileged (priv_volume_empty volume)) s₁ _ s₂ k₂ in
        let st₄ = push_created-inv (volume, v.created_at) s₃ u s₄ k₄ in
        let known : s₃.state ≡ s.state =
          sym (ap (λ z. z.state) e₃) ∙ st₂ ∙ sym (ap (λ z. z.state) e₁) in
        let said_empty : e ≡ volume_empty_word = (text_eq_iff _ _).0 (not-false_inv _ vacant) in
        let answers : (ops.privileged (priv_volume_empty volume) s₁.host).0 ≡ ok e =
          ap (λ r. r.0) k₂ in
        (
          (labels_eq_iff _ _).0 (not-false_inv _ labelled),
          ap (λ z. (ops.privileged (priv_volume_empty volume) z.host).0) e₁
              ∙ answers
              ∙ ap (λ z. ok z) said_empty,
          sym (ap (λ z. z.state) e₄) ∙ st₄ ∙ ap (with_created (volume, v.created_at)) known,
        )

    -- A step that creates a volume has created one that did not exist, has seen it with exactly the
    -- labels and empty, and has recorded it with the time of its creation and changed nothing else
    -- of what the run knows.
    pub create_volume_step-Created :
        (volume : Text) (labels : Map Text Text) (s : State W) (said : Text) (t : State W)
        → create_volume_step ops cx volume labels s ≡ (ok said, t)
        → Created ops volume labels s t
    unfolding create_volume_step
    create_volume_step-Created volume labels s said t h =
        let (b, s₁, k, h₁) = bind-inv _ _ _ _ _ h in
        let (_, s₂, k₁, h₂) = bind-inv _ _ _ _ _ h₁ in
        let (_, s₃, k₂, h₃) = bind-inv _ _ _ _ _ h₂ in
        let (v, s₄, k₃, h₄) = bind-inv _ _ _ _ _ h₃ in
        let (free, e₁) = fail_if-inv _ _ _ _ _ k₁ in
        let (labelled, vacant, claimed) = claim_volume-inv volume labels v s₄ said t h₄ in
        let st₁ : s₁.state ≡ s.state = volume_exists-state ops volume s b s₁ k in
        let st₃ : s₃.state ≡ s₂.state =
          on_host-state (ops.docker (create_args volume labels)) s₂ _ s₃ k₂ in
        let st₄ : s₄.state ≡ s₃.state = on_host-state (inspect_volume ops volume) s₃ _ s₄ k₃ in
        let known : s₄.state ≡ s.state = st₄ ∙ st₃ ∙ sym (ap (λ z. z.state) e₁) ∙ st₁ in
        record {
          v = v;
          middle = s₁;
          was_free = k ∙ ap (λ z. (ok z, s₁)) free;
          at = s₃.host;
          created =
              ap (λ z. (ops.docker (create_args volume labels) z.host).1) e₁
              ∙ ap (λ r. r.1.host) k₂;
          later = s₄.host;
          inspected = on_host-host (inspect_volume ops volume) s₃ v s₄ k₃;
          has_labels = labelled;
          is_empty = vacant;
          recorded = claimed ∙ ap (with_created (volume, v.created_at)) known;
        }
