-- ===== src/Adopt/Recorded.antt =====
-- What the steps of a run leave recorded.
use unraid.Spec.Diff.{DiffMode}
use unraid.Spec.{RunSpec}
use unraid.Adopt.Digests.{
  fail_if-KeepsManifests, call-KeepsManifests, bind-KeepsManifests, KeepsManifests,
}
use unraid.Inspect.{ContainerInspect}
use unraid.Adopt.Verify.{check_icon, check_spec, verify, check_container}
use unraid.Adopt.Steps.{rm_unused, change_state, note_stopped, stop_step}
use unraid.Map.Laws.{Ordering-cases}
use unraid.Adopt.{copy_into_volume, copy_volume, Step}
use unraid.Text.{codes, Text}
use unraid.Adopt.Host.{on_host, Wording}
use unraid.Map.{Map, insert}
use unraid.Adopt.Apply.{ApplyCtx, HostOps, manifest_digest, ApplyState, note_manifest, note_copy}
use unraid.Base.{
  refl, Result-cases, Bool, Option, arith, List, Option-cases, ◌≡◌, length, All, some, true, false,
  [], ◌∷◌, inl, inr,
}
use unraid.Order.{list_ord, nat_ord}
use unraid.Base.{none}

-- Every digest is that of a whole manifest.
abbrev pub DigestsWhole : ApplyState → Type 0
DigestsWhole st = All (λ e. length e.1 ≡ 64) st.manifests

All-insert :
    (P : Text × Text → Type 0) (k v : Text) (m : Map Text Text)
    → P (k, v)
    → All P m
    → All P (insert k v m)
unfolding insert
All-insert P k v [] p h = (p, tt)
All-insert P k v ((j, w) ∷ m) p h = elim (Ordering-cases (list_ord.cmp k j)) [
  | inl e ↦ rw (e, insert) (p, h)
  | inr (inl e) ↦ rw (e, insert) (p, h.1)
  | inr (inr e) ↦ rw (e, insert) (h.0, All-insert P k v m p h.1)
]

manifest_digest-length : (detail d : Text) → manifest_digest detail ≡ some d → length d ≡ 64
unfolding manifest_digest
manifest_digest-length detail d h = ground arith

note_manifest-DigestsWhole :
    (v detail : Text) (st : ApplyState) → DigestsWhole st → DigestsWhole (note_manifest v detail st)
unfolding note_manifest
note_manifest-DigestsWhole v detail st h = elim (Option-cases (manifest_digest detail)) [
  | inl e ↦ rw (e, note_manifest) h
  | inr (d, e) ↦
      rw (e, note_manifest)
        (All-insert (λ x. length x.1 ≡ 64) v d st.manifests (manifest_digest-length detail d e) h)
]

pub note_copy-DigestsWhole :
    (x : Step) (detail : Text) (st : ApplyState)
    → DigestsWhole st
    → DigestsWhole (note_copy x detail st)
unfolding note_copy
note_copy-DigestsWhole (copy_volume v _ _) detail st h = note_manifest-DigestsWhole v detail st h
note_copy-DigestsWhole (copy_into_volume v _) detail st h = note_manifest-DigestsWhole v detail st h
note_copy-DigestsWhole _ detail st h = h

module _ {W : Type 0} (ops : HostOps W) (words : Wording) (cx : ApplyCtx) where
  note_stopped-KeepsManifests : KeepsManifests (note_stopped ops words cx)
  unfolding note_stopped
  note_stopped-KeepsManifests s = elim (Result-cases (ops.inspect_container cx.name s.host).0) [
    | inl (c, e) ↦ rw (e, note_stopped)
    | inr (m, e) ↦ rw (e, note_stopped)
  ]

  pub stop_step-KeepsManifests : KeepsManifests (stop_step ops words cx)
  unfolding stop_step
  stop_step-KeepsManifests =
      bind-KeepsManifests (on_host (ops.docker (codes "stop" ∷ cx.name ∷ []))) _ (λ s. refl)
        (λ out.
          bind-KeepsManifests (note_stopped ops words cx) _ note_stopped-KeepsManifests
            (λ u s. refl))

  pub change_state-KeepsManifests :
      (now running : Bool) → KeepsManifests (change_state ops words cx now running)
  unfolding change_state
  change_state-KeepsManifests false true = call-KeepsManifests ops words cx _ _
  change_state-KeepsManifests true false = call-KeepsManifests ops words cx _ _
  change_state-KeepsManifests true true = λ s. refl
  change_state-KeepsManifests false false = λ s. refl

  pub rm_unused-KeepsManifests :
      (network : Text) (users : List Text) → KeepsManifests (rm_unused ops words network users)
  rm_unused-KeepsManifests network [] = call-KeepsManifests ops words cx _ _
  rm_unused-KeepsManifests network (u ∷ users) = λ s. refl

  check_icon-KeepsManifests :
      (c : ContainerInspect) (icon : Option Text) → KeepsManifests (check_icon ops words cx c icon)
  check_icon-KeepsManifests c none = λ s. refl
  check_icon-KeepsManifests c (some want) = fail_if-KeepsManifests _ _

  check_container-KeepsManifests :
      (running : Bool) (icon : Option Text) (image_id : Text) (c : ContainerInspect)
      → KeepsManifests (check_container ops words cx running icon image_id c)
  unfolding check_container
  check_container-KeepsManifests running icon image_id c =
      bind-KeepsManifests _ _ (fail_if-KeepsManifests _ _) (λ _.
        bind-KeepsManifests _ _ (fail_if-KeepsManifests _ _) (λ _.
          bind-KeepsManifests _ _ (fail_if-KeepsManifests _ _)
            (λ _. check_icon-KeepsManifests c icon)))

  pub verify-KeepsManifests :
      (running : Bool) (icon : Option Text) (image_id : Text) (expect : RunSpec) (mode : DiffMode)
      → KeepsManifests (verify ops words cx running icon image_id expect mode)
  unfolding verify check_spec
  verify-KeepsManifests running icon image_id expect mode =
      bind-KeepsManifests (on_host (ops.inspect_container cx.name)) _ (λ s. refl)
        (λ c. bind-KeepsManifests _ _ (check_container-KeepsManifests running icon image_id c) (λ _.
          bind-KeepsManifests (on_host (ops.inspect_image c.image)) _ (λ s. refl)
            (λ img. bind-KeepsManifests _ _ (fail_if-KeepsManifests _ _) (λ _ s. refl))))
