-- ===== src/Adopt/Digests.antt =====
-- The digests that a run records are whole, so that the heads which the errors show are there.
use unraid.Adopt.Volumes.{
  converts, Walked, walk_existing, rm_unless, remove_if_running, refuse_changed, walk_changed,
  all_unchanged, walk_one, docker_rm, walk,
}
use unraid.Base.{[], ◌∷◌}
use unraid.Adopt.{priv_manifest_volume}
use unraid.Map.{Set, get}
use unraid.Adopt.Steps.{call}
use unraid.Text.{Text}
use unraid.Adopt.Host.{
  list_args, reread, on_host, read_state, changed_since_copy, changed_from, volume_exists, Wording,
  Run,
}
use unraid.Effects.{fail_if, ◌>>=◌}
use unraid.Adopt.Apply.{ApplyCtx, State, HostOps}
use unraid.Base.{Option, List, refl, ◌∙◌, ◌≡◌, Result-cases, Bool, some, true, false, inl, inr}
use unraid.Order.{list_ord, nat_ord}
use unraid.Base.{none}

module _ {W : Type 0} where
  -- An effect that records no digest.
  abbrev pub KeepsManifests : {A : Type 0} → Run W A → Type 0
  KeepsManifests act = (s : State W) → (act s).1.state.manifests ≡ s.state.manifests

  pub bind-KeepsManifests :
      {A B : Type 0} (act : Run W A) (next : A → Run W B)
      → KeepsManifests act
      → ((a : A) → KeepsManifests (next a))
      → KeepsManifests (act >>= next)
  unfolding ◌>>=◌
  bind-KeepsManifests act next h k s = elim (Result-cases (act s).0) [
    | inl (a, e) ↦ rw (e, ◌>>=◌) (k a (act s).1 ∙ h s)
    | inr (m, e) ↦ rw (e, ◌>>=◌) (h s)
  ]

  pub fail_if-KeepsManifests :
      (test : Bool) (e : Text) → KeepsManifests (fail_if {S = State W} test e)
  fail_if-KeepsManifests true e s = refl
  fail_if-KeepsManifests false e s = refl

  module _ (ops : HostOps W) (words : Wording) (cx : ApplyCtx) where
    changed_from-KeepsManifests :
        (v : Text) (x : Bool) (m : Option Text) → KeepsManifests (changed_from ops v x m)
    unfolding changed_from reread
    changed_from-KeepsManifests v x none = λ s. refl
    changed_from-KeepsManifests v x (some d) =
        bind-KeepsManifests (on_host (ops.privileged (priv_manifest_volume v x))) _ (λ s. refl)
          (λ now s. refl)

    pub changed_since_copy-KeepsManifests :
        (v : Text) (x : Bool) → KeepsManifests (changed_since_copy ops v x)
    unfolding changed_since_copy
    changed_since_copy-KeepsManifests v x =
        bind-KeepsManifests read_state _ (λ s. refl)
          (λ st. changed_from-KeepsManifests v x (get st.manifests v))

    pub volume_exists-KeepsManifests : (v : Text) → KeepsManifests (volume_exists ops v)
    unfolding volume_exists
    volume_exists-KeepsManifests v =
        bind-KeepsManifests (on_host (ops.docker (list_args v))) _ (λ s. refl) (λ out s. refl)

    pub call-KeepsManifests :
        (args : List Text) (said : Text) → KeepsManifests (call ops words args said)
    call-KeepsManifests args said =
        bind-KeepsManifests (on_host (ops.docker args)) _ (λ s. refl) (λ out s. refl)

    docker_rm-KeepsManifests : (v : Text) → KeepsManifests (docker_rm ops cx v)
    docker_rm-KeepsManifests v s = refl

    rm_unless-KeepsManifests :
        (v : Text) (why : Option Text) → KeepsManifests (rm_unless ops cx v why)
    unfolding rm_unless
    rm_unless-KeepsManifests v (some why) = λ s. refl
    rm_unless-KeepsManifests v none =
        bind-KeepsManifests (docker_rm ops cx v) _ (docker_rm-KeepsManifests v) (λ out s. refl)

    pub remove_if_running-KeepsManifests :
        (v : Text) (running : Bool) → KeepsManifests (remove_if_running ops cx v running)
    unfolding remove_if_running
    remove_if_running-KeepsManifests v false = λ s. refl
    remove_if_running-KeepsManifests v true =
        bind-KeepsManifests (changed_since_copy ops v false) _
          (changed_since_copy-KeepsManifests v false) (rm_unless-KeepsManifests v)

    walk_changed-KeepsManifests :
        (w : Walked) (v : Text) (why : Option Text) → KeepsManifests (walk_changed ops cx w v why)
    unfolding walk_changed
    walk_changed-KeepsManifests w v (some why) = λ s. refl
    walk_changed-KeepsManifests w v none =
        bind-KeepsManifests (docker_rm ops cx v) _ (docker_rm-KeepsManifests v) (λ out s. refl)

    walk_existing-KeepsManifests :
        (w : Walked) (v : Text) (exists : Bool) → KeepsManifests (walk_existing ops cx w v exists)
    unfolding walk_existing
    walk_existing-KeepsManifests w v false = λ s. refl
    walk_existing-KeepsManifests w v true =
        bind-KeepsManifests (changed_since_copy ops v true) _
          (changed_since_copy-KeepsManifests v true) (walk_changed-KeepsManifests w v)

    pub walk_one-KeepsManifests : (w : Walked) (v : Text) → KeepsManifests (walk_one ops cx w v)
    unfolding walk_one
    walk_one-KeepsManifests w v =
        bind-KeepsManifests (volume_exists ops v) _ (volume_exists-KeepsManifests v)
          (walk_existing-KeepsManifests w v)

    pub walk-KeepsManifests :
        (w : Walked) (vs : List Text) (s : State W)
        → (walk ops cx w vs s).1.state.manifests ≡ s.state.manifests
    unfolding walk
    walk-KeepsManifests w [] s = refl
    walk-KeepsManifests w (v ∷ vs) s = elim (Result-cases (walk_one ops cx w v s).0) [
      | inl (w', e) ↦
          rw (e, walk)
            (walk-KeepsManifests w' vs (walk_one ops cx w v s).1 ∙ walk_one-KeepsManifests w v s)
      | inr (m, e) ↦ rw (e, walk) (walk_one-KeepsManifests w v s)
    ]

    refuse_changed-KeepsManifests :
        (v : Text) (why : Option Text) → KeepsManifests (refuse_changed ops cx v why)
    refuse_changed-KeepsManifests v none = λ s. refl
    refuse_changed-KeepsManifests v (some why) = λ s. refl

    pub all_unchanged-KeepsManifests : (vs : Set Text) → KeepsManifests (all_unchanged ops cx vs)
    unfolding all_unchanged
    all_unchanged-KeepsManifests [] = λ s. refl
    all_unchanged-KeepsManifests ((v, _) ∷ vs) =
        bind-KeepsManifests (changed_since_copy ops v (converts cx.conversions v)) _
          (changed_since_copy-KeepsManifests v _)
          (λ why.
            bind-KeepsManifests (refuse_changed ops cx v why) _
              (refuse_changed-KeepsManifests v why) (λ u. all_unchanged-KeepsManifests vs))
