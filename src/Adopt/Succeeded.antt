-- ===== src/Adopt/Succeeded.antt =====
-- What a successful `apply` has seen and done, step by step.
use unraid.Adopt.Removed.{remove_volume_step-Outcome, Outcome}
use unraid.Adopt.Complete.{apply_complete}
use unraid.Adopt.Steps.{runner_of}
use unraid.Adopt.Guarded.{ensure_stopped_step-StillStopped, StillStopped}
use unraid.Adopt.Loop.{apply}
use unraid.Adopt.Created.{create_volume_step-Created, Created}
use unraid.Adopt.Verified.{verify-Verified, Verified}
use unraid.Text.{Text}
use unraid.Adopt.Host.{Wording}
use unraid.Adopt.Apply.{note_copy, StepOutcome, State, ApplyCtx, HostOps}
use unraid.Base.{ap, Result-cases, ◌≡◌, List, ok, [], ◌∷◌, inl, inr}
use unraid.Order.{list_ord, nat_ord}
use unraid.Adopt.{Step, verify_managed, create_volume, ensure_stopped, remove_volume}
use unraid.Adopt.Steps.{run_step}
use unraid.Adopt.Undo.{behind, Ran, run_steps, all_ran, failed_at}

module _ {W : Type 0} where
  behind-all_ran :
      (y : Step × Text) (ran : Ran W) (done : List (Step × Text)) (s' : State W)
      → behind y ran ≡ all_ran done s'
      → (done' : List (Step × Text)) × (ran ≡ all_ran done' s')
  behind-all_ran y (all_ran ran s) done s' h = (ran, cc h)
  behind-all_ran y (failed_at before x e s) done s' h = absurd (cc h)

  -- The state that the next step finds.
  abbrev pub noted : Step → Text → State W → State W
  noted x d t = record t { state = note_copy x d t.state }

  module _ (ops : HostOps W) (words : Wording) (cx : ApplyCtx) where
    -- What a step that has succeeded has seen and done, between the state it began in and the one
    -- that it left.
    abbrev pub StepAchieved : Step → State W → State W → Type 0
    StepAchieved (verify_managed running icon image_id expect mode) s t =
        Verified ops cx running icon image_id expect mode s
    StepAchieved (create_volume volume labels) s t = Created ops volume labels s t
    StepAchieved ensure_stopped s t = StillStopped ops cx s
    StepAchieved (remove_volume volume) s t = Outcome ops cx volume s t
    StepAchieved _ s t = Unit

    -- The run from one state to another: each step begins in the state that the step before it left,
    -- and has achieved what it is for between the two states that it stands between.
    abbrev pub Achieved : List Step → State W → State W → Type 0
    Achieved [] s last = s ≡ last
    Achieved (x ∷ steps) s last =
        (d : Text) × (t : State W) × (run_step ops words x cx s ≡ (ok d, t))
        × StepAchieved x s t
        × Achieved steps (noted x d t) last

    run_step-Achieved :
        (x : Step) (s : State W) (d : Text) (t : State W)
        → run_step ops words x cx s ≡ (ok d, t)
        → StepAchieved x s t
    unfolding run_step
    run_step-Achieved (verify_managed running icon image_id expect mode) s d t h =
        verify-Verified ops words cx running icon image_id expect mode s d t h
    run_step-Achieved (create_volume volume labels) s d t h =
        create_volume_step-Created ops cx volume labels s d t h
    run_step-Achieved ensure_stopped s d t h = ensure_stopped_step-StillStopped ops cx s d t h
    run_step-Achieved (remove_volume volume) s d t h =
        remove_volume_step-Outcome ops cx volume s d t h
    run_step-Achieved _ s d t h = tt

    run_steps-Achieved :
        (steps : List Step) (s : State W) (done : List (Step × Text)) (s' : State W)
        → run_steps (runner_of ops words) cx s steps ≡ all_ran done s'
        → Achieved steps s s'
    unfolding run_steps
    run_steps-Achieved [] s done s' e = cc e
    run_steps-Achieved (x ∷ steps) s done s' e =
        let t = (run_step ops words x cx s).1 in
        elim (Result-cases (run_step ops words x cx s).0) [
          | inr (m, k) ↦ absurd (cc (rw (k, run_steps) at e))
          | inl (d, k) ↦
              let (done', rest) =
                behind-all_ran (x, d) (run_steps (runner_of ops words) cx (noted x d t) steps) done
                  s' (rw (k, run_steps) at e) in
              let ran : run_step ops words x cx s ≡ (ok d, t) = ap (λ z. (z, t)) k in
              (
                d,
                t,
                ran,
                run_step-Achieved x s d t ran,
                run_steps-Achieved steps (noted x d t) done' s' rest,
              )
        ]

    -- If `apply` succeeds, its steps have run from the state that it began in to the one that it
    -- leaves, and each has achieved, at its own states of this run, what it is for. A step that
    -- verifies found the container verified. One that ensures the stop found the container stopped,
    -- at the times that the run had recorded, and its volumes with the content that it had recorded.
    -- One that creates a volume made it with its labels, and empty. One that is to remove a volume
    -- did so only with the container running and the content that the run had recorded.
    pub apply-Achieved :
        (s : State W) (steps : List Step) (outs : List StepOutcome) (s' : State W)
        → apply (runner_of ops words) cx s steps ≡ (ok outs, s')
        → Achieved steps s s'
    apply-Achieved s steps outs s' h =
        let (done, ran, _, _) = apply_complete (runner_of ops words) cx s steps outs s' h in
        run_steps-Achieved steps s done s' ran
