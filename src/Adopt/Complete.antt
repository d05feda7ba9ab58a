-- ===== src/Adopt/Complete.antt =====
-- A partial `apply` never reads as success.
use unraid.Order.{list_ord, nat_ord}
use unraid.Adopt.Refines.{apply-refines}
use unraid.Adopt.Loop.{apply}
use unraid.Adopt.Undo.{
  is_rebuild, outcomes, failed_at, steps_of, all_ran, behind, run_steps, Ran, apply_of,
}
use unraid.Adopt.{Step}
use unraid.Adopt.Apply.{note_copy, StepOutcome, State, ApplyCtx, Runner}
use unraid.Base.{
  any, Bool-cases, refl, ◌∙◌, [], inr, ◌++◌, sym, inl, Result-cases, ap, ◌≡◌, ◌∷◌, List, ok,
}
use unraid.Text.{Text}

module _ {W : Type 0} (r : Runner W) (cx : ApplyCtx) where
  -- What has run is the steps, or a part of them.
  abbrev Covered : Ran W → List Step → Type 0
  Covered (all_ran ran s) steps = steps_of ran ≡ steps
  Covered (failed_at ran x e s) steps = (after : List Step) × (steps_of ran ++ x ∷ after ≡ steps)

  Covered-behind :
      (x : Step) (d : Text) (ran : Ran W) (steps : List Step)
      → Covered ran steps
      → Covered (behind (x, d) ran) (x ∷ steps)
  Covered-behind x d (all_ran ran s) steps h = ap (◌∷◌ x) h
  Covered-behind x d (failed_at ran y e s) steps (after, h) = (after, ap (◌∷◌ x) h)

  run_steps-Covered : (s : State W) (steps : List Step) → Covered (run_steps r cx s steps) steps
  unfolding run_steps
  run_steps-Covered s [] = refl
  run_steps-Covered s (x ∷ steps) = elim (Result-cases (r.run_step x cx s).0) [
    | inl (d, h) ↦
        let (_, s') = r.run_step x cx s in
        let next = record s' { state = note_copy x d s'.state } in
        rw (h, run_steps)
          (Covered-behind x d (run_steps r cx next steps) steps (run_steps-Covered next steps))
    | inr (e, h) ↦ rw (h, run_steps) (steps, refl)
  ]

  ok_of_apply_of :
      (steps : List Step) (outs : List StepOutcome) (s' : State W) (ran : Ran W)
      → Covered ran steps
      → apply_of r cx ran ≡ (ok outs, s')
      → (done : List (Step × Text)) × (ran ≡ all_ran done s')
        × (steps_of done ≡ steps)
        × (outs ≡ outcomes cx done)
  unfolding apply_of
  ok_of_apply_of steps outs s' (all_ran done s) c h = (done, ap (λ t. all_ran done t.1) h, c, cc h)
  ok_of_apply_of steps outs s' (failed_at done x e s) c h =
      elim (Bool-cases (any is_rebuild (steps_of done ++ x ∷ []))) [
        | inl b ↦ absurd (cc (rw b at h))
        | inr b ↦ absurd (cc (rw b at h))
      ]

  -- If `apply` succeeds, every step has succeeded, in order, and the outcomes are those of the steps.
  pub apply_complete :
      (s : State W) (steps : List Step) (outs : List StepOutcome) (s' : State W)
      → apply r cx s steps ≡ (ok outs, s')
      → (done : List (Step × Text)) × (run_steps r cx s steps ≡ all_ran done s')
        × (steps_of done ≡ steps)
        × (outs ≡ outcomes cx done)
  apply_complete s steps outs s' h =
      ok_of_apply_of steps outs s' (run_steps r cx s steps) (run_steps-Covered s steps)
        (sym (apply-refines r cx s steps) ∙ h)
