-- ===== src/Adopt/Loop.antt =====
-- src/docker_adopt/mod.rs: the loop of `apply`.
use unraid.Adopt.Recovery.{recovery}
use unraid.Order.{list_ord, nat_ord}
use unraid.Adopt.Rollback.{roll_back}
use unraid.Adopt.{Step}
use unraid.Adopt.Apply.{
  needs_recovery, note_copy, finished, mark, rolled_back, head, begun, StepOutcome, Progress, State,
  ApplyError, Runner, ApplyCtx,
}
use unraid.Base.{[], if◌then◌else◌, ◌∷◌, List, ◌++◌, Result, ok, err}
use unraid.Text.{join, Text, codes}

abbrev pub Applied : Type 0 → Type 0
Applied W = Result ApplyError (List StepOutcome) × State W

-- The two texts that `apply` fails with.
abbrev pub recovery_text : ApplyCtx → Text → Text
recovery_text cx top = cx.redactor (top ++ (codes ". " ++ recovery cx))

abbrev pub rollback_text : ApplyCtx → Text → List Text → Text
rollback_text cx top rolled =
    cx.redactor (top ++ (codes ". Rolled back: [" ++ (join (codes "; ") rolled ++ codes "]")))

module _ {W : Type 0} (r : Runner W) (cx : ApplyCtx) where
  -- A step has failed.
  unfoldable pub give_up : Progress → Step → Text → State W → Applied W
  give_up p step e s =
      let top = head cx p.done step e in
      let (rolled, s') = roll_back r cx p s in
      if p.rebuilt
      then (err (needs_recovery (recovery_text cx top)), s)
      else (err (rolled_back (rollback_text cx top rolled)), s')

  unfoldable pub apply_from : Progress → State W → List Step → Applied W
  apply_from p s [] = (ok p.done, s)
  apply_from p s (step ∷ steps) =
      let (res, s') = r.run_step step cx s in
      elim res [
        | err e ↦ give_up (mark p step) step e s'
        | ok detail ↦
            apply_from (finished cx (mark p step) step detail)
              (record s' { state = note_copy step detail s'.state }) steps
      ]

  unfoldable pub apply : State W → List Step → Applied W
  apply s steps = apply_from begun s steps
