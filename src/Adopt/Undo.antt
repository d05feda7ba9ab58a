-- ===== src/Adopt/Undo.antt =====
-- What `apply` promises: the steps in order up to the first that fails, and what undoes them.
use unraid.Order.{list_ord, nat_ord}
use unraid.Adopt.Loop.{rollback_text, recovery_text, Applied}
use unraid.Adopt.Rollback.{
  leave_exposed, remove_copy, remove_created, start_container, each, restore_autostart,
  restore_template, Notes,
}
use unraid.Adopt.Apply.{
  rolled_back, needs_recovery, head, note_copy, outcome, State, StepOutcome, ApplyCtx, Runner,
}
use unraid.Adopt.{copy_volume, expose_copy, set_autostart, stop, write_template, rebuild, Step}
use unraid.Base.{
  ◌&&◌, map, [], not, ◌++◌, ◌∷◌, any, keep, List, Bool, ok, err, true, false, if◌then◌else◌,
}
use unraid.Text.{Text, contains}

-- The steps have all run, each with what it answered, or one has failed: the steps before it, the
-- step and its error.
pub data Ran (W : Type 0) : Type 0 where
  all_ran : List (Step × Text) → State W → Ran W
  failed_at : List (Step × Text) → Step → Text → State W → Ran W

module _ {W : Type 0} where
  abbrev pub behind : Step × Text → Ran W → Ran W
  behind x (all_ran ran s) = all_ran (x ∷ ran) s
  behind x (failed_at before y e s) = failed_at (x ∷ before) y e s

  unfoldable pub run_steps : Runner W → ApplyCtx → State W → List Step → Ran W
  run_steps r cx s [] = all_ran [] s
  run_steps r cx s (x ∷ xs) =
      let (res, s') = r.run_step x cx s in
      elim res [
        | err e ↦ failed_at [] x e s'
        | ok d ↦ behind (x, d) (run_steps r cx (record s' { state = note_copy x d s'.state }) xs)
      ]

-- The outcomes of steps that succeeded.
abbrev pub outcomes : ApplyCtx → List (Step × Text) → List StepOutcome
outcomes cx [] = []
outcomes cx ((x, d) ∷ ran) = outcome cx x d ∷ outcomes cx ran

abbrev pub steps_of : List (Step × Text) → List Step
steps_of [] = []
steps_of ((x, d) ∷ ran) = x ∷ steps_of ran

abbrev pub is_rebuild : Step → Bool
is_rebuild rebuild = true
is_rebuild _ = false

abbrev pub is_stop : Step → Bool
is_stop stop = true
is_stop _ = false

abbrev pub is_write_template : Step → Bool
is_write_template (write_template _) = true
is_write_template _ = false

abbrev pub is_set_autostart : Step → Bool
is_set_autostart (set_autostart _) = true
is_set_autostart _ = false

abbrev pub copied : List Step → List Text
copied [] = []
copied (copy_volume _ suffix _ ∷ xs) = suffix ∷ copied xs
copied (_ ∷ xs) = copied xs

abbrev pub exposed_by : List Step → List Text
exposed_by [] = []
exposed_by (expose_copy suffix ∷ xs) = suffix ∷ exposed_by xs
exposed_by (_ ∷ xs) = exposed_by xs

-- What undoes a step, or tells that it is left.
pub data Undo : Type 0 where
  the_template the_autostart the_stop the_created_volumes : Undo
  the_copy leave : Text → Undo

abbrev pub undo_if : Bool → Undo → List Undo
undo_if true u = u ∷ []
undo_if false u = []

-- The copies that may be removed.
abbrev pub unexposed : List Step → List Text
unexposed before = keep (λ c. not (contains (exposed_by before) c)) (copied before)

-- What undoes the steps, the last of which failed.
unfoldable pub undone : Bool → List Step → Step → List Undo
undone was_running before x =
    undo_if (any is_write_template before) the_template
    ++ (undo_if (any is_set_autostart (before ++ x ∷ [])) the_autostart
        ++ (map leave (exposed_by before)
            ++ (map the_copy (unexposed before)
                ++ (the_created_volumes ∷ undo_if (any is_stop before && was_running) the_stop))))

module _ {W : Type 0} (r : Runner W) (cx : ApplyCtx) where
  unfoldable pub perform : Undo → Notes W
  perform the_template = restore_template r cx
  perform the_autostart = restore_autostart r cx
  perform the_stop = start_container r cx
  perform the_created_volumes = λ s. each (remove_created r) s.state.created s
  perform (the_copy suffix) = remove_copy r cx suffix
  perform (leave suffix) = leave_exposed cx suffix

  -- What `apply` returns and leaves behind.
  unfoldable pub apply_of : Ran W → Applied W
  apply_of (all_ran ran s) = (ok (outcomes cx ran), s)
  apply_of (failed_at ran x e s) =
      let before = steps_of ran in
      let top = head cx (outcomes cx ran) x e in
      let (rolled, s') = each perform (undone cx.was_running before x) s in
      if any is_rebuild (before ++ x ∷ [])
      then (err (needs_recovery (recovery_text cx top)), s)
      else (err (rolled_back (rollback_text cx top rolled)), s')
