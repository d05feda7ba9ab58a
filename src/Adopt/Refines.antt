-- ===== src/Adopt/Refines.antt =====
-- `apply` does what it promises.
use unraid.Order.{list_ord, nat_ord}
use unraid.Adopt.Marks.{
  autostart_first-none, autostart-mark, go_on, done-mark, any-snoc, rebuilt-mark, left_as_they_are,
  total, apply_from-go_on,
}
use unraid.Text.{Text}
use unraid.Adopt.Loop.{apply, give_up}
use unraid.Adopt.{Step}
use unraid.Adopt.Undo.{
  all_ran, Ran, is_rebuild, steps_of, failed_at, run_steps, apply_of, the_autostart, the_template,
  leave, the_created_volumes, unexposed, the_copy, the_stop, is_stop, copied, exposed_by,
  is_set_autostart, is_write_template, undone, undo_if, perform, Undo,
}
use unraid.Adopt.Apply.{begun, mark, Progress, State, ApplyCtx, Runner}
use unraid.Adopt.Rollback.{roll_back, when, Notes, ◌⨾◌, each}
use unraid.Base.{
  arith, inr, inl, Bool-cases, ◌∙◌, sym, ◌&&◌, any, refl, append_assoc, append-nil, ◌≡◌, ◌++◌, [],
  map, List, ◌∷◌, Bool, true, false,
}

module _ {W : Type 0} where
  map_append_at :
      {A B : Type 0} (f : B → Notes W) (g : A → B) (xs : List A) (ys : List B) (s : State W)
      → each f (map g xs ++ ys) s ≡ (each (λ x. f (g x)) xs ⨾ each f ys) s
  unfolding each ◌⨾◌
  map_append_at f g [] ys s = refl
  map_append_at f g (x ∷ xs) ys s = rw (map_append_at f g xs ys (f (g x) s).1, append_assoc)

  each-map_append :
      {A B : Type 0} (f : B → Notes W) (g : A → B) (xs : List A) (ys : List B)
      → each f (map g xs ++ ys) ≡ (each (λ x. f (g x)) xs ⨾ each f ys)
  each-map_append f g xs ys = λ i s. map_append_at f g xs ys s i

  each-one : {A : Type 0} (f : A → Notes W) (x : A) → each f (x ∷ []) ≡ f x
  unfolding each ◌⨾◌
  each-one f x = λ i s. (append-nil (f x s).0 i, (f x s).1)

module _ {W : Type 0} (r : Runner W) (cx : ApplyCtx) where
  each-undo_if :
      (b : Bool) (u : Undo) (us : List Undo)
      → each (perform r cx) (undo_if b u ++ us) ≡ (when b (perform r cx u) ⨾ each (perform r cx) us)
  unfolding each ◌⨾◌
  each-undo_if true u us = refl
  each-undo_if false u us = refl

  last-undo_if : (b : Bool) (u : Undo) → each (perform r cx) (undo_if b u) ≡ when b (perform r cx u)
  unfolding each
  last-undo_if true u = each-one (perform r cx) u
  last-undo_if false u = refl

  roll_back-undone :
      (p : Progress) (before : List Step) (x : Step)
      → p.template_written ≡ any is_write_template before
      → p.autostart_changed ≡ any is_set_autostart (before ++ x ∷ [])
      → p.exposed ≡ exposed_by before
      → p.copies ≡ copied before
      → p.stopped ≡ any is_stop before
      → roll_back r cx p ≡ each (perform r cx) (undone cx.was_running before x)
  unfolding roll_back undone perform each
  roll_back-undone p before x t a e c h =
      let again = undo_if (any is_stop before && cx.was_running) the_stop in
      let copies = map the_copy (unexposed before) ++ the_created_volumes ∷ again in
      let left = map leave (exposed_by before) ++ copies in
      let autostart = any is_set_autostart (before ++ x ∷ []) in
      rw (t, a, e, c, h)
        (sym (
          each-undo_if (any is_write_template before) the_template
            (undo_if autostart the_autostart ++ left)
          ∙ rw (
            each-undo_if autostart the_autostart left,
            each-map_append (perform r cx) leave (exposed_by before) copies,
            each-map_append (perform r cx) the_copy (unexposed before)
                (the_created_volumes ∷ again),
            last-undo_if (any is_stop before && cx.was_running) the_stop,
          )))

  -- The flags say what has run.
  autostart-marked :
      (ran : List (Step × Text)) (x : Step)
      → any is_rebuild (steps_of ran ++ x ∷ []) ≡ false
      → (mark (total cx begun ran) x).autostart_changed
        ≡ any is_set_autostart (steps_of ran ++ x ∷ [])
  autostart-marked ran x h =
      let before = steps_of ran in
      let p = total cx begun ran in
      let quiet : any is_rebuild before ≡ false = ground (arith, h, any-snoc is_rebuild before x) in
      ground (
        arith,
        quiet,
        autostart-mark p x quiet,
        autostart_first-none before quiet,
        any-snoc is_set_autostart before x,
      )

  roll_back-marked :
      (ran : List (Step × Text)) (x : Step)
      → any is_rebuild (steps_of ran ++ x ∷ []) ≡ false
      → roll_back r cx (mark (total cx begun ran) x)
        ≡ each (perform r cx) (undone cx.was_running (steps_of ran) x)
  roll_back-marked ran x h =
      let p = total cx begun ran in
      let (stopped, template, copies, exposed) = left_as_they_are p x in
      roll_back-undone (mark p x) (steps_of ran) x template (autostart-marked ran x h) exposed
        copies stopped

  give_up-apply_of :
      (ran : List (Step × Text)) (x : Step) (e : Text) (s : State W)
      → give_up r cx (mark (total cx begun ran) x) x e s ≡ apply_of r cx (failed_at ran x e s)
  unfolding give_up apply_of
  give_up-apply_of ran x e s =
      let before = steps_of ran in
      let p = total cx begun ran in
      let again = rebuilt-mark p x ∙ sym (any-snoc is_rebuild before x) in
      elim (Bool-cases (any is_rebuild (before ++ x ∷ []))) [
        | inl h ↦ rw (h, again ∙ h, done-mark p x)
        | inr h ↦ rw (roll_back-marked ran x h, h, again ∙ h, done-mark p x)
      ]

  go_on-apply_of : (ran : Ran W) → go_on r cx begun ran ≡ apply_of r cx ran
  unfolding apply_of
  go_on-apply_of (all_ran ran s) = refl
  go_on-apply_of (failed_at ran x e s) = give_up-apply_of ran x e s

  -- `apply` returns the outcomes of the steps if all of them succeed. If one fails, it leaves the
  -- host as that step left it and asks for a recovery once the rebuild has been tried, and undoes
  -- the steps before it otherwise: the template, autostart, the copies that are not exposed, the
  -- volumes that were created, and the stop.
  pub apply-refines :
      (s : State W) (steps : List Step)
      → apply r cx s steps ≡ apply_of r cx (run_steps r cx s steps)
  unfolding apply
  apply-refines s steps =
      apply_from-go_on r cx begun s steps ∙ go_on-apply_of (run_steps r cx s steps)
