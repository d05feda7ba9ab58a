-- ===== src/Adopt/Marks.antt =====
-- What the flags of `apply` say of the steps that have run.
use unraid.Order.{list_ord, nat_ord}
use unraid.Adopt.Loop.{give_up, Applied, apply_from}
use unraid.Adopt.Undo.{
  failed_at, all_ran, behind, Ran, run_steps, exposed_by, copied, is_write_template, is_stop,
  steps_of, is_set_autostart, is_rebuild, outcomes,
}
use unraid.Adopt.{
  stop, probe, write_template, expose_copy, copy_volume, set_autostart, rebuild, Step,
}
use unraid.Adopt.Apply.{note_copy, State, Runner, finished, Progress, track, ApplyCtx, mark}
use unraid.Base.{
  ◌∙◌, Result-cases, sym, ap, inr, inl, append-nil, arith, Bool-cases, ◌&&◌, not, refl, [],
  append_assoc, ◌||◌, ◌≡◌, ◌∷◌, any, Bool, ◌++◌, List, ok, true, false,
}
use unraid.Text.{Text}

or_true : (b : Bool) → (b || true) ≡ true
or_true b = ground arith

or_false : (b : Bool) → (b || false) ≡ b
or_false b = ground arith

and_false : (b : Bool) → (b && false) ≡ false
and_false b = ground arith

-- Autostart is set before the rebuild.
unfoldable pub autostart_first : List Step → Bool
autostart_first [] = false
autostart_first (set_autostart _ ∷ xs) = true
autostart_first (rebuild ∷ xs) = false
autostart_first (_ ∷ xs) = autostart_first xs

-- The variables of the loop after steps that succeeded.
abbrev pub total : ApplyCtx → Progress → List (Step × Text) → Progress
total cx p ran = record {
  done = p.done ++ outcomes cx ran;
  rebuilt = p.rebuilt || any is_rebuild (steps_of ran);
  stopped = p.stopped || any is_stop (steps_of ran);
  template_written = p.template_written || any is_write_template (steps_of ran);
  autostart_changed = p.autostart_changed || not p.rebuilt && autostart_first (steps_of ran);
  copies = p.copies ++ copied (steps_of ran);
  exposed = p.exposed ++ exposed_by (steps_of ran);
}

pub autostart_first-none :
    (xs : List Step) → any is_rebuild xs ≡ false → autostart_first xs ≡ any is_set_autostart xs
unfolding autostart_first
autostart_first-none [] h = refl
autostart_first-none (probe ∷ xs) h = autostart_first-none xs h
autostart_first-none (set_autostart _ ∷ xs) h = refl
autostart_first-none (rebuild ∷ xs) h = cc h
autostart_first-none (_ ∷ xs) h = autostart_first-none xs h

total-step :
    (cx : ApplyCtx) (p : Progress) (x : Step) (d : Text) (ran : List (Step × Text))
    → total cx (finished cx (mark p x) x d) ran ≡ total cx p ((x, d) ∷ ran)
unfolding mark track autostart_first
total-step cx p probe d ran = rw append_assoc
total-step cx p stop d ran = rw (append_assoc, or_true)
total-step cx p (copy_volume v suffix to) d ran = rw (append_assoc, append_assoc p.copies)
total-step cx p (expose_copy suffix) d ran = rw (append_assoc, append_assoc p.exposed)
total-step cx p (write_template xml) d ran = rw (append_assoc, or_true)
total-step cx p (set_autostart on) d ran = elim (Bool-cases p.rebuilt) [
  | inl h ↦ rw (h, append_assoc)
  | inr h ↦ rw (h, append_assoc, or_true)
]
total-step cx p rebuild d ran = rw (append_assoc, or_true, and_false)
total-step cx p _ d ran = rw append_assoc

-- The loop goes on from what has run.
abbrev pub go_on : {W : Type 0} → Runner W → ApplyCtx → Progress → Ran W → Applied W
go_on r cx p (all_ran ran s) = (ok (total cx p ran).done, s)
go_on r cx p (failed_at ran x e s) = give_up r cx (mark (total cx p ran) x) x e s

go_on-behind :
    {W : Type 0} (r : Runner W) (cx : ApplyCtx) (p : Progress) (x : Step) (d : Text) (ran : Ran W)
    → go_on r cx (finished cx (mark p x) x d) ran ≡ go_on r cx p (behind (x, d) ran)
go_on-behind r cx p x d (all_ran ran s) = ap (λ q. (ok q.done, s)) (total-step cx p x d ran)
go_on-behind r cx p x d (failed_at ran y e s) =
    ap (λ q. give_up r cx (mark q y) y e s) (total-step cx p x d ran)

total-nil : (cx : ApplyCtx) (p : Progress) → total cx p [] ≡ p
unfolding autostart_first
total-nil cx p = rw (
  append-nil,
  append-nil p.copies,
  append-nil p.exposed,
  or_false p.rebuilt,
  or_false p.stopped,
  or_false p.template_written,
  and_false,
  or_false p.autostart_changed,
)

pub apply_from-go_on :
    {W : Type 0} (r : Runner W) (cx : ApplyCtx) (p : Progress) (s : State W) (steps : List Step)
    → apply_from r cx p s steps ≡ go_on r cx p (run_steps r cx s steps)
unfolding apply_from run_steps
apply_from-go_on r cx p s [] = ap (λ q. (ok q.done, s)) (sym (total-nil cx p))
apply_from-go_on r cx p s (x ∷ steps) = elim (Result-cases (r.run_step x cx s).0) [
  | inl (d, h) ↦
      let (_, s') = r.run_step x cx s in
      let next = record s' { state = note_copy x d s'.state } in
      rw (h, apply_from, run_steps)
        (apply_from-go_on r cx (finished cx (mark p x) x d) next steps
          ∙ go_on-behind r cx p x d (run_steps r cx next steps))
  | inr (e, h) ↦
      let (_, s') = r.run_step x cx s in
      rw (h, apply_from, run_steps)
        (ap (λ q. give_up r cx (mark q x) x e s') (sym (total-nil cx p)))
]

pub any-snoc :
    {A : Type 0} (p : A → Bool) (xs : List A) (x : A) → any p (xs ++ x ∷ []) ≡ (any p xs || p x)
any-snoc p [] x = or_false (p x)
any-snoc p (y ∷ xs) x = ground (arith, any-snoc p xs x)

pub rebuilt-mark : (q : Progress) (x : Step) → (mark q x).rebuilt ≡ (q.rebuilt || is_rebuild x)
unfolding mark
rebuilt-mark q x = ground arith

pub done-mark : (q : Progress) (x : Step) → (mark q x).done ≡ q.done
unfolding mark
done-mark q x = ground arith

pub autostart-mark :
    (q : Progress) (x : Step)
    → q.rebuilt ≡ false
    → (mark q x).autostart_changed ≡ (q.autostart_changed || is_set_autostart x)
unfolding mark
autostart-mark q x h = ground (arith, h)

pub left_as_they_are :
    (q : Progress) (x : Step)
    → ((mark q x).stopped ≡ q.stopped)
      × ((mark q x).template_written ≡ q.template_written)
      × ((mark q x).copies ≡ q.copies)
      × ((mark q x).exposed ≡ q.exposed)
unfolding mark
left_as_they_are q (set_autostart on) = elim (Bool-cases q.rebuilt) [
  | inl h ↦ rw h (refl, refl, refl, refl)
  | inr h ↦ rw h (refl, refl, refl, refl)
]
left_as_they_are q rebuild = (refl, refl, refl, refl)
left_as_they_are q probe = (refl, refl, refl, refl)
left_as_they_are q _ = (refl, refl, refl, refl)
