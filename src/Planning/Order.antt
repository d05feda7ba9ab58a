-- ===== src/Planning/Order.antt =====
-- The steps of an adopt keep the order.

use unraid.Planning.Adopting.{parts_of, AdoptPlan, plan_adopt}
use unraid.Base.{◌||◌}
use unraid.Planning.Protocol.{
  allow_autostart_after, allow_stop, allow_probe, allow_autostart_before, staged, rebuilt, verified,
  fresh, saved, allow_save, allow_save_probed, was_stopped, never_ran,
}
use unraid.Spec.Diff.{adopt}
use unraid.Ownership.{Conversion}
use unraid.Paths.{path_text, FilePath}
use unraid.Orphans.Compose.{ComposeLeftovers}
use unraid.Planning.{AdoptOpts, Snapshot, Migration}
use unraid.Text.{is_empty, Text}
use unraid.Planning.Steps.{
  adopt_steps, differ, steps_rebuild, has_copies, autostart_steps, steps_before, icon_option,
  compose_steps, retire_steps, network_steps, remove_steps, expose_steps, copy_steps, step_if,
  Parts, steps_after, conversion_steps,
}
use unraid.Base.{
  arith, Bool-cases, refl, ◌&&◌, is_nil, not, if◌then◌else◌, ◌++◌, ◌≡◌, Option, List, Bool, some,
  true, false, [], ◌∷◌, inl, inr,
}
use unraid.Order.{list_ord, nat_ord}
use unraid.Adopt.{
  rebuild, ensure_stopped, clear_icon_cache, refresh_icons, save_inspect, write_template,
}
use unraid.Planning.Protocol.{
  allow_remove_own, allow_refresh, allow_clear_icon, allow_rebuild, allow_copy_into,
  allow_remove_network, allow_expose, allow_retire, allow_rebuild_ensured, allow_verify,
  allow_remove, allow_state, allow_copy, allow_template, allow_ensure, allow_create, verified,
  saved, IsQuiet, Trace, Allowed, Phase, ended, then_,
}
use unraid.Adopt.{Step}
use unraid.Base.{none}

module _ {copies running : Bool} where
  Trace-append :
      {a b c : Phase} {xs ys : List Step}
      → Trace copies running a xs b
      → Trace copies running b ys c
      → Trace copies running a (xs ++ ys) c
  Trace-append ended t = t
  Trace-append (then_ h s) t = then_ h (Trace-append s t)

  Trace-step_if :
      {ph : Phase} {x : Step}
      → Allowed copies running ph x ph
      → (test : Bool) → Trace copies running ph (step_if test x) ph
  Trace-step_if h true = then_ h ended
  Trace-step_if h false = ended

  Trace-copies :
      {ph : Phase}
      → IsQuiet running ph
      → (ms : List Migration) → Trace copies running ph (copy_steps ms) ph
  Trace-copies q [] = ended
  Trace-copies q (m ∷ ms) = then_ (allow_copy m.volume m.suffix m.to q) (Trace-copies q ms)

  Trace-conversions :
      {ph : Phase}
      → IsQuiet running ph
      → (cvs : List Conversion) → Trace copies running ph (conversion_steps cvs) ph
  unfolding conversion_steps
  Trace-conversions q [] = ended
  Trace-conversions q (cv ∷ cvs) =
      Trace-append (Trace-step_if (allow_create cv.new cv.labels q) (not cv.reuse))
        (then_ (allow_copy_into cv.old cv.new q) (Trace-conversions q cvs))

  Trace-exposes : (ms : List Migration) → Trace copies running staged (expose_steps ms) staged
  Trace-exposes [] = ended
  Trace-exposes (m ∷ ms) = then_ (allow_expose m.suffix) (Trace-exposes ms)

  Trace-removes : (ms : List Migration) → Trace copies running verified (remove_steps ms) verified
  Trace-removes [] = ended
  Trace-removes (m ∷ ms) = then_ (allow_remove m.volume) (Trace-removes ms)

  Trace-rebuild :
      (p : Bool)
      → copies ≡ p
      → Trace copies running staged (step_if p ensure_stopped ++ rebuild ∷ []) rebuilt
  Trace-rebuild true e = then_ allow_ensure (then_ allow_rebuild_ensured ended)
  Trace-rebuild false e = then_ (allow_rebuild e) ended

  Trace-icons :
      (icon : Text)
      → Trace copies running verified
          (if is_empty icon then [] else clear_icon_cache ∷ refresh_icons ∷ [])
          verified
  Trace-icons [] = ended
  Trace-icons (c ∷ t) = then_ allow_clear_icon (then_ allow_refresh ended)

  Trace-network : (net : Option Text) → Trace copies running verified (network_steps net) verified
  Trace-network none = ended
  Trace-network (some net) = then_ (allow_remove_network net) ended

  Trace-retire :
      (project : Text) (r : Option (FilePath × FilePath))
      → Trace copies running verified (retire_steps project r) verified
  Trace-retire project none = ended
  Trace-retire project (some (from, to)) =
      then_ (allow_retire project (path_text from) (path_text to)) ended

  Trace-compose :
      (l : Option ComposeLeftovers) → Trace copies running verified (compose_steps l) verified
  Trace-compose none = ended
  Trace-compose (some l) = Trace-append (Trace-network l.network) (Trace-retire l.project l.retire)

  Trace-saves :
      {ph : Phase} (json xml : Text)
      → Allowed copies running ph (save_inspect json) saved
      → Trace copies running ph (save_inspect json ∷ write_template xml ∷ []) staged
  Trace-saves json xml h = then_ h (then_ (allow_template xml) ended)

  Trace-after : (p : Parts) → Trace copies running rebuilt (steps_after p) verified
  unfolding steps_after
  Trace-after p = then_ (allow_state p.was_running) (
      then_ (allow_verify p.was_running (icon_option p.icon) p.image_id p.expect adopt) (
        Trace-append (Trace-icons p.icon) (
          Trace-append (Trace-removes p.migrations) (
            Trace-append (Trace-step_if (allow_remove_own p.anonymous) (not (is_nil p.anonymous)))
              (Trace-compose p.compose)))))

  -- The steps before the rebuild, once the container is quiet.
  Trace-staging :
      {ph : Phase} (p : Parts)
      → IsQuiet running ph
      → Allowed copies running ph (save_inspect p.json) saved
      → Trace copies running ph
          (copy_steps p.migrations
            ++ (conversion_steps p.conversions
                ++ (save_inspect p.json ∷ write_template p.xml ∷ [])))
          staged
  Trace-staging p q h =
      Trace-append (Trace-copies q p.migrations)
        (Trace-append (Trace-conversions q p.conversions) (Trace-saves p.json p.xml h))

  Trace-autostart :
      (p : Parts)
      → copies ≡ has_copies p
      → Trace copies running staged
          (autostart_steps p.in_autostart p.was_running p.autostart (steps_rebuild p))
          rebuilt
  unfolding autostart_steps steps_rebuild
  Trace-autostart p e =
      Trace-append
        (Trace-step_if (allow_autostart_before p.was_running) (differ p.in_autostart p.was_running))
        (Trace-append (Trace-append (Trace-exposes p.migrations) (Trace-rebuild (has_copies p) e))
          (Trace-step_if (allow_autostart_after p.autostart) (differ p.autostart p.was_running)))

and-false : (a b : Bool) → b ≡ false → (a && b) ≡ false
and-false a b h = ground arith

false-and : (a b : Bool) → a ≡ false → (a && b) ≡ false
false-and a b h = ground arith

both_true : (a b : Bool) → a ≡ true → b ≡ true → (a && b) ≡ true
both_true a b h k = ground arith

is_nil-none : {A : Type 0} (xs : List A) → is_nil xs ≡ true → xs ≡ []
is_nil-none [] h = refl
is_nil-none (x ∷ xs) h = absurd (cc h)

no_copies : (p : Parts) → has_copies p ≡ false → (p.migrations ≡ []) × (p.conversions ≡ [])
no_copies p h =
    let a : is_nil p.migrations ≡ true = ground arith in
    let b : is_nil p.conversions ≡ true = ground arith in
    (is_nil-none p.migrations a, is_nil-none p.conversions b)

Trace-before : (p : Parts) → Trace (has_copies p) p.was_running fresh (steps_before p) staged
unfolding steps_before conversion_steps
Trace-before p = elim (Bool-cases p.was_running) [
  | inr r ↦ then_ allow_probe (
      rw (and-false (has_copies p) p.was_running r)
        (Trace-staging p (never_ran r) (allow_save_probed p.json)))
  | inl r ↦ elim (Bool-cases (has_copies p)) [
    | inl h ↦ then_ allow_probe (
        rw (both_true (has_copies p) p.was_running h r)
          (then_ (allow_stop h r) (Trace-staging p was_stopped (allow_save p.json))))
    | inr h ↦
        let (a, b) = no_copies p h in
        then_ allow_probe (
          rw (false-and (has_copies p) p.was_running h, a, b, conversion_steps)
            (Trace-saves p.json p.xml (allow_save_probed p.json)))
  ]
]

-- The steps that are made of any parts keep the order.
adopt_steps-Trace : (p : Parts) → Trace (has_copies p) p.was_running fresh (adopt_steps p) verified
unfolding adopt_steps
adopt_steps-Trace p =
    Trace-append (Trace-before p) (Trace-append (Trace-autostart p refl) (Trace-after p))

-- Whether an adopt copies volumes.
abbrev pub has_copies_of : AdoptPlan → Bool
has_copies_of plan = not (is_nil plan.migrations) || not (is_nil plan.conversions)

-- The steps of an adopt keep the order, whatever it moves, converts or leaves: the container is
-- stopped before its volumes are copied, found still stopped before the rebuild, and verified
-- before anything of the old container is removed.
pub plan_adopt-Trace :
    (secret : Text → Bool) (s : Snapshot) (o : AdoptOpts)
    → let plan = plan_adopt secret s o in
      Trace (has_copies_of plan) s.container.state.running fresh plan.steps verified
unfolding plan_adopt parts_of
plan_adopt-Trace secret s o = adopt_steps-Trace _
