-- ===== src/Adopt/Verify.antt =====
-- src/docker_adopt/mod.rs: the step `VerifyManaged` of `run_step`.
use unraid.Inspect.Translated.{live_spec}
use unraid.Effects.{fail_if, ◌>>=◌, ◌>>◌, give}
use unraid.Spec.{RunSpec}
use unraid.Spec.Diff.{diff, DiffMode, Message, Delta}
use unraid.Adopt.Apply.{ApplyCtx, HostOps}
use unraid.Inspect.{label, icon_label, managed_label, ContainerInspect}
use unraid.Adopt.Host.{on_host, Run, Wording}
use unraid.Text.{text_eq, join, codes, Text}
use unraid.Base.{
  ◌&&◌, is_nil, not, map, if◌then◌else◌, Option, Bool, ◌++◌, get_or, List, some, [], ◌∷◌,
}
use unraid.Order.{list_ord, nat_ord}
use unraid.Base.{none}

abbrev pub managed_by_dockerman : Text
managed_by_dockerman = codes "dockerman"

abbrev pub says : List Text → Text
says [] = []
says (t ∷ ts) = t ++ says ts

-- `label(key).unwrap_or_default()`
abbrev pub label_or_empty : ContainerInspect → Text → Text
label_or_empty c key = get_or (label c key) []

abbrev wrong_managed : Wording → ContainerInspect → Text
wrong_managed w c =
    let managed = label_or_empty c managed_label in
    says (
      managed_label
      ∷ codes " is "
      ∷ w.debug managed
      ∷ codes ", expected "
      ∷ w.debug managed_by_dockerman
      ∷ [])

abbrev wrong_icon : Wording → ContainerInspect → Text → Text
wrong_icon w c want = says (
    icon_label
    ∷ codes " is "
    ∷ w.debug (label_or_empty c icon_label)
    ∷ codes ", expected "
    ∷ w.debug want
    ∷ [])

-- The differences that nobody intended.
unfoldable pub blockers_of : List Delta → List Message
blockers_of [] = []
blockers_of (d ∷ ds) = if d.intended then blockers_of ds else d.msg ∷ blockers_of ds

module _ {W : Type 0} (ops : HostOps W) (words : Wording) (cx : ApplyCtx) where
  abbrev pub check_icon : ContainerInspect → Option Text → Run W (Unit {0})
  check_icon c none = give tt
  check_icon c (some want) =
      fail_if (not (text_eq (label_or_empty c icon_label) want)) (wrong_icon words c want)

  -- The checks before the image is inspected.
  unfoldable pub check_container : Bool → Option Text → Text → ContainerInspect → Run W (Unit {0})
  check_container running icon image_id c = do
    fail_if (not (text_eq (label_or_empty c managed_label) managed_by_dockerman))
        (wrong_managed words c)
    fail_if (running && not (text_eq c.state.status (codes "running")))
        (says (codes "container is " ∷ c.state.status ∷ codes ", expected running" ∷ []))
    fail_if (not (text_eq c.image image_id))
        (says (codes "container runs image " ∷ c.image ∷ codes ", expected " ∷ image_id ∷ []))
    check_icon c icon

  abbrev pub differs : List Message → Text
  differs d =
      codes "recreated container differs from the rendered command: "
      ++ join (codes "; ") (map words.difference d)

  unfoldable pub check_spec : RunSpec → DiffMode → RunSpec → Run W (Unit {0})
  check_spec expect mode got =
      let d = blockers_of (diff cx.masks expect got mode) in fail_if (not (is_nil d)) (differs d)

  unfoldable pub verify : Bool → Option Text → Text → RunSpec → DiffMode → Run W Text
  verify running icon image_id expect mode = do
    c ← on_host (ops.inspect_container cx.name)
    check_container running icon image_id c
    img ← on_host (ops.inspect_image c.image)
    check_spec expect mode (live_spec c img).0
    give (
        says (
          managed_label
          ∷ codes "="
          ∷ label_or_empty c managed_label
          ∷ codes ", "
          ∷ c.state.status
          ∷ []))
