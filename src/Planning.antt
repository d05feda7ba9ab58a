-- ===== src/Planning.antt =====
-- src/docker_adopt/mod.rs: `plan_adopt`, from the state of the host to the steps of an adopt.
pub mod Volumes
pub mod Steps
pub mod Adopting
pub mod Protocol
pub mod Order
pub mod Fidelity
pub mod Faithful
mod Tests
use unraid.Adopt.Verify.{managed_by_dockerman}
use unraid.Ownership.{to_ascii_lowercase}
use unraid.Map.{Set, Map}
use unraid.Ownership.Conversions.{ConversionProblem, LabelChange}
use unraid.Text.Utf8.{prefix_bytes}
use unraid.Text.{text_eq, codes, Text}
use unraid.Inspect.{
  managed_label, VolumeInspect, problem_if, short_name, ImageInspect, VolumeProblem,
  ContainerInspect, label,
}
use unraid.Orphans.Compose.{root_problem, NetworkBlocker, compose_leftovers, ComposeLeftovers}
use unraid.Paths.{parent, FilePath}
use unraid.Base.{
  ◌&&◌, option_eq, map, get_or, ◌++◌, Bool, if◌then◌else◌, List, Option, some, ok, err, true, false,
  [], ◌∷◌, inl, inr,
}
use unraid.Order.{list_ord, nat_ord}
use unraid.Base.{none}

-- What an adopt is planned against. `raw_json` and `unmodelled` are the text of the container's JSON
-- and what `inspect::unmodelled` says of it, for whether the container leaves its compose network.
pub record Snapshot : Type 0 where
  pub container : ContainerInspect
  pub raw_json : Text
  pub unmodelled : Bool → List Text
  pub image : ImageInspect
  pub tag_image_id : Option Text
  pub containers : List ContainerInspect
  pub volumes : Map Text VolumeInspect
  pub conversion_targets : Map Text VolumeInspect
  pub empty_volumes : Set Text
  pub existing_template : Option Text
  pub templates : List (Text × Option Text)
  pub autostart : List Text
  pub run_id : Text
  pub stacks_roots : List FilePath
  pub stacks_root_problems : FilePath → Option Text
  pub compose_file : Option Text

pub record AdoptOpts : Type 0 where
  pub repo : Option Text
  pub icon_base : Text
  pub migrate_volumes : Bool
  pub autostart : Option Bool

pub record Migration : Type 0 where
  pub volume : Text
  pub suffix : Text
  pub to : Text

-- Why an adopt is refused, with the values that the source formats.
pub data Blocker : Type 0 where
  already_managed : (name : Text) → Blocker
  tag_is_gone : (tag image : Text) → Blocker
  tag_moved : (tag id image : Text) → Blocker
  file_collides : (file : Text) → Blocker
  name_declared : (file : Text) → Blocker
  network_shared : NetworkBlocker → Blocker
  bad_volume : VolumeProblem → Blocker
  volume_shared : (volume : Text) (others : List Text) → Blocker
  bind_overlaps : (to : Text) (binds : List Text) → Blocker
  bad_conversion : ConversionProblem → Blocker

-- What an adopt changes on purpose.
pub data Intended : Type 0 where
  leaves_network : (network : Text) → Intended
  drops_compose_labels : (project : Text) → Intended
  moves_volume : (volume to : Text) → Intended
  converts_volume : (old target new : Text) → Intended
  label_change : LabelChange → Intended

abbrev image_problem : Text → Text → Option Text → Option Blocker
image_problem tag image none = some (tag_is_gone tag image)
image_problem tag image (some id) = if text_eq id image then none else some (tag_moved tag id image)

unfoldable pub image_blocker : Snapshot → Option Blocker
image_blocker s = image_problem s.container.config.image s.container.image s.tag_image_id

abbrev equal_without_case : Text → Text → Bool
equal_without_case s t = text_eq (map to_ascii_lowercase s) (map to_ascii_lowercase t)

abbrev declares : Text → Option Text → Bool
declares name none = false
declares name (some n) = equal_without_case n name

abbrev collision : Text → Text → Option Text → List Blocker
collision name f n =
    let file = codes "my-" ++ (name ++ codes ".xml") in
    if text_eq f file
    then []
    else if equal_without_case f file
    then file_collides f ∷ []
    else if declares name n
    then name_declared f ∷ []
    else []

unfoldable pub template_collisions : Text → List (Text × Option Text) → List Blocker
template_collisions name [] = []
template_collisions name ((f, n) ∷ templates) =
    collision name f n ++ template_collisions name templates

abbrev pub option_list : {A : Type 0} → Option A → List A
option_list none = []
option_list (some a) = a ∷ []

abbrev pub is_some : {A : Type 0} → Option A → Bool
is_some none = false
is_some (some _) = true

unfoldable pub first_blockers : Snapshot → List Blocker
unfolding label
first_blockers s =
    let c = s.container in
    let name = short_name c in
    problem_if
      (option_eq text_eq (label c managed_label) (some managed_by_dockerman)
        && is_some s.existing_template)
      (already_managed name)
    ++ (option_list (image_blocker s) ++ template_collisions name s.templates)

-- The stack is kept if root may not move directories out of its root.
abbrev root_allows : (FilePath → Option Text) → FilePath → Option Text
root_allows problems dir = elim (parent dir) [ none ↦ none | some p ↦ problems p ]

abbrev kept_if : ComposeLeftovers → Option Text → ComposeLeftovers
kept_if l none = l
kept_if l (some why) = record l { keep_reason = some (root_problem why); retire = none }

abbrev checked_retire :
    Snapshot → ComposeLeftovers → Option (FilePath × FilePath) → ComposeLeftovers
checked_retire s l none = l
checked_retire s l (some (dir, _)) = kept_if l (root_allows s.stacks_root_problems dir)

abbrev checked_leftovers : Snapshot → Option ComposeLeftovers → Option ComposeLeftovers
checked_leftovers s none = none
checked_leftovers s (some l) = some (checked_retire s l l.retire)

unfoldable pub compose_of : Snapshot → Option ComposeLeftovers
unfolding compose_leftovers prefix_bytes
compose_of s = checked_leftovers s (
    compose_leftovers s.container s.containers (get_or (prefix_bytes 8 s.run_id) []) s.stacks_roots
      s.compose_file)
