-- ===== src/Privileged/CopyInto.antt =====
-- src/docker_adopt/privileged.rs: `copy_into_problem`, why a volume may not receive another's data.
pub mod Receives
use unraid.Inspect.{volumes}
use unraid.Spec.Diff.{words_eq}
use unraid.Ownership.{volume_labels, labels_eq}
use unraid.Text.{Text}
use unraid.Privileged.{find_map}
use unraid.Inspect.{is_named, labels_of, ContainerInspect, VolumeInspect, is_anonymous, short_name}
use unraid.Base.{not, if◌then◌else◌, Option, List, ok, err, true, false, [], ◌∷◌, inl, inr}
use unraid.Order.{list_ord, nat_ord}
use unraid.Base.{none, some}

pub data CopyProblem : Type 0 where
  not_anonymous : (volume : Text) → CopyProblem
  used_by : (volume : Text) (users : List Text) (name : Text) → CopyProblem
  not_mounted : (name volume : Text) → CopyProblem
  not_labeled : (volume name destination : Text) → CopyProblem

-- The destination of the container's mount of a volume.
unfoldable pub destination_of : ContainerInspect → Text → Option Text
unfolding find_map volumes
destination_of c volume =
    find_map (λ m. if is_named volume m then some m.destination else none) (volumes c)

unfoldable pub label_problem : Text → VolumeInspect → Text → Option CopyProblem
unfolding labels_eq volume_labels
label_problem name to destination =
    if labels_eq (labels_of to) (volume_labels name destination)
    then none
    else some (not_labeled to.name name destination)

abbrev pub problem_at : Text → Text → VolumeInspect → Option Text → Option CopyProblem
problem_at name volume to none = some (not_mounted name volume)
problem_at name volume to (some destination) = label_problem name to destination

unfoldable pub copy_into_problem :
    ContainerInspect → VolumeInspect → List Text → VolumeInspect → Option CopyProblem
unfolding short_name is_anonymous words_eq destination_of label_problem
copy_into_problem c from users to =
    let name = short_name c in
    if not (is_anonymous from)
    then some (not_anonymous from.name)
    else if not (words_eq users (name ∷ []))
    then some (used_by from.name users name)
    else problem_at name from.name to (destination_of c from.name)
