-- ===== src/Ownership/Conversions.antt =====
-- src/docker_adopt/ownership.rs: `plan_conversions`.
use unraid.Order.{list_ord, nat_ord}
use unraid.Base.{false, if◌then◌else◌, none, some, ok, err}
use unraid.Ownership.{
  labels_eq, mount_safe, volume_labels, converted_name, to_ascii_lowercase, Conversion,
}
use unraid.Names.{validate_name, NameError}
use unraid.Text.{text_eq, codes, contains, Text}
use unraid.Map.{contains_key, add, get, Set, Map}
use unraid.Inspect.{
  labels_of, is_anonymous, problem_if, local_volume_problems, volumes, mounted_by_others,
  short_name, mounts_volume, MountPoint, VolumeInspect, VolumeProblem, ContainerInspect,
}
use unraid.Base.{
  ◌&&◌, is_nil, ◌||◌, err, ok, not, ◌++◌, Bool, ◌∷◌, keep, Result, [], map, List, any,
}

-- Why a volume cannot be converted, with the values that the source formats.
pub data ConversionProblem : Type 0 where
  not_plain : VolumeProblem → ConversionProblem
  also_mounted : (volume : Text) (others : List Text) → ConversionProblem
  unsafe_target : (volume target : Text) → ConversionProblem
  bad_new_name : (volume : Text) → NameError → ConversionProblem
  same_new_name : (container new : Text) → ConversionProblem
  name_in_use : (new container target : Text) → ConversionProblem

-- `to_lowercase`, on names that are ASCII as docker's are.
abbrev pub lowercase : Text → Text
lowercase t = map to_ascii_lowercase t

-- What the names of volumes stand for on the host.
pub record Surroundings : Type 0 where
  pub volumes : Map Text VolumeInspect
  pub existing : Map Text VolumeInspect
  pub empty : Set Text
  pub all_containers : List ContainerInspect
  pub skip : List Text

abbrev pub anonymous_in : Map Text VolumeInspect → Text → Bool
anonymous_in vols n = elim (get vols n) [ none ↦ false | some v ↦ is_anonymous v ]

-- Whether the loop goes on to the next mount.
unfoldable pub is_passed : Surroundings → Text → Bool
is_passed sur old = contains sur.skip old || not (anonymous_in sur.volumes old)

abbrev is_in_use : List ContainerInspect → Text → Bool
is_in_use containers new = any (mounts_volume new) containers

-- The arm of `existing.get(&new)`: whether the volume is reused.
unfoldable pub reused : Surroundings → Text → Map Text Text → Bool
reused sur new labels = elim (get sur.existing new) [
  | none ↦ false
  | some v ↦ labels_eq (labels_of v) labels && not (is_in_use sur.all_containers new)
]

abbrev pub name_problems : Text → Result NameError (Unit {0}) → List ConversionProblem
name_problems old (ok tt) = []
name_problems old (err e) = bad_new_name old e ∷ []

-- The problems of one mount, in the source's order. `taken` holds the new names before it.
unfoldable pub conversion_problems :
    Surroundings → Text → Set Text → Text → MountPoint → List ConversionProblem
conversion_problems sur name taken old m =
    let target = m.destination in
    let new = converted_name name target in
    let others = mounted_by_others old name sur.all_containers in
    map not_plain (local_volume_problems old (get sur.volumes old) m.source)
    ++ (problem_if (not (is_nil others)) (also_mounted old others)
        ++ (problem_if (not (mount_safe target)) (unsafe_target old target)
            ++ (name_problems old (validate_name (codes "volume") new)
                ++ (problem_if (contains_key taken (lowercase new)) (same_new_name name new)
                    ++ problem_if
                        (contains_key sur.existing new
                          && not (reused sur new (volume_labels name target)))
                        (name_in_use new name target)))))

unfoldable pub conversion : Surroundings → Text → Text → MountPoint → Conversion
conversion sur name old m =
    let target = m.destination in
    let new = converted_name name target in
    let labels = volume_labels name target in
    record {
      old = old;
      new = new;
      target = target;
      read_only = not m.is_rw;
      labels = labels;
      reuse = reused sur new labels;
      nocopy = contains_key sur.empty old;
    }

-- The variables of the loop.
pub record Conversions : Type 0 where
  pub out : List Conversion
  pub blockers : List ConversionProblem
  pub taken : Set Text

abbrev pub no_conversions : Conversions
no_conversions = record { out = []; blockers = []; taken = [] }

unfoldable pub convert : Surroundings → Text → Conversions → Text → MountPoint → Conversions
convert sur name c old m = record {
  out = c.out ++ conversion sur name old m ∷ [];
  blockers = c.blockers ++ conversion_problems sur name c.taken old m;
  taken = add (lowercase (converted_name name m.destination)) c.taken;
}

unfoldable pub convert_mount : Surroundings → Text → Conversions → MountPoint → Conversions
convert_mount sur name c m = elim m.name [
  | none ↦ c
  | some old ↦ if is_passed sur old then c else convert sur name c old m
]

unfoldable pub convert_all : Surroundings → Text → Conversions → List MountPoint → Conversions
convert_all sur name c [] = c
convert_all sur name c (m ∷ ms) = convert_all sur name (convert_mount sur name c m) ms

unfoldable pub plan_conversions :
    ContainerInspect → Surroundings → List Conversion × List ConversionProblem
plan_conversions c sur =
    let done = convert_all sur (short_name c) no_conversions (volumes c) in
    (done.out, done.blockers)

-- `label_changes`: what writing a label changes.
pub data LabelChange : Type 0 where
  label_added : (what key value : Text) → LabelChange
  label_changed : (what key before after : Text) → LabelChange

abbrev label_change : Text → Map Text Text → Text → Text → List LabelChange
label_change what have k v = elim (get have k) [
  | none ↦ label_added what k v ∷ []
  | some h ↦ problem_if (not (text_eq h v)) (label_changed what k h v)
]

unfoldable pub label_changes : Text → Map Text Text → Map Text Text → List LabelChange
label_changes what have [] = []
label_changes what have ((k, v) ∷ want) = label_change what have k v ++ label_changes what have want

unfoldable pub missing : Map Text Text → List Text → List Text
missing labels required = keep (λ k. not (contains_key labels k)) required
