-- ===== src/Planning/Volumes.antt =====
-- src/docker_adopt/mod.rs: the volumes that `plan_adopt` moves and converts.
use unraid.Spec.{bind, volume, mount_ord}
use unraid.Inspect.{volumes}
use unraid.Paths.{components}
use unraid.Orphans.Compose.{binds_overlapping}
use unraid.Ownership.Conversions.{plan_conversions, ConversionProblem, Surroundings}
use unraid.Adopt.{appdata}
use unraid.Ownership.{mount, LabeledVolume, Conversion}
use unraid.Map.{get, extend, remove, names_in, add, Map, Set}
use unraid.Planning.{
  moves_volume, bind_overlaps, volume_shared, bad_volume, Intended, Blocker, AdoptOpts, Migration,
  Snapshot,
}
use unraid.Spec.{MountKind, MountSpec, bind, RunSpec}
use unraid.Text.{text_eq, Text}
use unraid.Orphans.Suffixes.{appdata_suffixes}
use unraid.Inspect.{
  problem_if, local_volume_problems, short_name, compose_project, mounted_by_others, MountPoint,
}
use unraid.Base.{
  is_nil, not, ◌&&◌, Bool, map, ◌++◌, if◌then◌else◌, get_or, Option, List, some, false, [], ◌∷◌,
}
use unraid.Order.{list_ord, nat_ord}
use unraid.Base.{none}

-- Whether a mount of the spec is the one of a volume at a path.
abbrev is_mount_of : Text → Text → MountSpec → MountKind → Bool
is_mount_of vol path m bind = false
is_mount_of vol path m volume = text_eq m.source vol && text_eq m.target path

-- `iter().find(..).cloned()`
abbrev find_mount : Text → Text → Set MountSpec → Option MountSpec
find_mount vol path [] = none
find_mount vol path ((m, _) ∷ ms) =
    let rest = find_mount vol path ms in if is_mount_of vol path m m.kind then some m else rest

abbrev replaced : RunSpec → Option MountSpec → (MountSpec → MountSpec) → RunSpec
replaced spec none change = spec
replaced spec (some old) change = record spec { mounts = add (change old) (remove old spec.mounts) }

-- The mount of a volume becomes a bind of its folder.
unfoldable pub migrate_mount : RunSpec → Text → Text → Text → RunSpec
migrate_mount spec vol path to =
    replaced spec (find_mount vol path spec.mounts) (λ old. record old { kind = bind; source = to })

unfoldable pub convert_mount : RunSpec → Conversion → RunSpec
convert_mount spec cv =
    replaced spec (find_mount cv.old cv.target spec.mounts) (λ old. record old { source = cv.new })

unfoldable pub convert_mounts : RunSpec → List Conversion → RunSpec
convert_mounts spec [] = spec
convert_mounts spec (cv ∷ cvs) = convert_mounts (convert_mount spec cv) cvs

unfoldable pub labeled_volumes : List Conversion → Map Text LabeledVolume
labeled_volumes cvs = extend [] (map (λ c. (c.new, mount c)) cvs)

abbrev name_or_empty : MountPoint → Text
name_or_empty m = get_or m.name []

abbrev folder : Text → Text → Text
folder name suffix = appdata ++ b'/' ∷ (name ++ b'/' ∷ suffix)

-- The variables of the loop over the volumes.
pub record Migrating : Type 0 where
  pub migrations : List Migration
  pub blockers : List Blocker
  pub intended : List Intended
  pub spec : RunSpec

unfoldable pub migrate_one : Snapshot → Text → Migrating → MountPoint → Text → Migrating
migrate_one s name w m suffix =
    let vol = name_or_empty m in
    let to = folder name suffix in
    let others = mounted_by_others vol name s.containers in
    let overlapping = names_in (binds_overlapping (components to) s.containers) in
    record {
      migrations = w.migrations ++ record { volume = vol; suffix = suffix; to = to } ∷ [];
      blockers =
          w.blockers
          ++ (map bad_volume (local_volume_problems vol (get s.volumes vol) m.source)
              ++ (problem_if (not (is_nil others)) (volume_shared vol others)
                  ++ problem_if (not (is_nil overlapping)) (bind_overlaps to overlapping)));
      intended = w.intended ++ moves_volume vol to ∷ [];
      spec = migrate_mount w.spec vol m.destination to;
    }

-- The loop, over the volumes and their suffixes.
unfoldable pub migrate_all : Snapshot → Text → Migrating → List MountPoint → List Text → Migrating
migrate_all s name w (m ∷ ms) (suffix ∷ suffixes) =
    migrate_all s name (migrate_one s name w m suffix) ms suffixes
migrate_all s name w _ _ = w

abbrev suffixes_of : Snapshot → List Text
suffixes_of s =
    let c = s.container in
    get_or (appdata_suffixes (short_name c) (compose_project c) (map name_or_empty (volumes c))) []

abbrev pub unmoved : RunSpec → Migrating
unmoved spec = record { migrations = []; blockers = []; intended = []; spec = spec }

unfoldable pub migrated : Snapshot → AdoptOpts → RunSpec → Migrating
unfolding appdata_suffixes compose_project
migrated s o spec =
    if o.migrate_volumes
    then migrate_all s (short_name s.container) (unmoved spec) (volumes s.container) (suffixes_of s)
    else (unmoved spec)

abbrev surroundings : Snapshot → List Migration → Surroundings
surroundings s ms = record {
  volumes = s.volumes;
  existing = s.conversion_targets;
  empty = s.empty_volumes;
  all_containers = s.containers;
  skip = map (λ m. m.volume) ms;
}

unfoldable pub conversions_of : Snapshot → List Migration → List Conversion × List ConversionProblem
conversions_of s ms = plan_conversions s.container (surroundings s ms)
