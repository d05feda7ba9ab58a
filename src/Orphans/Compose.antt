-- ===== src/Orphans/Compose.antt =====
-- src/docker_adopt/orphans.rs: what a container leaves of its compose project.
use unraid.Paths.{root_dir}
use unraid.Orphans.{network_users}
use unraid.Map.{add_all, Set, names_in}
use unraid.Paths.{FilePath, is_prefix, path_eq, file_name, parent, normal, components}
use unraid.Inspect.{
  compose_project_label, label, network_of, short_name, compose_project, MountPoint,
  ContainerInspect,
}
use unraid.Text.{trim_matches, text_eq, is_empty, trim, codes, strip_prefix, contains, Text, lines}
use unraid.Base.{
  ◌==◌, option_eq, is_nil, ◌&&◌, ◌||◌, keep, any, not, if◌then◌else◌, Bool, ◌++◌, map, List, Option,
  some, false, [], ◌∷◌,
}
use unraid.Order.{list_ord, nat_ord}
use unraid.Base.{none}

abbrev is_mount_root : Text → Bool
is_mount_root pool =
    contains
      (codes "user" ∷ codes "disks" ∷ codes "remotes" ∷ codes "addons" ∷ codes "rootshare" ∷ [])
      pool

-- The path of the same share under `/mnt/user`.
unfoldable pub share_alias : FilePath → FilePath
unfolding contains
share_alias (root_dir ∷ normal mnt ∷ normal pool ∷ a ∷ rest) =
    if not (text_eq mnt (codes "mnt")) || is_mount_root pool
    then root_dir ∷ normal mnt ∷ normal pool ∷ a ∷ rest
    else root_dir ∷ normal (codes "mnt") ∷ normal (codes "user") ∷ a ∷ rest
share_alias p = p

abbrev alias_of : MountPoint → FilePath
alias_of m = share_alias (components m.source)

abbrev all_mounts : List ContainerInspect → List MountPoint
all_mounts [] = []
all_mounts (c ∷ cs) = c.mounts ++ all_mounts cs

abbrev is_bind : MountPoint → Bool
is_bind m = text_eq m.kind (codes "bind")

abbrev sources : List MountPoint → Set Text
sources ms = add_all [] (map (λ m. m.source) ms)

unfoldable pub binds_under : FilePath → List ContainerInspect → Set Text
binds_under dir containers =
    sources
      (keep (λ m. is_bind m && is_prefix (share_alias dir) (alias_of m)) (all_mounts containers))

unfoldable pub binds_overlapping : FilePath → List ContainerInspect → Set Text
binds_overlapping path containers = sources (
    keep
      (λ m.
        is_bind m
        && (is_prefix (share_alias path) (alias_of m) || is_prefix (alias_of m) (share_alias path)))
      (all_mounts containers))

-- Why a container cannot leave its network: who else is on it.
pub record NetworkBlocker : Type 0 where
  pub network : Text
  pub others : List Text

-- Why the directory of the stack is kept.
pub data KeepReason : Type 0 where
  no_working_dir no_parent not_under_root : KeepReason
  no_compose_file : (project : Text) → KeepReason
  has_siblings : (project : Text) (siblings : List Text) → KeepReason
  is_mounted : (binds : List Text) → KeepReason
  root_problem : Text → KeepReason

pub record ComposeLeftovers : Type 0 where
  pub project : Text
  pub network : Option Text
  pub network_blocker : Option NetworkBlocker
  pub retire : Option (FilePath × FilePath)
  pub keep_reason : Option KeepReason

abbrev compose_working_dir : Text
compose_working_dir = codes "com.docker.compose.project.working_dir"

abbrev names_project : Text → Text → Bool
names_project project l = elim (strip_prefix (codes "name:") l) [
  | none ↦ false
  | some v ↦ text_eq (trim_matches (λ c. c == b'"' || c == b'\'') (trim v)) project
]

unfoldable pub compose_matches : FilePath → Text → Text → Bool
unfolding lines strip_prefix trim trim_matches
compose_matches dir project compose =
    option_eq text_eq (file_name dir) (some project) || any (names_project project) (lines compose)

abbrev retired : Text → Text → Option FilePath → Option Text → Option FilePath
retired name date (some root) (some stacks_name) = some (
    root
    ++ (normal (stacks_name ++ codes "-retired")
        ∷ normal (name ++ (codes "-compose-" ++ date))
        ∷ []))
retired name date _ _ = none

unfoldable pub retire_target : FilePath → Text → Text → Option FilePath
retire_target dir name date = elim (parent dir) [
  | none ↦ none
  | some stacks ↦ retired name date (parent stacks) (file_name stacks)
]

abbrev is_under : List FilePath → Option FilePath → Bool
is_under roots none = false
is_under roots (some p) = any (λ r. path_eq r p) roots

abbrev matches_file : FilePath → Text → Option Text → Bool
matches_file dir project none = false
matches_file dir project (some f) = compose_matches dir project f

unfoldable pub siblings_of : Text → Text → List ContainerInspect → List Text
siblings_of name project containers = map short_name (
    keep
      (λ o.
        not (text_eq (short_name o) name)
        && option_eq text_eq (label o compose_project_label) (some project))
      containers)

abbrev to_target : FilePath → Option FilePath → Option (FilePath × FilePath) × Option KeepReason
to_target dir none = (none, some no_parent)
to_target dir (some to) = (some (dir, to), none)

-- `retire` and `keep_reason`, for the working directory of the stack.
unfoldable pub retire_dir :
    Text
    → Text
    → List ContainerInspect
    → Text
    → List FilePath
    → Option Text
    → FilePath
    → Option (FilePath × FilePath) × Option KeepReason
retire_dir name project containers date roots compose_file dir =
    let siblings = siblings_of name project containers in
    let mounted = names_in (binds_under dir containers) in
    if not (is_under roots (parent dir))
    then (none, some not_under_root)
    else if not (matches_file dir project compose_file)
    then (none, some (no_compose_file project))
    else if not (is_nil siblings)
    then (none, some (has_siblings project siblings))
    else if not (is_nil mounted)
    then (none, some (is_mounted mounted))
    else to_target dir (retire_target dir name date)

abbrev retire_label :
    Text
    → Text
    → List ContainerInspect
    → Text
    → List FilePath
    → Option Text
    → Option Text
    → Option (FilePath × FilePath) × Option KeepReason
retire_label name project containers date roots compose_file none = (none, some no_working_dir)
retire_label name project containers date roots compose_file (some dir) =
    if is_empty dir
    then (none, some no_working_dir)
    else retire_dir name project containers date roots compose_file (components dir)

abbrev shared_with : Text → List Text → Option NetworkBlocker
shared_with network [] = none
shared_with network (o ∷ os) = some (record { network = network; others = o ∷ os })

abbrev default_network : Text → Text
default_network project = project ++ codes "_default"

unfoldable pub leftovers_of :
    ContainerInspect
    → List ContainerInspect
    → Text
    → List FilePath
    → Option Text
    → Text
    → ComposeLeftovers
leftovers_of c containers date roots compose_file project =
    let name = short_name c in
    let net = default_network project in
    let on_default = text_eq (network_of c) net in
    let others = keep (λ n. not (text_eq n name)) (network_users net containers) in
    let (retire, why) =
      retire_label name project containers date roots compose_file (label c compose_working_dir) in
    record {
      project = project;
      network = if on_default then some net else none;
      network_blocker = if on_default then shared_with net others else none;
      retire = retire;
      keep_reason = why;
    }

unfoldable pub compose_leftovers :
    ContainerInspect
    → List ContainerInspect
    → Text
    → List FilePath
    → Option Text
    → Option ComposeLeftovers
compose_leftovers c containers date roots compose_file = elim (compose_project c) [
  | none ↦ none
  | some project ↦ some (leftovers_of c containers date roots compose_file project)
]
