-- ===== src/Inspect.antt =====
-- src/docker_adopt/inspect.rs: what docker says of containers, images and volumes, and a live
-- container as a `RunSpec`.
pub mod Live
pub mod Translated
pub mod Ordered
pub mod Samples
mod Tests
use unraid.Base.{
  not, map, [], ◌∷◌, ◌==◌, ◌||◌, option_eq, keep, any, ◌++◌, if◌then◌else◌, List, Bool, Option,
  none, some, true, false,
}
use unraid.Text.{trim_start_matches, Text, codes, contains, text_eq, is_empty, starts_with}
use unraid.Text.Numbers.{ℤ, pos, negsuc, decimal}
use unraid.Order.{list_ord, nat_ord}
use unraid.Map.{add_all, contains_key, get, Map, Set}

pub record ContainerConfig : Type 0 where
  pub hostname : Text
  pub user : Text
  pub working_dir : Text
  pub env : Option (List Text)
  pub cmd : Option (List Text)
  pub entrypoint : Option (List Text)
  pub image : Text
  pub labels : Option (Map Text Text)
  pub tty : Bool
  pub open_stdin : Bool

pub record PortBinding : Type 0 where
  pub host_ip : Text
  pub host_port : Text

pub record RestartPolicy : Type 0 where
  pub name : Text
  pub maximum_retry_count : ℤ

pub record LogConfig : Type 0 where
  pub kind : Text
  pub config : Option (Map Text Text)

pub record DeviceRequest : Type 0 where
  pub driver : Text
  pub count : ℤ
  pub device_ids : Option (List Text)
  pub capabilities : Option (List (List Text))

pub record HostConfig : Type 0 where
  pub network_mode : Text
  pub privileged : Bool
  pub port_bindings : Option (Map Text (Option (List PortBinding)))
  pub restart_policy : RestartPolicy
  pub log_config : LogConfig
  pub tmpfs : Option (Map Text Text)
  pub device_requests : Option (List DeviceRequest)
  pub pids_limit : Option ℤ

-- `is_rw` is the field `rw`.
pub record MountPoint : Type 0 where
  pub kind : Text
  pub name : Option Text
  pub source : Text
  pub destination : Text
  pub is_rw : Bool
  pub propagation : Text

pub record ContainerState : Type 0 where
  pub status : Text
  pub running : Bool
  pub started_at : Text
  pub finished_at : Text

pub record NetworkEndpoint : Type 0 where
  pub aliases : Option (List Text)

pub record NetworkSettings : Type 0 where
  pub networks : Option (Map Text NetworkEndpoint)

pub record ContainerInspect : Type 0 where
  pub id : Text
  pub name : Text
  pub image : Text
  pub config : ContainerConfig
  pub host_config : HostConfig
  pub mounts : List MountPoint
  pub state : ContainerState
  pub network_settings : NetworkSettings

pub record ImageConfig : Type 0 where
  pub env : Option (List Text)
  pub cmd : Option (List Text)
  pub entrypoint : Option (List Text)
  pub user : Text
  pub working_dir : Text
  pub labels : Option (Map Text Text)

pub record ImageInspect : Type 0 where
  pub id : Text
  pub repo_tags : Option (List Text)
  pub config : ImageConfig

pub record VolumeInspect : Type 0 where
  pub name : Text
  pub driver : Text
  pub mountpoint : Text
  pub labels : Option (Map Text Text)
  pub options : Option (Map Text Text)
  pub created_at : Text

abbrev pub compose_project_label : Text
compose_project_label = codes "com.docker.compose.project"

abbrev pub managed_label : Text
managed_label = codes "net.unraid.docker.managed"

abbrev pub icon_label : Text
icon_label = codes "net.unraid.docker.icon"

abbrev pub anonymous_volume_label : Text
anonymous_volume_label = codes "com.docker.volume.anonymous"

abbrev pub volumes_root : Text
volumes_root = codes "/var/lib/docker/volumes"

-- `iter().flatten()` of an optional collection.
abbrev pub or_empty {ℓ} : {A : Type ℓ} → Option (List A) → List A
or_empty none = []
or_empty (some xs) = xs

unfoldable pub short_name : ContainerInspect → Text
short_name c = trim_start_matches (λ x. x == b'/') c.name

abbrev pub get_in : Option (Map Text Text) → Text → Option Text
get_in none key = none
get_in (some m) key = get m key

unfoldable pub label : ContainerInspect → Text → Option Text
label c key = get_in c.config.labels key

abbrev non_empty : Option Text → Option Text
non_empty none = none
non_empty (some t) = if is_empty t then none else some t

unfoldable pub compose_project : ContainerInspect → Option Text
unfolding label
compose_project c = non_empty (label c compose_project_label)

-- `ContainerInspect::network`
unfoldable pub network_of : ContainerInspect → Text
network_of c =
    let mode = c.host_config.network_mode in
    if is_empty mode || text_eq mode (codes "default") then codes "bridge" else mode

-- `ContainerInspect::volumes`
unfoldable pub volumes : ContainerInspect → List MountPoint
volumes c = keep (λ m. text_eq m.kind (codes "volume")) c.mounts

abbrev pub has_key : {V : Type 0} → Option (Map Text V) → Text → Bool
has_key none key = false
has_key (some m) key = contains_key m key

unfoldable pub is_anonymous : VolumeInspect → Bool
is_anonymous v = has_key v.labels anonymous_volume_label

unfoldable pub expected_mountpoint : Text → Text
expected_mountpoint name = volumes_root ++ b'/' ∷ (name ++ codes "/_data")

-- `VolumeInspect::labels`
abbrev pub labels_of : VolumeInspect → Map Text Text
labels_of v = or_empty v.labels

-- Why a volume is not a plain local one.
pub data VolumeProblem : Type 0 where
  not_inspected : (volume : Text) → VolumeProblem
  not_local : (volume driver : Text) → VolumeProblem
  data_elsewhere : (volume mountpoint : Text) → VolumeProblem

abbrev pub problem_if {ℓ} : {A : Type ℓ} → Bool → A → List A
problem_if test p = if test then p ∷ [] else []

abbrev is_empty_map : Option (Map Text Text) → Bool
is_empty_map none = true
is_empty_map (some []) = true
is_empty_map (some (_ ∷ _)) = false

unfoldable pub local_volume_problems : Text → Option VolumeInspect → Text → List VolumeProblem
local_volume_problems volume none source = not_inspected volume ∷ []
local_volume_problems volume (some v) source =
    problem_if (not (text_eq v.driver (codes "local")) || not (is_empty_map v.options))
      (not_local volume v.driver)
    ++ problem_if
        (not (text_eq v.mountpoint (expected_mountpoint volume))
          || not (text_eq source v.mountpoint))
        (data_elsewhere volume v.mountpoint)

abbrev pub is_named : Text → MountPoint → Bool
is_named volume m = option_eq text_eq m.name (some volume)

-- Whether a container mounts a volume.
abbrev pub mounts_volume : Text → ContainerInspect → Bool
mounts_volume volume c = any (is_named volume) (volumes c)

unfoldable pub mounted_by_others : Text → Text → List ContainerInspect → List Text
mounted_by_others volume name all =
    map short_name (keep (mounts_volume volume) (keep (λ o. not (text_eq (short_name o) name)) all))

unfoldable pub baked_env : ImageInspect → Set Text
baked_env img = add_all [] (or_empty img.config.env)
