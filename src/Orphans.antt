-- ===== src/Orphans.antt =====
-- src/docker_adopt/orphans.rs: which leftovers an adopt may remove.
pub mod Compose
pub mod Suffixes
pub mod Apart
mod Tests
use unraid.Base.{ok, err, true, false, inl, inr}
use unraid.Base.{none}
use unraid.Order.{list_ord, nat_ord}
use unraid.Map.{get, Map}
use unraid.Text.{text_eq, Text}
use unraid.Inspect.{
  is_anonymous, problem_if, has_key, mounts_volume, volumes, MountPoint, VolumeInspect, short_name,
  ContainerInspect,
}
use unraid.Base.{◌++◌, some, ◌||◌, ◌∷◌, [], not, Option, keep, Bool, List, map, any}

abbrev joins_network : Text → ContainerInspect → Bool
joins_network network c =
    text_eq c.host_config.network_mode network || has_key c.network_settings.networks network

-- The containers on a network, in any state.
unfoldable pub network_users : Text → List ContainerInspect → List Text
network_users network containers = map short_name (keep (joins_network network) containers)

-- The candidates that no container mounts.
unfoldable pub unmounted : List Text → List ContainerInspect → List Text
unmounted candidates containers = keep (λ v. not (any (mounts_volume v) containers)) candidates

abbrev anonymous_name : Map Text VolumeInspect → Option Text → List Text
anonymous_name vols none = []
anonymous_name vols (some n) = elim (get vols n) [
  | none ↦ []
  | some v ↦ problem_if (is_anonymous v) n
]

-- The loop of `own_anonymous_volumes` over the volumes of the container.
unfoldable pub anonymous_names : Map Text VolumeInspect → List MountPoint → List Text
anonymous_names vols [] = []
anonymous_names vols (m ∷ ms) = anonymous_name vols m.name ++ anonymous_names vols ms

unfoldable pub own_anonymous_volumes : ContainerInspect → Map Text VolumeInspect → List Text
own_anonymous_volumes c vols = anonymous_names vols (volumes c)
