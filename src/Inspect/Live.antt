-- ===== src/Inspect/Live.antt =====
-- src/docker_adopt/inspect.rs: `live_spec`, the live container as a `RunSpec`.
use unraid.Inspect.{
  or_empty, network_of, problem_if, PortBinding, NetworkEndpoint, MountPoint, ContainerInspect,
}
use unraid.Base.{
  ◌&&◌, length, ◌++◌, map, not, ltb, ◌∷◌, Option, get_or, [], List, if◌then◌else◌, none, some,
}
use unraid.Text.{Text, codes, text_eq, is_empty, starts_with, split_once}
use unraid.Text.Numbers.{ℤ}
use unraid.Order.{list_ord, nat_ord}
use unraid.Map.{insert, contains_key, add, Map, Set}
use unraid.Spec.{non_default_propagation, port_key, MountSpec, mount_ord, bind, volume}

-- What the template cannot express. A case keeps the values that the source formats.
pub data Unsupported : Type 0 where
  container_network : (network : Text) → Unsupported
  multiple_networks : (names : List Text) → Unsupported
  random_host_port : (container_port : Text) → Unsupported
  other_mount : (kind destination : Text) → Unsupported
  device_request : (driver : Text) (count : ℤ) (ids : List Text) → Unsupported
  entrypoint_override : Option (List Text) → Unsupported
  user_override working_dir_override : Text → Unsupported
  tty_or_stdin : Unsupported

abbrev names_of {ℓ} : {V : Type ℓ} → List (Text × V) → List Text
names_of [] = []
names_of ((n, _) ∷ m) = n ∷ names_of m

abbrev network_count : Option (Map Text NetworkEndpoint) → List Unsupported
network_count none = []
network_count (some nets) = problem_if (ltb 1 (length nets)) (multiple_networks (names_of nets))

unfoldable pub network_problems : ContainerInspect → List Unsupported
network_problems c =
    problem_if (starts_with (codes "container:") (network_of c)) (container_network (network_of c))
    ++ network_count c.network_settings.networks

-- The bindings, each with its container port.
abbrev bindings_of : Map Text (Option (List PortBinding)) → List (Text × PortBinding)
bindings_of [] = []
bindings_of ((cport, binds) ∷ m) = map (λ b. (cport, b)) (or_empty binds) ++ bindings_of m

abbrev pub bindings : ContainerInspect → List (Text × PortBinding)
bindings c = bindings_of (or_empty c.host_config.port_bindings)

-- The loop over the bindings, for its two results.
unfoldable pub published : List (Text × PortBinding) → Set Text → Set Text
published [] ports = ports
published ((cport, b) ∷ bs) ports =
    published bs
      (if is_empty b.host_port then ports else add (port_key b.host_ip b.host_port cport) ports)

unfoldable pub unpublished : List (Text × PortBinding) → List Unsupported
unpublished [] = []
unpublished ((cport, b) ∷ bs) =
    problem_if (is_empty b.host_port) (random_host_port cport) ++ unpublished bs

-- The variables of the loop over the environment.
pub record LiveEnv : Type 0 where
  pub env : Map Text Text
  pub tz : Text

abbrev pub key_value : Text → Text × Text
key_value kv = get_or (split_once b'=' kv) (kv, [])

abbrev pub env_entry : Set Text → LiveEnv → Text → LiveEnv
env_entry baked e kv =
    let (k, v) = key_value kv in
    if text_eq k (codes "TZ")
    then record e { tz = v }
    else if contains_key baked kv
    then e
    else record e { env = insert k v e.env }

unfoldable pub live_env : Set Text → LiveEnv → List Text → LiveEnv
live_env baked e [] = e
live_env baked e (kv ∷ kvs) = live_env baked (env_entry baked e kv) kvs

abbrev pub no_env : LiveEnv
no_env = record { env = []; tz = [] }

abbrev pub live_mount : MountPoint → Set MountSpec → Set MountSpec
live_mount m mounts =
    if text_eq m.kind (codes "volume")
    then add
        (record {
          kind = volume;
          source = get_or m.name [];
          target = m.destination;
          read_only = not m.is_rw;
          propagation = none;
        })
        mounts
    else if text_eq m.kind (codes "bind")
    then add
        (record {
          kind = bind;
          source = m.source;
          target = m.destination;
          read_only = not m.is_rw;
          propagation = non_default_propagation m.propagation;
        })
        mounts
    else mounts

-- The loop over the mounts, for its two results.
unfoldable pub live_mounts : List MountPoint → Set MountSpec → Set MountSpec
live_mounts [] mounts = mounts
live_mounts (m ∷ ms) mounts = live_mounts ms (live_mount m mounts)

unfoldable pub other_mounts : List MountPoint → List Unsupported
other_mounts [] = []
other_mounts (m ∷ ms) =
    problem_if (not (text_eq m.kind (codes "volume")) && not (text_eq m.kind (codes "bind")))
      (other_mount m.kind m.destination)
    ++ other_mounts ms
