-- ===== src/Template.antt =====
-- src/docker_adopt/template.rs: a dockerMan template made from a spec.
pub mod Xml
pub mod Render
pub mod RoundTrip
mod Tests
use unraid.Spec.{bind, volume}
use unraid.Text.Numbers.{decimal}
use unraid.Shell.{shell_quote}
use unraid.Ownership.{volume_mount_arg, LabeledVolume}
use unraid.Map.{get, Set, Map}
use unraid.Spec.{default_log_driver, unraid_pids_limit, MountKind, MountSpec, RunSpec}
use unraid.Text.{is_empty, text_eq, split_once, join, codes, split, Text}
use unraid.Base.{
  ◌==◌, if◌then◌else◌, ◌++◌, Bool, List, ℕ, get_or, Option, map, some, ok, err, true, false, [],
  ◌∷◌, inl, inr,
}
use unraid.Order.{list_ord, nat_ord}
use unraid.Base.{none}

pub data ConfigKind : Type 0 where
  port path variable : ConfigKind

pub record TemplateConfig : Type 0 where
  pub kind : ConfigKind
  pub name : Text
  pub target : Text
  pub mode : Text
  pub value : Text

pub record Template : Type 0 where
  pub name : Text
  pub repository : Text
  pub network : Text
  pub privileged : Bool
  pub icon : Text
  pub extra_params : Text
  pub post_args : Text
  pub configs : List TemplateConfig

abbrev quoted : Text → Text → Text
quoted flag value = flag ++ b' ' ∷ shell_quote value

abbrev pub container_port : Text → Text × Text
container_port cport = get_or (split_once b'/' cport) (cport, codes "tcp")

abbrev port_config : Text → Text → TemplateConfig
port_config host cport =
    let (target, proto) = container_port cport in
    record {
      kind = port;
      name = codes "Port " ++ (target ++ b'/' ∷ proto);
      target = target;
      mode = proto;
      value = host;
    }

-- A port without a host address is a config, any other is a flag.
abbrev port_parts : Text → List Text → List TemplateConfig × List Text
port_parts p (host ∷ cport ∷ []) = (port_config host cport ∷ [], [])
port_parts p _ = ([], quoted (codes "-p") p ∷ [])

-- The loop over the ports, for its two results.
unfoldable pub port_configs : Set Text → List TemplateConfig
unfolding split
port_configs [] = []
port_configs ((p, _) ∷ ports) = (port_parts p (split b':' p)).0 ++ port_configs ports

unfoldable pub port_flags : Set Text → List Text
unfolding split
port_flags [] = []
port_flags ((p, _) ∷ ports) = (port_parts p (split b':' p)).1 ++ port_flags ports

abbrev path_config : MountSpec → TemplateConfig
path_config m = record {
  kind = path;
  name = codes "Path " ++ m.target;
  target = m.target;
  mode = if m.read_only then codes "ro" else codes "rw";
  value = m.source;
}

abbrev bind_arg : MountSpec → Text → Text
bind_arg m propagation =
    codes "type=bind,src="
    ++ (m.source
        ++ (codes ",dst="
            ++ (m.target
                ++ ((if m.read_only then codes ",readonly" else [])
                    ++ (codes ",bind-propagation=" ++ propagation)))))

abbrev labeled_parts : MountSpec → Option LabeledVolume → List TemplateConfig × List Text
labeled_parts m none = (path_config m ∷ [], [])
labeled_parts m (some l) =
    ([], quoted (codes "--mount") (volume_mount_arg m.source m.target m.read_only l) ∷ [])

-- A bind with a propagation and a volume with labels are flags, any other mount is a config.
unfoldable pub mount_parts :
    Map Text LabeledVolume → MountSpec → MountKind → Option Text → List TemplateConfig × List Text
mount_parts labeled m bind (some p) = ([], quoted (codes "--mount") (bind_arg m p) ∷ [])
mount_parts labeled m bind none = (path_config m ∷ [], [])
mount_parts labeled m volume p = labeled_parts m (get labeled m.source)

-- The loop over the mounts, for its two results.
unfoldable pub mount_configs : Map Text LabeledVolume → Set MountSpec → List TemplateConfig
mount_configs labeled [] = []
mount_configs labeled ((m, _) ∷ ms) =
    (mount_parts labeled m m.kind m.propagation).0 ++ mount_configs labeled ms

unfoldable pub mount_params : Map Text LabeledVolume → Set MountSpec → List Text
mount_params labeled [] = []
mount_params labeled ((m, _) ∷ ms) =
    (mount_parts labeled m m.kind m.propagation).1 ++ mount_params labeled ms

abbrev variable_config : Text → Text → TemplateConfig
variable_config k v = record { kind = variable; name = k; target = k; mode = []; value = v }

unfoldable pub env_configs : Map Text Text → List TemplateConfig
env_configs [] = []
env_configs ((k, v) ∷ env) = variable_config k v ∷ env_configs env

abbrev option_param : Text → Option Text → List Text
option_param flag none = []
option_param flag (some v) = quoted flag v ∷ []

unfoldable pub tmpfs_params : Map Text Text → List Text
tmpfs_params [] = []
tmpfs_params ((p, o) ∷ m) =
    quoted (codes "--tmpfs") (if is_empty o then p else p ++ b':' ∷ o) ∷ tmpfs_params m

-- The loops over the log options and over the labels.
unfoldable pub pair_params : Text → Map Text Text → List Text
pair_params flag [] = []
pair_params flag ((k, v) ∷ m) = quoted flag (k ++ b'=' ∷ v) ∷ pair_params flag m

abbrev limit_param : Option ℕ → List Text
limit_param none = []
limit_param (some n) =
    if n == unraid_pids_limit then [] else (codes "--pids-limit " ++ decimal n) ∷ []

-- `extra`, from the hostname on.
unfoldable pub plain_params : RunSpec → List Text
plain_params spec =
    option_param (codes "--hostname") spec.hostname
    ++ (tmpfs_params spec.tmpfs
        ++ ((if text_eq spec.log_driver default_log_driver
              then []
              else quoted (codes "--log-driver") spec.log_driver ∷ [])
            ++ (pair_params (codes "--log-opt") spec.log_opts
                ++ (option_param (codes "--gpus") spec.gpus
                    ++ (option_param (codes "--restart") spec.restart
                        ++ (limit_param spec.pids_limit
                            ++ pair_params (codes "--label") spec.labels))))))

-- `Template::from_spec`
unfoldable pub from_spec : RunSpec → Text → Map Text LabeledVolume → Template
from_spec spec icon labeled = record {
  name = spec.name;
  repository = spec.image;
  network = spec.network;
  privileged = spec.privileged;
  icon = icon;
  extra_params =
      join (codes " ")
        (port_flags spec.ports ++ (mount_params labeled spec.mounts ++ plain_params spec));
  post_args = join (codes " ") (map shell_quote spec.cmd);
  configs =
      port_configs spec.ports
      ++ (mount_configs labeled spec.mounts
          ++ ((if is_empty spec.tz then [] else variable_config (codes "TZ") spec.tz ∷ [])
              ++ env_configs spec.env));
}
