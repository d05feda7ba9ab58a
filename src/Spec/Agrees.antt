-- ===== src/Spec/Agrees.antt =====
-- When a rendered spec reproduces a live one: what the fidelity gate of src/docker_adopt has to
-- decide, said without the messages.
use unraid.Text.{Text}
use unraid.Map.{IsSorted}
use unraid.Base.{some, none, true, Bool, ◌⊎◌, ℕ, [], Option, ◌≡◌}
use unraid.Spec.{RunSpec, mount_ord, unraid_pids_limit}
use unraid.Spec.Diff.{DiffMode, set_icon}
use unraid.Order.{nat_ord, list_ord}

-- The maps and sets of a spec have each key once, in order.
pub record IsOrdered (s : RunSpec) : Type 0 where
  pub ports : IsSorted s.ports
  pub env : IsSorted s.env
  pub mounts : IsSorted s.mounts
  pub tmpfs : IsSorted s.tmpfs
  pub log_opts : IsSorted s.log_opts
  pub labels : IsSorted s.labels

-- The default hostname of docker may be lost, or be there on the rendered side alone.
abbrev pub HostnameAgrees : Option Text → Bool → Option Text → Bool → Type 0
HostnameAgrees a a_default b b_default =
    (a ≡ b) ⊎ ((a_default ≡ true) × (b ≡ none)) ⊎ ((b_default ≡ true) × (a ≡ none))

-- `set_icon` may drop a restart policy.
abbrev pub RestartAgrees : Option Text → Option Text → DiffMode → Type 0
RestartAgrees a b mode = (a ≡ b) ⊎ ((mode ≡ set_icon) × (b ≡ none))

-- dockerMan may limit a container that had no limit.
abbrev pub PidsLimitAgrees : Option ℕ → Option ℕ → Type 0
PidsLimitAgrees a b = (a ≡ b) ⊎ ((a ≡ none) × (b ≡ some unraid_pids_limit))

pub record Agrees (want got : RunSpec) (mode : DiffMode) : Type 0 where
  pub name : want.name ≡ got.name
  pub image : want.image ≡ got.image
  pub network : want.network ≡ got.network
  pub privileged : want.privileged ≡ got.privileged
  pub hostname :
      HostnameAgrees want.hostname want.hostname_is_default got.hostname got.hostname_is_default
  pub ports : want.ports ≡ got.ports
  pub env : want.env ≡ got.env
  pub tz : want.tz ≡ got.tz
  pub mounts : want.mounts ≡ got.mounts
  pub tmpfs : want.tmpfs ≡ got.tmpfs
  pub log_driver : want.log_driver ≡ got.log_driver
  pub log_opts : want.log_opts ≡ got.log_opts
  pub gpus : want.gpus ≡ got.gpus
  pub restart : RestartAgrees want.restart got.restart mode
  pub pids_limit : PidsLimitAgrees want.pids_limit got.pids_limit
  pub labels : want.labels ≡ got.labels
  pub cmd : want.cmd ≡ got.cmd
  pub other : got.other ≡ []
