-- ===== src/Spec.antt =====
-- The comparable shape of a container, `RunSpec`, of src/docker_adopt/spec.rs.
pub mod Mounts
pub mod Parse
pub mod Diff
pub mod Agrees
pub mod Command
mod Tests
use unraid.Base.{
  true, get_or, ◌||◌, none, ◌++◌, some, false, arith, elem, ◌==◌, ◌∷◌, if◌then◌else◌, not, List,
  Option, ◌≡◌, [], Bool, ℕ,
}
use unraid.Text.{strip_prefix, trim_matches, text_eq, starts_with, is_empty, trim, Text, codes}
use unraid.Order.{Ord, keyed, nat_ord, list_ord}
use unraid.Map.{contains_key, Map, Set, get, remove, retain}

pub data MountKind : Type 0 where
  bind volume : MountKind

pub record MountSpec : Type 0 where
  pub kind : MountKind
  -- A host path for a bind, a volume's name for a volume.
  pub source : Text
  pub target : Text
  pub read_only : Bool
  -- The bind propagation when it is not docker's default.
  pub propagation : Option Text

-- The order that the source derives: by the fields in turn, `Bind` before `Volume`, `None` before
-- `Some`. Texts that compare alike stand for the fields.
kind_key : MountKind → Text
kind_key bind = 0 ∷ []
kind_key volume = 1 ∷ []

flag_key : Bool → Text
flag_key false = 0 ∷ []
flag_key true = 1 ∷ []

option_key : Option Text → Text
option_key none = []
option_key (some p) = 1 ∷ p

unfoldable pub mount_key : MountSpec → List Text
unfolding kind_key flag_key option_key
mount_key m =
    kind_key m.kind ∷ m.source ∷ m.target ∷ flag_key m.read_only ∷ option_key m.propagation ∷ []

kind_key-injective : (a b : MountKind) → kind_key a ≡ kind_key b → a ≡ b
unfolding kind_key
kind_key-injective a b h = ground arith

flag_key-injective : (a b : Bool) → flag_key a ≡ flag_key b → a ≡ b
unfolding flag_key
flag_key-injective a b h = ground arith

option_key-injective : (a b : Option Text) → option_key a ≡ option_key b → a ≡ b
unfolding option_key
option_key-injective a b h = ground arith

pub mount_key-injective : (m n : MountSpec) → mount_key m ≡ mount_key n → m ≡ n
unfolding mount_key
mount_key-injective m n h = ground (
  arith,
  kind_key-injective m.kind n.kind,
  flag_key-injective m.read_only n.read_only,
  option_key-injective m.propagation n.propagation,
)

instance abbrev pub mount_ord : Ord MountSpec
mount_ord = keyed mount_key mount_key-injective

pub record RunSpec : Type 0 where
  pub name : Text
  pub image : Text
  pub network : Text
  pub privileged : Bool
  pub hostname : Option Text
  pub hostname_is_default : Bool
  pub ports : Set Text
  pub env : Map Text Text
  pub tz : Text
  pub mounts : Set MountSpec
  pub tmpfs : Map Text Text
  pub log_driver : Text
  pub log_opts : Map Text Text
  pub gpus : Option Text
  pub restart : Option Text
  -- `None` is unlimited; a limit is positive.
  pub pids_limit : Option ℕ
  pub labels : Map Text Text
  pub cmd : List Text
  pub other : List Text

-- `RunSpec::default()`
abbrev pub default_spec : RunSpec
default_spec = record {
  name = [];
  image = [];
  network = [];
  privileged = false;
  hostname = none;
  hostname_is_default = false;
  ports = [];
  env = [];
  tz = [];
  mounts = [];
  tmpfs = [];
  log_driver = [];
  log_opts = [];
  gpus = none;
  restart = none;
  pids_limit = none;
  labels = [];
  cmd = [];
  other = [];
}

abbrev pub default_log_driver : Text
default_log_driver = codes "json-file"

abbrev pub unraid_pids_limit : ℕ
unraid_pids_limit = 2048

abbrev pub unraid_env : List Text
unraid_env = codes "HOST_OS" ∷ codes "HOST_HOSTNAME" ∷ codes "HOST_CONTAINERNAME" ∷ []

abbrev pub unraid_label_prefix : Text
unraid_label_prefix = codes "net.unraid.docker."

-- One round of the loop over the registry prefixes.
abbrev strip_or_keep : Text → Text → Text
strip_or_keep p s = get_or (strip_prefix p s) s

-- `s.rsplit('/').next()`: what follows the last slash.
after_last : ℕ → Text → Text → Text
after_last c cur [] = cur
after_last c cur (x ∷ t) = after_last c (if x == c then [] else cur ++ x ∷ []) t

unfoldable pub normalize_image : Text → Text
unfolding after_last
normalize_image image =
    let s = strip_or_keep (codes "library/") (
      strip_or_keep (codes "index.docker.io/") (strip_or_keep (codes "docker.io/") (trim image))) in
    if elem b'@' s || elem b':' (after_last b'/' [] s) then s else s ++ codes ":latest"

-- The loop over `UNRAID_ENV`.
remove_all : List Text → Map Text Text → Map Text Text
remove_all [] m = m
remove_all (k ∷ ks) m = remove_all ks (remove k m)

-- `if let Some(tz) = self.env.remove("TZ")`
abbrev take_tz : Map Text Text → Text → Text
take_tz env tz = get_or (get env (codes "TZ")) tz

unfoldable pub normalized : RunSpec → RunSpec
unfolding normalize_image remove_all
normalized s =
    let env = remove_all unraid_env s.env in
    record s {
      image = normalize_image s.image;
      env = remove (codes "TZ") env;
      tz = take_tz env s.tz;
      labels = retain (λ k v. not (starts_with unraid_label_prefix k)) s.labels;
      network = if text_eq s.network (codes "default") then codes "bridge" else s.network;
    }

-- `without_baked_env`
unfoldable pub without_baked_env : RunSpec → Set Text → RunSpec
without_baked_env s baked = record s {
  env = retain (λ k v. not (contains_key baked (k ++ b'=' ∷ v))) s.env;
}

unfoldable pub port_key : Text → Text → Text → Text
port_key host_ip host_port container_port =
    let cport =
      if elem b'/' container_port then container_port else container_port ++ codes "/tcp" in
    let ip = trim_matches (λ c. c == b'[' || c == b']') host_ip in
    if is_empty ip || text_eq ip (codes "0.0.0.0") || text_eq ip (codes "::")
    then host_port ++ b':' ∷ cport
    else if elem b':' ip
    then b'[' ∷ (ip ++ codes "]:" ++ host_port ++ b':' ∷ cport)
    else ip ++ b':' ∷ (host_port ++ b':' ∷ cport)

unfoldable pub non_default_propagation : Text → Option Text
non_default_propagation p = if is_empty p || text_eq p (codes "rprivate") then none else some p
