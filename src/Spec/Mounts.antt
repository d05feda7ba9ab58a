-- ===== src/Spec/Mounts.antt =====
-- Parsing the ports, volumes and mounts of a `docker create` command, of
-- src/docker_adopt/spec.rs.
use Prim.Native.String.{String}
use unraid.Base.{◌||◌, get_or, keep, not, ok_or, if◌then◌else◌, true, ◌>>=◌, err, some, ok, Result}
use unraid.Text.{split_once_text, split, split_once, contains}
use unraid.Labels.{is_ownership_key}
use unraid.Shell.{ShellError}
use unraid.Order.{nat_ord, list_ord}
use unraid.Spec.{
  is_empty, starts_with, strip_prefix, text_eq, ◌∷◌, false, codes, [], Option, List, none, Bool,
  Text, ℕ, MountSpec, MountKind, bind, volume, port_key, non_default_propagation, mount_ord,
}

pub data SpecError : Type 0 where
  shell : ShellError → SpecError
  no_subcommand : SpecError
  no_value : Text → SpecError
  unsupported_publish : Text → SpecError
  unsupported_volume : Text → SpecError
  unsupported_volume_option : Text → SpecError
  unsupported_mount_type : Text → SpecError
  unsupported_mount_label : Text → SpecError
  unsupported_mount_option : Text → SpecError
  bad_pids_limit : Text → SpecError
  no_image : SpecError

abbrev pub is : Text → String → Bool
is t s = text_eq t (codes s)

abbrev is_one_of : Text → List Text → Bool
is_one_of t ts = contains ts t

-- `split_once(c).unwrap_or((v, ""))`
abbrev pub pair_at : ℕ → Text → Text × Text
pair_at c v = elim (split_once c v) [ none ↦ (v, []) | some p ↦ p ]

publish_parts : Text → List Text → Result SpecError Text
publish_parts v (hport ∷ cport ∷ []) = ok (port_key [] hport cport)
publish_parts v (ip ∷ hport ∷ cport ∷ []) = ok (port_key ip hport cport)
publish_parts v _ = err (unsupported_publish v)

-- The arm for a bracketed host address.
publish_bracketed : Text → Text → Result SpecError Text
publish_bracketed v rest = do
  (ip, ports) ← ok_or (split_once_text (codes "]:") rest) (unsupported_publish v)
  (hport, cport) ← ok_or (split_once b':' ports) (unsupported_publish v)
  ok (port_key ip hport cport)

unfoldable pub parse_publish : Text → Result SpecError Text
unfolding publish_parts publish_bracketed
parse_publish v = elim (strip_prefix (b'[' ∷ []) v) [
  | some rest ↦ publish_bracketed v rest
  | none ↦ publish_parts v (split b':' v)
]

abbrev propagations : List Text
propagations =
    codes "rprivate"
    ∷ codes "private"
    ∷ codes "rslave"
    ∷ codes "slave"
    ∷ codes "rshared"
    ∷ codes "shared"
    ∷ []

-- One round of the loop over the options of a volume.
volume_option : Bool × Option Text → Text → Result SpecError (Bool × Option Text)
volume_option (ro, prop) o =
    if is o "ro"
    then ok (true, prop)
    else if is o "rw" || is o "z" || is o "Z"
    then ok (ro, prop)
    else if is_one_of o propagations
    then ok (ro, non_default_propagation o)
    else err (unsupported_volume_option o)

volume_options : Bool × Option Text → List Text → Result SpecError (Bool × Option Text)
unfolding volume_option
volume_options s [] = ok s
volume_options s (o ∷ os) = do s' ← volume_option s o; volume_options s' os

volume_parts : Text → List Text → Result SpecError (Text × Text × Text)
volume_parts v (src ∷ dst ∷ []) = ok (src, dst, [])
volume_parts v (src ∷ dst ∷ opts ∷ []) = ok (src, dst, opts)
volume_parts v _ = err (unsupported_volume v)

-- A volume has no propagation.
abbrev mount_of : MountKind → Text → Text → Bool → Option Text → MountSpec
mount_of bind src dst ro prop = record {
  kind = bind;
  source = src;
  target = dst;
  read_only = ro;
  propagation = prop;
}
mount_of volume src dst ro prop = record {
  kind = volume;
  source = src;
  target = dst;
  read_only = ro;
  propagation = none;
}

unfoldable pub parse_volume : Text → Result SpecError MountSpec
unfolding volume_options volume_parts
parse_volume v = do
  (src, dst, opts) ← volume_parts v (split b':' v)
  (ro, prop) ← volume_options (false, none) (keep (λ o. not (is_empty o)) (split b',' opts))
  ok (mount_of (if starts_with (b'/' ∷ []) src then bind else volume) src dst ro prop)

-- What the loop of `parse_mount` has read.
pub record Fields : Type 0 where
  pub kind : Option MountKind
  pub source : Text
  pub target : Text
  pub read_only : Bool
  pub propagation : Option Text

mount_type : Fields → Text → Result SpecError Fields
mount_type f val =
    if is val "bind"
    then ok (record f { kind = some bind })
    else if is val "volume"
    then ok (record f { kind = some volume })
    else err (unsupported_mount_type val)

mount_label : Fields → Text → Result SpecError Fields
mount_label f val =
    let key = (pair_at b'=' val).0 in
    if is_ownership_key key then ok f else err (unsupported_mount_label key)

-- One round of the loop over the fields of a mount.
unfoldable pub mount_field : Fields → Text → Text → Result SpecError Fields
unfolding mount_type mount_label
mount_field f k val =
    if is k "type"
    then mount_type f val
    else if is k "src" || is k "source"
    then ok (record f { source = val })
    else if is k "dst" || is k "destination" || is k "target"
    then ok (record f { target = val })
    else if is k "readonly" || is k "ro"
    then ok (record f { read_only = is_empty val || is val "true" || is val "1" })
    else if is k "bind-propagation"
    then ok (record f { propagation = non_default_propagation val })
    else if is k "volume-label"
    then mount_label f val
    else if is k "volume-nocopy"
    then ok f
    else err (unsupported_mount_option k)

unfoldable pub mount_fields : Fields → List Text → Result SpecError Fields
mount_fields f [] = ok f
mount_fields f (field ∷ fs) = do
  let (k, val) = pair_at b'=' field
  f' ← mount_field f k val
  mount_fields f' fs

abbrev pub no_fields : Fields
no_fields = record { kind = none; source = []; target = []; read_only = false; propagation = none }

unfoldable pub parse_mount : Text → Result SpecError MountSpec
parse_mount v = do
  f ← mount_fields no_fields (split b',' v)
  ok (mount_of (get_or f.kind volume) f.source f.target f.read_only f.propagation)
