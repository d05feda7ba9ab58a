-- ===== src/Privileged.antt =====
-- src/docker_adopt/privileged.rs: who may have root run which operation.
pub mod Found
pub mod Authorized
pub mod CopyInto
pub mod RunId
pub mod Checked
pub mod Templates
mod Tests
use unraid.Adopt.{
  priv_refresh_icons, priv_read_vm_xml, priv_set_vm_autostart, priv_set_smb_share,
  priv_set_share_cache,
}
use unraid.Text.Numbers.{parse_unsigned}
use unraid.Text.{split, codes, Text, lines, trim, text_eq}
use unraid.Base.{
  ◌||◌, guard, ◌==◌, ◌&&◌, any, if◌then◌else◌, Result, Bool, List, ℕ, Option, ok, err, true, false,
  [], ◌∷◌, inl, inr,
}
use unraid.Order.{list_ord, nat_ord}
use unraid.Adopt.{
  priv_read_vm_xml, priv_set_vm_autostart, priv_retire_stack, priv_volume_empty,
  priv_manifest_volume, priv_copy_into_volume, priv_expose_copy, priv_remove_copy, priv_copy_volume,
  priv_clear_icon_cache, priv_rebuild, priv_set_autostart, priv_restore_template, priv_save_inspect,
  priv_write_template, PrivilegedOp, ping,
}
use unraid.Base.{none, some}

abbrev pub docker_group : Text
docker_group = codes "docker"

pub data CallerPolicy : Type 0 where
  root root_or_docker_group : CallerPolicy

unfoldable pub policy : PrivilegedOp → CallerPolicy
policy ping = root_or_docker_group
policy (priv_write_template _ _ _) = root_or_docker_group
policy (priv_save_inspect _ _ _) = root_or_docker_group
policy (priv_restore_template _ _) = root_or_docker_group
policy (priv_set_autostart _ _) = root_or_docker_group
policy (priv_rebuild _) = root_or_docker_group
policy (priv_clear_icon_cache _) = root_or_docker_group
policy priv_refresh_icons = root_or_docker_group
policy (priv_copy_volume _ _ _ _) = root_or_docker_group
policy (priv_remove_copy _ _ _) = root_or_docker_group
policy (priv_expose_copy _ _ _) = root_or_docker_group
policy (priv_copy_into_volume _ _ _) = root_or_docker_group
policy (priv_manifest_volume _ _) = root_or_docker_group
policy (priv_volume_empty _) = root_or_docker_group
policy (priv_retire_stack _ _ _ _ _) = root_or_docker_group
policy (priv_set_vm_autostart _ _) = root
policy (priv_read_vm_xml _) = root
policy (priv_set_smb_share _ _ _ _) = root
policy (priv_set_share_cache _ _ _ _) = root

-- `iter().find_map(f)`
unfoldable pub find_map {ℓ κ} : {A : Type ℓ} {B : Type κ} → (A → Option B) → List A → Option B
find_map f [] = none
find_map f (x ∷ xs) = elim (f x) [ none ↦ find_map f xs | some b ↦ some b ]

-- `a == Ok(n)` of a number that is parsed.
unfoldable pub is_number : Option ℕ → ℕ → Bool
is_number none n = false
is_number (some m) n = m == n

-- The name and the primary group that the fields of a line of passwd give to `uid`.
unfoldable pub account_of : ℕ → List Text → Option (Text × Option ℕ)
unfolding parse_unsigned is_number
account_of uid (user ∷ _ ∷ id ∷ gid ∷ _) =
    if is_number (parse_unsigned 32 id) uid then some (user, parse_unsigned 32 gid) else none
account_of uid _ = none

unfoldable pub same_group : Option ℕ → Option ℕ → Bool
same_group (some a) (some b) = a == b
same_group _ _ = false

-- Whether the fields of a line of group let the account in.
unfoldable pub lets_in : Text × Option ℕ → List Text → Bool
unfolding text_eq same_group parse_unsigned split trim
lets_in (user, gid) (name ∷ _ ∷ id ∷ members ∷ _) =
    text_eq name docker_group
    && (same_group gid (parse_unsigned 32 id)
        || any (λ m. text_eq (trim m) user) (split b',' members))
lets_in account _ = false

abbrev pub is_let_in : Option (Text × Option ℕ) → List Text → Bool
is_let_in none group = false
is_let_in (some account) group = any (λ l. lets_in account (split b':' l)) group

unfoldable pub may_start_containers : ℕ → Text → Text → Bool
unfolding find_map account_of lets_in lines split
may_start_containers uid passwd group =
    uid == 0
    || is_let_in (find_map (λ l. account_of uid (split b':' l)) (lines passwd)) (lines group)

abbrev pub is_allowed : CallerPolicy → ℕ → Text → Text → Bool
is_allowed root uid passwd group = uid == 0
is_allowed root_or_docker_group uid passwd group = may_start_containers uid passwd group

-- The error names the caller and the policy.
pub data AuthorizeError : Type 0 where
  may_not_run : (uid : ℕ) (required : CallerPolicy) → AuthorizeError

unfoldable pub authorize : PrivilegedOp → ℕ → Text → Text → Result AuthorizeError (Unit {0})
unfolding policy may_start_containers
authorize op uid passwd group =
    guard (is_allowed (policy op) uid passwd group) (may_not_run uid (policy op))

-- The caller that orca names in the environment; unknown if it is absent or is not a number.
unfoldable pub caller_uid : Option Text → Option ℕ
unfolding trim parse_unsigned
caller_uid none = none
caller_uid (some raw) = parse_unsigned 32 (trim raw)
