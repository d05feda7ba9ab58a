-- ===== src/Fsid.antt =====
-- The plan of NFS fsids, one for each user share: `plan_fsids` of src/nfs_fsid.rs.
pub mod Probe
pub mod Plans
pub mod Fixed
pub mod Laws
pub mod Total
mod Tests
use unraid.Base.{
  not, zero, ◌-◌, if◌then◌else◌, ◌^◌, ◌==◌, ◌*◌, ◌%◌, keep, ◌++◌, length, option_eq, ◌+◌, some, [],
  ◌∷◌, Bool, none, suc, Option, List, ℕ,
}
use Prim.Native.Nat.{bit_xor}
use unraid.Text.{Text}
use unraid.Text.Utf8.{bytes}
use unraid.Order.{nat_ord, list_ord}
use unraid.Map.{Map, Set, insert, add, contains_key}

abbrev pub fsid_base : ℕ
fsid_base = 1000

-- 2^30
abbrev pub fsid_span : ℕ
fsid_span = 1_073_741_824

-- The fold of `fnv1a`, in 32 bits.
fnv1a_from : ℕ → List ℕ → ℕ
fnv1a_from h [] = h
fnv1a_from h (b ∷ bs) = fnv1a_from (bit_xor h b * 0x01000193 % 2 ^ 32) bs

unfoldable pub fnv1a : Text → ℕ
unfolding fnv1a_from bytes
fnv1a s = fnv1a_from 0x811c9dc5 (bytes s)

unfoldable pub hashed_fsid : Text → Text → ℕ
hashed_fsid server_key share = fsid_base + fnv1a (server_key ++ b'/' ∷ share) % fsid_span

-- The fsids of the shares as they are: of a share without an explicit one, `none`.
abbrev pub Current : Type 0
Current = Map Text (Option ℕ)

abbrev pub is_fixed : Text → Text × Option ℕ → Bool
is_fixed server_key (share, fsid) = option_eq ◌==◌ fsid (some (hashed_fsid server_key share))

-- The variables of the loops: the fsids in use, and the plan.
pub record Plan : Type 0 where
  pub used : Set ℕ
  pub out : Map Text ℕ

abbrev pub place : Plan → Text → ℕ → Plan
place p share f = record { used = add f p.used; out = insert share f p.out }

-- The loop over the shares at their hash value. `none` is the panic of `expect`.
unfoldable pub place_fixed : Plan → List (Text × Option ℕ) → Option Plan
place_fixed p [] = some p
place_fixed p ((share, none) ∷ es) = none
place_fixed p ((share, some f) ∷ es) = place_fixed (place p share f) es

-- `while used.contains(..)`, with fuel.
unfoldable pub probe : ℕ → Set ℕ → ℕ → Option ℕ
probe zero used off = none
probe (suc fuel) used off =
    let next = probe fuel used ((off + 1) % fsid_span) in
    if contains_key used (fsid_base + off) then next else some off

-- One round of the loop over the other shares. The fuel is one more than the number of fsids in use.
unfoldable pub place_share : Text → Plan → Text → Option Plan
place_share server_key p share =
    elim (probe (suc (length p.used)) p.used (hashed_fsid server_key share - fsid_base)) [
      | none ↦ none
      | some off ↦ some (place p share (fsid_base + off))
    ]

unfoldable pub place_moving : Text → Plan → List (Text × Option ℕ) → Option Plan
place_moving server_key p [] = some p
place_moving server_key p ((share, _) ∷ es) = elim (place_share server_key p share) [
  | none ↦ none
  | some q ↦ place_moving server_key q es
]

abbrev pub plan_out : Option Plan → Option (Map Text ℕ)
plan_out none = none
plan_out (some p) = some p.out

abbrev pub moving : Text → Current → List (Text × Option ℕ)
moving server_key current = keep (λ e. not (is_fixed server_key e)) current

abbrev pub fixed : Text → Current → List (Text × Option ℕ)
fixed server_key current = keep (is_fixed server_key) current

abbrev pub fresh : Set ℕ → Plan
fresh reserved = record { used = reserved; out = [] }

unfoldable pub plan_fsids : Text → Current → Set ℕ → Option (Map Text ℕ)
plan_fsids server_key current reserved =
    elim (place_fixed (fresh reserved) (fixed server_key current)) [
      | none ↦ none
      | some p ↦ plan_out (place_moving server_key p (moving server_key current))
    ]
