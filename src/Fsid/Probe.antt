-- ===== src/Fsid/Probe.antt =====
-- The probe finds a free fsid: it stops before its fuel ends, on an fsid that is not in use.
use unraid.Map.Pigeonhole.{AreDistinct, length-le}
use unraid.Order.{list_ord}
use unraid.Base.{
  refl, zero, false, ◌%◌, arith, ◌+◌, true, suc, some, ◌≤◌, none, ◌∷◌, ◌≢◌, length, ◌≡◌, ◌<◌, [],
  All, ℕ, List,
}
use unraid.Fsid.{probe, fsid_base, fsid_span}
use unraid.Map.{Set, contains_key}
use unraid.Order.{nat_ord}

pub probe-free :
    (fuel : ℕ) (used : Set ℕ) (off r : ℕ)
    → off < fsid_span
    → probe fuel used off ≡ some r
    → (contains_key used (fsid_base + r) ≡ false) × (r < fsid_span)
unfolding probe
probe-free zero used off r h e = cc
probe-free (suc fuel) used off r h e =
    ground (arith, probe-free fuel used ((off + 1) % fsid_span) r)

-- The fsids that the probe looks at.
visited : ℕ → ℕ → List ℕ
visited zero off = []
visited (suc fuel) off = (fsid_base + off) ∷ visited fuel ((off + 1) % fsid_span)

probe-none :
    (fuel : ℕ) (used : Set ℕ) (off : ℕ)
    → probe fuel used off ≡ none
    → All (λ x. contains_key used x ≡ true) (visited fuel off)
unfolding probe visited
probe-none zero used off e = tt
probe-none (suc fuel) used off e = ground (arith, probe-none fuel used ((off + 1) % fsid_span))

-- Within a turn of the ring the probe does not come back.
visited-ne :
    (fuel d off : ℕ)
    → off < fsid_span
    → 1 ≤ d
    → d + fuel ≤ fsid_span
    → All (λ x. x ≢ fsid_base + off) (visited fuel ((off + d) % fsid_span))
unfolding visited
visited-ne zero d off h p q = tt
visited-ne (suc fuel) d off h p q =
    let step : ((off + d) % fsid_span + 1) % fsid_span ≡ (off + (d + 1)) % fsid_span =
      omega arith in
    (omega arith, rw step (visited-ne fuel (d + 1) off h (omega arith) (omega arith)))

visited-AreDistinct :
    (fuel off : ℕ) → off < fsid_span → fuel ≤ fsid_span → AreDistinct (visited fuel off)
unfolding visited
visited-AreDistinct zero off h q = tt
visited-AreDistinct (suc fuel) off h q = (
  visited-ne fuel 1 off h (omega arith) (omega arith),
  visited-AreDistinct fuel ((off + 1) % fsid_span) (omega arith) (omega arith),
)

length-visited : (fuel off : ℕ) → length (visited fuel off) ≡ fuel
unfolding visited
length-visited zero off = refl
length-visited (suc fuel) off = omega (arith, length-visited fuel ((off + 1) % fsid_span))

-- With more fuel than there are fsids in use, and fewer of those than the ring has, the probe
-- returns an fsid.
pub probe-returns :
    (used : Set ℕ) (off : ℕ)
    → off < fsid_span
    → length used < fsid_span
    → probe (suc (length used)) used off ≢ none
probe-returns used off h l e =
    let n = suc (length used) in
    let le =
      length-le (visited n off) used (visited-AreDistinct n off h (omega arith))
        (probe-none n used off e) in
    omega (arith, le, length-visited n off)
