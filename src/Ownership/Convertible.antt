-- ===== src/Ownership/Convertible.antt =====
-- The volumes that may be converted, and those that their names may stand for.
use unraid.Base.{refl}
use unraid.Names.{is_valid_name}
use unraid.Ownership.{volume_labels, converted_name, mount_safe, labels_eq_iff, Conversion}
use unraid.Text.{contains, Text}
use unraid.Ownership.Conversions.{anonymous_in, Surroundings, reused}
use unraid.Map.{Map, contains_key, get}
use unraid.Base.{
  and_true, ◌∙◌, Option-cases, ◌⊎◌, not, arith, any, ◌&&◌, ◌≡◌, List, true, false, [], ◌∷◌, inl,
  inr,
}
use unraid.Order.{list_ord, nat_ord}
use unraid.Inspect.{
  mounted_by_others, local_volume_problems, mounts_volume, MountPoint, VolumeInspect, labels_of,
}
use unraid.Base.{Has}
use unraid.Base.{none, some}

-- The volume that exists under the new name: it has the labels that the new one is to have, and no
-- container mounts it.
pub record Reusable (sur : Surroundings) (cv : Conversion) : Type 0 where
  pub v : VolumeInspect
  pub exists : get sur.existing cv.new ≡ some v
  pub has_labels : labels_of v ≡ cv.labels
  pub is_unused : any (mounts_volume cv.new) sur.all_containers ≡ false

-- A mount of a volume that may be converted. It is one of the container's, of a plain local anonymous
-- volume that is not to be left alone and that no other container mounts, and its path can be a field
-- of `--mount`. The new volume has the name and the labels of the container and the path, its name is
-- valid, and no volume has the name, or one has that is reused.
pub record Convertible (sur : Surroundings) (name : Text) (mounts : List MountPoint)
    (cv : Conversion) : Type 0 where
  pub mount : MountPoint
  pub is_mounted : Has (λ m. m ≡ mount) mounts
  pub is_named : mount.name ≡ some cv.old
  pub has_target : cv.target ≡ mount.destination
  pub keeps_mode : cv.read_only ≡ not mount.is_rw
  pub is_anonymous : anonymous_in sur.volumes cv.old ≡ true
  pub is_asked : contains sur.skip cv.old ≡ false
  pub is_local : local_volume_problems cv.old (get sur.volumes cv.old) mount.source ≡ []
  pub is_alone : mounted_by_others cv.old name sur.all_containers ≡ []
  pub has_safe_path : mount_safe cv.target ≡ true
  pub has_name : cv.new ≡ converted_name name cv.target
  pub has_labels : cv.labels ≡ volume_labels name cv.target
  pub is_valid : is_valid_name cv.new ≡ true
  pub is_free :
      ((get sur.existing cv.new ≡ none) × (cv.reuse ≡ false))
      ⊎ (Reusable sur cv × (cv.reuse ≡ true))

has_key :
    {V : Type 0} (m : Map Text V) (k : Text) (v : V) → get m k ≡ some v → contains_key m k ≡ true
unfolding get contains_key
has_key [] k v h = cc h
has_key ((j, w) ∷ m) k v h = ground (arith, has_key m k v)

-- A new name that is not refused is free, or that of a volume that is reused.
pub free_or_taken :
    (sur : Surroundings) (cv : Conversion)
    → cv.reuse ≡ reused sur cv.new cv.labels
    → (contains_key sur.existing cv.new && not (reused sur cv.new cv.labels)) ≡ false
    → ((get sur.existing cv.new ≡ none) × (cv.reuse ≡ false))
      ⊎ (Reusable sur cv × (cv.reuse ≡ true))
unfolding reused
free_or_taken sur cv r h = elim (Option-cases (get sur.existing cv.new)) [
  | inl e ↦ inl (e, r ∙ rw (e, reused) refl)
  | inr (v, e) ↦
      let there = has_key sur.existing cv.new v e in
      let again : reused sur cv.new cv.labels ≡ true = ground (arith, there, h) in
      let (same, unused) = and_true (rw (e, reused) at again) in
      inr (
        record {
          v = v;
          exists = e;
          has_labels = (labels_eq_iff (labels_of v) cv.labels).0 same;
          is_unused = ground (arith, unused);
        },
        r ∙ again,
      )
]
