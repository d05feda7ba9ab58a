-- ===== src/Ownership.antt =====
-- src/docker_adopt/ownership.rs: the ownership labels that an adopt writes, and the anonymous
-- volumes that become labeled ones.
pub mod Conversions
pub mod Bounds
pub mod Convertible
pub mod Safe
mod Tests
use unraid.Labels.{for_, with_mount, to_map}
use unraid.Map.{Map}
use unraid.Text.{
  text_eq_iff, text_eq, starts_with, is_empty, is_ascii_alphanumeric, codes, join, split, Text,
}
use unraid.Base.{
  arith, false, ◌↔◌, ◌≡◌, true, elem, not, ◌+◌, none, ◌&&◌, keep, List, some, [], leb,
  if◌then◌else◌, ◌∷◌, ◌++◌, Bool, map, ℕ, any,
}

abbrev pub owner_unraid : Text
owner_unraid = codes "unraid"

-- `container_labels`
unfoldable pub container_labels : Text → Map Text Text
unfolding to_map
container_labels name = to_map (for_ owner_unraid name (some name) none)

unfoldable pub volume_labels : Text → Text → Map Text Text
unfolding to_map
volume_labels name target = to_map (with_mount (for_ owner_unraid name (some name) none) target)

abbrev pub to_ascii_lowercase : ℕ → ℕ
to_ascii_lowercase c = if leb b'A' c && leb c b'Z' then c + 32 else c

abbrev slug_char : ℕ → ℕ
slug_char c = if is_ascii_alphanumeric c then to_ascii_lowercase c else b'_'

unfoldable pub slug_parts : Text → List Text
unfolding split is_ascii_alphanumeric
slug_parts path = keep (λ p. not (is_empty p)) (split b'_' (map slug_char path))

abbrev or_root : Text → Text
or_root s = if is_empty s then codes "root" else s

unfoldable pub slug : Text → Text
unfolding slug_parts join
slug path = or_root (join (codes "_") (slug_parts path))

pub record LabeledVolume : Type 0 where
  pub labels : Map Text Text
  pub nocopy : Bool

-- One anonymous volume that becomes a labeled one.
pub record Conversion : Type 0 where
  pub old : Text
  pub new : Text
  pub target : Text
  pub read_only : Bool
  pub labels : Map Text Text
  pub reuse : Bool
  pub nocopy : Bool

abbrev pub mount : Conversion → LabeledVolume
mount c = record { labels = c.labels; nocopy = c.nocopy }

-- The loop over the labels of `volume_mount_arg`.
unfoldable pub volume_label_fields : Map Text Text → Text
volume_label_fields [] = []
volume_label_fields ((k, v) ∷ m) =
    codes ",volume-label=" ++ (k ++ (b'=' ∷ (v ++ volume_label_fields m)))

unfoldable pub volume_mount_arg : Text → Text → Bool → LabeledVolume → Text
volume_mount_arg source target read_only v =
    codes "type=volume,src="
    ++ (source
        ++ (codes ",dst="
            ++ (target
                ++ ((if read_only then codes ",readonly" else [])
                    ++ ((if v.nocopy then codes ",volume-nocopy" else [])
                        ++ volume_label_fields v.labels)))))

unfoldable pub mount_arg : Conversion → Text
mount_arg c = volume_mount_arg c.new c.target c.read_only (mount c)

unfoldable pub mount_safe : Text → Bool
mount_safe path =
    starts_with (codes "/") path && not (any (λ c. elem c (b',' ∷ b'"' ∷ b'&' ∷ 10 ∷ 13 ∷ [])) path)

unfoldable pub converted_name : Text → Text → Text
converted_name name target = name ++ b'_' ∷ slug target

-- `==` of label maps.
unfoldable pub labels_eq : Map Text Text → Map Text Text → Bool
labels_eq [] [] = true
labels_eq ((k, v) ∷ m) ((j, w) ∷ n) =
    let rest = labels_eq m n in text_eq k j && (text_eq v w && rest)
labels_eq _ _ = false

pub labels_eq_iff : (m n : Map Text Text) → (labels_eq m n ≡ true) ↔ (m ≡ n)
unfolding labels_eq
labels_eq_iff [] [] = ground arith
labels_eq_iff [] ((j, w) ∷ n) = ground arith
labels_eq_iff ((k, v) ∷ m) [] = ground arith
labels_eq_iff ((k, v) ∷ m) ((j, w) ∷ n) =
    ground (arith, text_eq_iff k j, text_eq_iff v w, labels_eq_iff m n)
