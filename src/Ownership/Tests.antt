-- ===== src/Ownership/Tests.antt =====
-- The conversion of a container's anonymous volumes.
use unraid.Ownership.Convertible.{Convertible}
use unraid.Base.{List, some}
use unraid.Map.Pigeonhole.{AreDistinct}
use unraid.Inspect.{
  VolumeInspect, expected_mountpoint, local_volume_problems, mounted_by_others, short_name, volumes,
  is_anonymous,
}
use unraid.Labels.{to_map}
use unraid.Map.{Map, add, insert, get, contains_key}
use unraid.Names.{is_valid_name, validate_name}
use unraid.Ownership.Conversions.{
  name_in_use, conversion_problems, reused, convert, convert_mount, convert_all, is_passed,
  conversion,
}
use unraid.Ownership.{labels_eq, mount_safe, slug, slug_parts, volume_labels, converted_name}
use unraid.Text.Utf8.{bytes, encode}
use unraid.Text.{
  Text, is_ascii_alphanumeric, is_ascii_digit, join, split, starts_with, trim_start_matches,
  text_eq, contains,
}
use unraid.Order.{list_cmp}
use unraid.Text.{trim_start_matches}
use unraid.Ownership.Conversions.{conversion}
use unraid.Ownership.Conversions.{convert}
use unraid.Map.{contains_key}
use unraid.Inspect.{is_anonymous}
use unraid.Order.{list_cmp}
use unraid.Map.{get}
use unraid.Text.{contains}
use unraid.Ownership.Conversions.{is_passed}
use unraid.Ownership.Conversions.{convert_mount}
use unraid.Text.{text_eq}
use unraid.Inspect.{volumes}
use unraid.Ownership.Conversions.{convert_all}
use unraid.Text.Utf8.{bytes}
use unraid.Ownership.Bounds.{is_valid_name-converted_name}
use unraid.Inspect.Samples.{anonymous_volume, bare_container, with_volume}
use unraid.Ownership.Safe.{plan_conversions-Convertible, new_key}
use unraid.Text.{codes}
use unraid.Inspect.{short_name, ContainerInspect}
use unraid.Names.{is_valid_name}
use unraid.Ownership.Conversions.{same_new_name, Surroundings, plan_conversions}
use unraid.Ownership.{converted_name, slug}
use unraid.Base.{arith, refl, length, ◌≡◌, map, All, leb, true, [], ◌∷◌}
use unraid.Order.{list_ord, nat_ord}

spaced_slug : slug (codes "/var/lib/App data") ≡ codes "var_lib_app_data"
unfolding slug
spaced_slug = refl

root_slug : slug (codes "/") ≡ codes "root"
unfolding slug
root_slug = refl

abbrev app : ContainerInspect
app = with_volume (bare_container (codes "app")) (codes "0f3a") (codes "/data")

abbrev around : Surroundings
around = record {
  volumes = (codes "0f3a", anonymous_volume (codes "0f3a")) ∷ [];
  existing = [];
  empty = [];
  all_containers = app ∷ [];
  skip = [];
}

converted_app : map (λ cv. cv.new) (plan_conversions app around).0 ≡ codes "app_data" ∷ []
unfolding plan_conversions convert_all volumes text_eq convert_mount is_passed contains get list_cmp
    is_anonymous contains_key convert conversion converted_name short_name expected_mountpoint
    local_volume_problems mounted_by_others to_map add insert is_valid_name validate_name
    conversion_problems reused labels_eq mount_safe slug slug_parts volume_labels bytes encode
    is_ascii_alphanumeric is_ascii_digit join split starts_with trim_start_matches
converted_app = refl

-- Two paths that differ in case only.
both_convert :
    (plan_conversions (with_volume app (codes "0f3a") (codes "/DATA")) around).1
    ≡ same_new_name (codes "app") (codes "app_data") ∷ []
unfolding plan_conversions convert_all volumes text_eq convert_mount is_passed contains get list_cmp
    is_anonymous contains_key convert conversion converted_name short_name expected_mountpoint
    local_volume_problems mounted_by_others to_map add insert is_valid_name validate_name
    conversion_problems reused labels_eq mount_safe slug slug_parts volume_labels bytes encode
    is_ascii_alphanumeric is_ascii_digit join split starts_with trim_start_matches
both_convert = refl

no_blockers : (plan_conversions app around).1 ≡ []
unfolding plan_conversions convert_all volumes text_eq convert_mount is_passed contains get list_cmp
    is_anonymous contains_key convert conversion converted_name short_name expected_mountpoint
    local_volume_problems mounted_by_others to_map add insert is_valid_name validate_name
    conversion_problems reused labels_eq mount_safe slug slug_parts volume_labels bytes encode
    is_ascii_alphanumeric is_ascii_digit join split starts_with trim_start_matches
no_blockers = refl

plan_conversions-Convertible_example :
    All (Convertible around (short_name app) (volumes app)) (plan_conversions app around).0
    × AreDistinct (map new_key (plan_conversions app around).0)
plan_conversions-Convertible_example = plan_conversions-Convertible app around no_blockers

app_is_valid : is_valid_name (codes "app") ≡ true
unfolding is_valid_name
app_is_valid = refl

app_is_short :
    leb (length (bytes (converted_name (codes "app") (codes "/var/lib/App data")))) 128 ≡ true
unfolding bytes converted_name slug
app_is_short = refl

is_valid_name-converted_name_example :
    is_valid_name (converted_name (codes "app") (codes "/var/lib/App data")) ≡ true
is_valid_name-converted_name_example =
    is_valid_name-converted_name (codes "app") (codes "/var/lib/App data") app_is_valid
      (ground (arith, app_is_short))

-- A volume of the new name that is mounted, or has other labels, is not reused.
abbrev named_data : Map Text Text → VolumeInspect
named_data labels = record (anonymous_volume (codes "app_data")) { labels = some labels }

abbrev with_existing : Map Text Text → List ContainerInspect → Surroundings
with_existing labels others = record around {
  existing = (codes "app_data", named_data labels) ∷ [];
  all_containers = app ∷ others;
}

reuses_own :
    map
      (λ cv. cv.reuse)
      (plan_conversions app (with_existing (volume_labels (codes "app") (codes "/data")) [])).0
    ≡ true ∷ []
unfolding plan_conversions convert_all volumes text_eq convert_mount is_passed contains get list_cmp
    is_anonymous contains_key convert conversion reused converted_name short_name trim_start_matches
    expected_mountpoint local_volume_problems mounted_by_others to_map add insert is_valid_name
    validate_name conversion_problems labels_eq mount_safe slug slug_parts volume_labels bytes
    encode is_ascii_alphanumeric is_ascii_digit join split starts_with
reuses_own = refl

refuses_foreign :
    (plan_conversions app (with_existing [] [])).1
    ≡ name_in_use (codes "app_data") (codes "app") (codes "/data") ∷ []
unfolding plan_conversions convert_all volumes text_eq convert_mount is_passed contains get list_cmp
    is_anonymous contains_key convert conversion_problems local_volume_problems expected_mountpoint
    mounted_by_others short_name to_map add insert is_valid_name validate_name conversion reused
    converted_name labels_eq mount_safe slug slug_parts volume_labels bytes encode
    is_ascii_alphanumeric is_ascii_digit join split starts_with trim_start_matches
refuses_foreign = refl

refuses_mounted :
    (plan_conversions app (
      with_existing
        (volume_labels (codes "app") (codes "/data"))
        (with_volume (bare_container (codes "db")) (codes "app_data") (codes "/d") ∷ []))).1
    ≡ name_in_use (codes "app_data") (codes "app") (codes "/data") ∷ []
unfolding plan_conversions convert_all volumes text_eq convert_mount is_passed contains get list_cmp
    is_anonymous contains_key convert conversion_problems local_volume_problems expected_mountpoint
    mounted_by_others short_name to_map add insert is_valid_name validate_name conversion reused
    converted_name labels_eq mount_safe slug slug_parts volume_labels bytes encode
    is_ascii_alphanumeric is_ascii_digit join split starts_with trim_start_matches
refuses_mounted = refl
