-- ===== src/Labels/Tests.antt =====
-- The labels of a volume.
use unraid.Labels.Carried.{get-to_map, held}
use unraid.Labels.{for_, with_mount, to_map, Labels}
use unraid.Map.{get}
use unraid.Base.{refl, ◌≡◌, none, some}
use unraid.Text.{text_eq, codes}
use unraid.Order.{list_ord, nat_ord}

abbrev data_volume : Labels
data_volume =
    with_mount (for_ (codes "unraid") (codes "pbs") (some (codes "pbs")) none) (codes "/data")

get-to_map_example :
    get (to_map data_volume) (codes "orca.mount") ≡ held data_volume (codes "orca.mount")
get-to_map_example = get-to_map data_volume (codes "orca.mount")

held_tests :
    (held data_volume (codes "orca.mount") ≡ some (codes "/data"))
    × (held data_volume (codes "orca.unit") ≡ none)
    × (held data_volume (codes "orca.heal") ≡ none)
unfolding held text_eq
held_tests = (refl, refl, refl)
