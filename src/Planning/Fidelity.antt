-- ===== src/Planning/Fidelity.antt =====
-- src/docker_adopt/mod.rs: `rendered_spec` and `fidelity`, what blocks an adopt whose template has
-- been rendered.
use unraid.Base.{◌>>=◌}
use unraid.Spec.Parse.{parse_command}
use unraid.Spec.{without_baked_env, default_log_driver, RunSpec}
use unraid.Spec.Mounts.{SpecError}
use unraid.Text.{text_eq, Text}
use unraid.Map.{insert, contains_key, Set, Map}
use unraid.Planning.Adopting.{Facet}
use unraid.Spec.Diff.{diff, DiffMode, Delta, Masks}
use unraid.Base.{
  ◌++◌, Option, Result, List, if◌then◌else◌, Bool, map, some, ok, err, false, [], ◌∷◌,
}
use unraid.Order.{list_ord, nat_ord}
use unraid.Base.{none}

-- `entry(k).or_insert(v)` for each of the daemon's options.
unfoldable pub fill : Map Text Text → Map Text Text → Map Text Text
fill opts [] = opts
fill opts ((k, v) ∷ more) = fill (if contains_key opts k then opts else insert k v opts) more

unfoldable pub with_daemon_opts : Map Text Text → RunSpec → RunSpec
unfolding fill
with_daemon_opts daemon got =
    if text_eq got.log_driver default_log_driver
    then record got { log_opts = fill got.log_opts daemon }
    else got

unfoldable pub rendered_spec : Text → Set Text → Map Text Text → Result SpecError RunSpec
unfolding with_daemon_opts
rendered_spec rendered baked daemon = do
  parsed ← parse_command rendered
  ok (with_daemon_opts daemon (without_baked_env parsed baked))

-- A difference, with the values that the source formats.
pub data FidelityDelta : Type 0 where
  not_expressed : Facet → FidelityDelta
  unparsed : SpecError → FidelityDelta
  in_spec : Delta → FidelityDelta

abbrev pub is_intended : FidelityDelta → Bool
is_intended (in_spec d) = d.intended
is_intended _ = false

abbrev compared :
    Masks
    → RunSpec
    → DiffMode
    → List FidelityDelta
    → Result SpecError RunSpec
    → Option RunSpec × List FidelityDelta
compared r target mode out (ok got) = (some got, out ++ map in_spec (diff r target got mode))
compared r target mode out (err e) = (none, out ++ unparsed e ∷ [])

unfoldable pub fidelity :
    Masks
    → RunSpec
    → List Facet
    → Set Text
    → Map Text Text
    → Text
    → DiffMode
    → Option RunSpec × List FidelityDelta
fidelity r target facets baked daemon rendered mode =
    compared r target mode (map not_expressed facets) (rendered_spec rendered baked daemon)
