-- ===== src/Planning/Steps.antt =====
-- src/docker_adopt/mod.rs: the steps of an adopt, and `plan_adopt`.
use unraid.Orphans.{own_anonymous_volumes}
use unraid.Spec.Diff.{adopt}
use unraid.Spec.{RunSpec}
use unraid.Orphans.Compose.{ComposeLeftovers}
use unraid.Paths.{path_text, FilePath}
use unraid.Template.Xml.{extract_icon}
use unraid.Ownership.{Conversion}
use unraid.Planning.{AdoptOpts, Migration, Snapshot}
use unraid.Text.{text_eq, codes, is_empty, trim_end_matches, Text}
use unraid.Base.{
  ◌||◌, any, is_nil, bool_eq, keep, ◌++◌, ◌&&◌, map, if◌then◌else◌, not, ◌==◌, get_or, Option, Bool,
  List, some, [], ◌∷◌,
}
use unraid.Order.{list_ord, nat_ord}
use unraid.Adopt.{
  Step, retire_stack, remove_network, copy_into_volume, create_volume, ensure_stopped,
  remove_own_anonymous_volumes, remove_volume, refresh_icons, clear_icon_cache, verify_managed,
  ensure_state, rebuild, set_autostart, write_template, save_inspect, expose_copy, copy_volume,
  stop, probe,
}
use unraid.Inspect.{icon_label, label}
use unraid.Base.{none}

abbrev pub step_if : Bool → Step → List Step
step_if test x = if test then x ∷ [] else []

abbrev pub copy_steps : List Migration → List Step
copy_steps ms = map (λ m. copy_volume m.volume m.suffix m.to) ms

abbrev pub expose_steps : List Migration → List Step
expose_steps ms = map (λ m. expose_copy m.suffix) ms

abbrev pub remove_steps : List Migration → List Step
remove_steps ms = map (λ m. remove_volume m.volume) ms

abbrev pub create_step : Conversion → List Step
create_step cv = step_if (not cv.reuse) (create_volume cv.new cv.labels)

unfoldable pub conversion_steps : List Conversion → List Step
conversion_steps [] = []
conversion_steps (cv ∷ cvs) =
    create_step cv ++ (copy_into_volume cv.old cv.new ∷ conversion_steps cvs)

abbrev pub differ : Bool → Bool → Bool
differ a b = not (bool_eq a b)

-- `autostart_steps`: the closure's steps stand for `rebuild`.
unfoldable pub autostart_steps : Bool → Bool → Bool → List Step → List Step
autostart_steps in_autostart want_running autostart rebuilding =
    step_if (differ in_autostart want_running) (set_autostart want_running)
    ++ (rebuilding ++ step_if (differ autostart want_running) (set_autostart autostart))

unfoldable pub icon_url : Text → Text → Text
unfolding trim_end_matches
icon_url base repo =
    trim_end_matches (λ c. c == b'/') base
    ++ b'/' ∷ (repo ++ codes "/raw/branch/main/assets/icon-256.png")

abbrev or_icon : Option Text → Option Text → Text
or_icon (some icon) later = icon
or_icon none later = get_or later []

abbrev template_icon : Option Text → Option Text
template_icon none = none
template_icon (some xml) = extract_icon xml

unfoldable pub icon_of : Snapshot → AdoptOpts → Text
unfolding extract_icon label
icon_of s o = elim o.repo [
  | some repo ↦ icon_url o.icon_base repo
  | none ↦ or_icon (template_icon s.existing_template) (label s.container icon_label)
]

unfoldable pub is_migrated : List Migration → Text → Bool
is_migrated ms v = any (λ m. text_eq m.volume v) ms

abbrev pub anonymous_left : Snapshot → List Migration → List Text
anonymous_left s ms =
    keep (λ v. not (is_migrated ms v)) (own_anonymous_volumes s.container s.volumes)

abbrev pub network_steps : Option Text → List Step
network_steps none = []
network_steps (some net) = remove_network net ∷ []

abbrev pub retire_steps : Text → Option (FilePath × FilePath) → List Step
retire_steps project none = []
retire_steps project (some (from, to)) = retire_stack project (path_text from) (path_text to) ∷ []

abbrev pub compose_steps : Option ComposeLeftovers → List Step
compose_steps none = []
compose_steps (some l) = network_steps l.network ++ retire_steps l.project l.retire

-- What the steps are made of.
pub record Parts : Type 0 where
  pub migrations : List Migration
  pub conversions : List Conversion
  pub json : Text
  pub xml : Text
  pub icon : Text
  pub image_id : Text
  pub expect : RunSpec
  pub was_running : Bool
  pub in_autostart : Bool
  pub autostart : Bool
  pub anonymous : List Text
  pub compose : Option ComposeLeftovers

abbrev pub has_copies : Parts → Bool
has_copies p = not (is_nil p.migrations) || not (is_nil p.conversions)

-- What stands before the rebuild, what it is made of, and what follows it.
unfoldable pub steps_before : Parts → List Step
steps_before p =
    probe
    ∷ (step_if (has_copies p && p.was_running) stop
        ++ (copy_steps p.migrations
            ++ (conversion_steps p.conversions
                ++ (save_inspect p.json ∷ write_template p.xml ∷ []))))

unfoldable pub steps_rebuild : Parts → List Step
steps_rebuild p =
    expose_steps p.migrations ++ (step_if (has_copies p) ensure_stopped ++ rebuild ∷ [])

abbrev pub icon_option : Text → Option Text
icon_option icon = if is_empty icon then none else some icon

unfoldable pub steps_after : Parts → List Step
steps_after p =
    ensure_state p.was_running
    ∷ verify_managed p.was_running (icon_option p.icon) p.image_id p.expect adopt
    ∷ ((if is_empty p.icon then [] else clear_icon_cache ∷ refresh_icons ∷ [])
        ++ (remove_steps p.migrations
            ++ (step_if (not (is_nil p.anonymous)) (remove_own_anonymous_volumes p.anonymous)
                ++ compose_steps p.compose)))

unfoldable pub adopt_steps : Parts → List Step
unfolding steps_before steps_rebuild steps_after autostart_steps
adopt_steps p =
    steps_before p
    ++ (autostart_steps p.in_autostart p.was_running p.autostart (steps_rebuild p) ++ steps_after p)
