-- ===== src/Planning/Adopting.antt =====
-- src/docker_adopt/mod.rs: `plan_adopt`.
use unraid.Ownership.Conversions.{label_changes}
use unraid.Inspect.{baked_env}
use unraid.Template.Render.{render}
use unraid.Inspect.Translated.{live_spec}
use unraid.Inspect.{baked_env, short_name}
use unraid.Adopt.{Step}
use unraid.Planning.Volumes.{labeled_volumes, conversions_of, migrated, convert_mounts}
use unraid.Ownership.{container_labels, Conversion}
use unraid.Map.{extend, Map, Set}
use unraid.Orphans.Compose.{ComposeLeftovers}
use unraid.Text.{text_eq, codes, Text}
use unraid.Spec.{RunSpec}
use unraid.Inspect.Live.{Unsupported}
use unraid.Planning.{
  bad_conversion, first_blockers, label_change, is_some, compose_of, option_list, network_shared,
  converts_volume, drops_compose_labels, Blocker, leaves_network, AdoptOpts, Intended, Migration,
  Snapshot,
}
use unraid.Template.{from_spec, Template}
use unraid.Base.{◌||◌, get_or, any, map, ◌++◌, Bool, List, Option, some, [], ◌∷◌}
use unraid.Order.{list_ord, nat_ord}
use unraid.Planning.Steps.{icon_of, anonymous_left, Parts, adopt_steps}
use unraid.Base.{none}

-- What the template cannot express: of the typed data, or of the raw JSON.
pub data Facet : Type 0 where
  typed : Unsupported → Facet
  raw : Text → Facet

pub record AdoptPlan : Type 0 where
  pub template : Template
  pub template_xml : Text
  pub live : RunSpec
  pub target : RunSpec
  pub baked_env : Set Text
  pub unsupported : List Facet
  pub intended : List Intended
  pub blockers : List Blocker
  pub migrations : List Migration
  pub conversions : List Conversion
  pub labels : Map Text Text
  pub compose : Option ComposeLeftovers
  pub autostart : Bool
  pub was_running : Bool
  pub steps : List Step

abbrev network_left : Option ComposeLeftovers → Option Text
network_left none = none
network_left (some l) = l.network

abbrev bridged : RunSpec → Option Text → RunSpec
bridged spec none = spec
bridged spec (some _) = record spec { network = codes "bridge" }

abbrev leaves : Option Text → List Intended
leaves none = []
leaves (some net) = leaves_network net ∷ []

abbrev compose_intended : Option ComposeLeftovers → List Intended
compose_intended none = []
compose_intended (some l) = leaves l.network ++ drops_compose_labels l.project ∷ []

abbrev compose_blockers : Option ComposeLeftovers → List Blocker
compose_blockers none = []
compose_blockers (some l) = map network_shared (option_list l.network_blocker)

abbrev conversion_intended : List Conversion → List Intended
conversion_intended cvs = map (λ cv. converts_volume cv.old cv.target cv.new) cvs

-- What the container is to become.
unfoldable pub target_of : RunSpec → List Conversion → Map Text Text → RunSpec
target_of moved cvs labels =
    let spec = convert_mounts moved cvs in record spec { labels = extend spec.labels labels }

unfoldable pub parts_of :
    Snapshot
    → Text
    → Text
    → RunSpec
    → List Migration
    → List Conversion
    → Bool
    → Option ComposeLeftovers
    → Parts
parts_of s xml icon target ms cvs autostart compose =
    let c = s.container in
    record {
      migrations = ms;
      conversions = cvs;
      json = s.raw_json;
      xml = xml;
      icon = icon;
      image_id = c.image;
      expect = target;
      was_running = c.state.running;
      in_autostart = any (λ n. text_eq n (short_name c)) s.autostart;
      autostart = autostart;
      anonymous = anonymous_left s ms;
      compose = compose;
    }

-- `secret` is `is_secret_key` of redact.rs.
unfoldable pub plan_adopt : (Text → Bool) → Snapshot → AdoptOpts → AdoptPlan
plan_adopt secret s o =
    let c = s.container in
    let name = short_name c in
    let (live, facets) = live_spec c s.image in
    let compose = compose_of s in
    let net = network_left compose in
    let moved = migrated s o (bridged live net) in
    let (cvs, problems) = conversions_of s moved.migrations in
    let labels = container_labels name in
    let target = target_of moved.spec cvs labels in
    let icon = icon_of s o in
    let template = from_spec target icon (labeled_volumes cvs) in
    let xml = render secret template in
    let in_autostart = any (λ n. text_eq n name) s.autostart in
    let autostart = get_or o.autostart (in_autostart || c.state.running) in
    record {
      template = template;
      template_xml = xml;
      live = live;
      target = target;
      baked_env = baked_env s.image;
      unsupported = map typed facets ++ map raw (s.unmodelled (is_some net));
      intended =
          compose_intended compose
          ++ (moved.intended
              ++ (conversion_intended cvs
                  ++ map label_change
                      (label_changes (codes "container " ++ name) live.labels labels)));
      blockers =
          first_blockers s
          ++ (compose_blockers compose ++ (moved.blockers ++ map bad_conversion problems));
      migrations = moved.migrations;
      conversions = cvs;
      labels = labels;
      compose = compose;
      autostart = autostart;
      was_running = c.state.running;
      steps = adopt_steps (parts_of s xml icon target moved.migrations cvs autostart compose);
    }
