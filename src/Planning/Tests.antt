-- ===== src/Planning/Tests.antt =====
-- An adopt of a container with one anonymous volume.
use unraid.Planning.Protocol.{fresh, verified}
use unraid.Planning.Steps.{conversion_steps}
use unraid.Text.{text_eq}
use unraid.Adopt.{action}
use unraid.Spec.{default_spec}
use unraid.Planning.Order.{plan_adopt-Trace, has_copies_of}
use unraid.Inspect.Samples.{anonymous_volume, bare_image, bare_container, with_volume}
use unraid.Planning.Fidelity.{fidelity}
use unraid.Planning.Protocol.{verified, Trace}
use unraid.Planning.Adopting.{plan_adopt}
use unraid.Text.{codes, Text}
use unraid.Inspect.{ContainerInspect}
use unraid.Spec.Diff.{adopt, Masks}
use unraid.Planning.Faithful.{fidelity-Faithful, Faithful, NoneBlocks}
use unraid.Planning.Steps.{Parts, adopt_steps}
use unraid.Planning.{file_collides, AdoptOpts, image_blocker, Snapshot, template_collisions}
use unraid.Base.{◌↔◌, refl, map, ◌≡◌, Bool, some, true, false, [], ◌∷◌}
use unraid.Order.{list_ord, nat_ord}
use unraid.Base.{none}

abbrev app : ContainerInspect
app = with_volume (bare_container (codes "app")) (codes "0f3a") (codes "/data")

abbrev snapshot : Snapshot
snapshot = record {
  container = app;
  raw_json = codes "{}";
  unmodelled = λ moving. [];
  image = bare_image;
  tag_image_id = some (codes "sha256:1");
  containers = app ∷ [];
  volumes = (codes "0f3a", anonymous_volume (codes "0f3a")) ∷ [];
  conversion_targets = [];
  empty_volumes = [];
  existing_template = none;
  templates = (codes "my-other.xml", some (codes "other")) ∷ [];
  autostart = [];
  run_id = codes "20260101-000000-ab";
  stacks_roots = [];
  stacks_root_problems = λ p. none;
  compose_file = none;
}

abbrev moving : AdoptOpts
moving = record { repo = none; icon_base = []; migrate_volumes = true; autostart = none }

abbrev no_secrets : Text → Bool
no_secrets key = false

image_is_current : image_blocker snapshot ≡ none
unfolding image_blocker text_eq
image_is_current = refl

other_template :
    template_collisions (codes "Other") snapshot.templates
    ≡ file_collides (codes "my-other.xml") ∷ []
unfolding template_collisions text_eq
other_template = refl

abbrev parts : Parts
parts = record {
  migrations =
      record {
        volume = codes "0f3a";
        suffix = codes "data";
        to = codes "/mnt/user/appdata/app/data";
      }
      ∷ [];
  conversions = [];
  json = codes "{}";
  xml = codes "<Container/>";
  icon = [];
  image_id = codes "sha256:1";
  expect = default_spec;
  was_running = true;
  in_autostart = false;
  autostart = true;
  anonymous = [];
  compose = none;
}

moving_actions :
    map action (adopt_steps parts)
    ≡ codes "probe-root"
      ∷ codes "stop"
      ∷ codes "copy-volume"
      ∷ codes "save-inspect"
      ∷ codes "write-template"
      ∷ codes "set-autostart"
      ∷ codes "expose-copy"
      ∷ codes "ensure-stopped"
      ∷ codes "rebuild"
      ∷ codes "ensure-state"
      ∷ codes "verify-managed"
      ∷ codes "remove-volume"
      ∷ []
unfolding adopt_steps action conversion_steps
moving_actions = refl

plan_adopt-Trace_example :
    let plan = plan_adopt no_secrets snapshot moving in
    Trace (has_copies_of plan) true fresh plan.steps verified
plan_adopt-Trace_example = plan_adopt-Trace no_secrets snapshot moving

abbrev masks : Masks
masks = record { mask = λ k v. v; mask_label = λ k v. v; mask_cmd = λ ws. ws }

abbrev command : Text
command = codes "docker create --name='app' --net='bridge' app"

fidelity-Faithful_example :
    NoneBlocks (fidelity masks default_spec [] [] [] command adopt).1
    ↔ Faithful default_spec [] [] [] command adopt
fidelity-Faithful_example =
    fidelity-Faithful masks default_spec [] [] [] command adopt
      (record { ports = tt; env = tt; mounts = tt; tmpfs = tt; log_opts = tt; labels = tt })
