-- ===== src/Adopt/Trials.antt =====
-- An adopt that converts a volume, on a small host.
use unraid.Text.{trim_matches}
use unraid.Text.{trim_end_matches}
use unraid.Text.{starts_with}
use unraid.Text.{split_once}
use unraid.Text.{join}
use unraid.Text.{is_whitespace}
use unraid.Text.Utf8.{prefix_bytes}
use unraid.Text.Utf8.{encode}
use unraid.Text.Numbers.{decimal_from}
use unraid.Text.Numbers.{decimal}
use unraid.Spec.{normalize_image}
use unraid.Spec.{non_default_propagation}
use unraid.Spec.{mount_key}
use unraid.Spec.Diff.{words_eq}
use unraid.Spec.Diff.{unmodelled}
use unraid.Spec.Diff.{extra_entries}
use unraid.Spec.Diff.{diff_restart}
use unraid.Spec.Diff.{diff_pids_limit}
use unraid.Map.{retain}
use unraid.Inspect.{baked_env}
use unraid.Inspect.Translated.{unsupported}
use unraid.Inspect.Translated.{short_id}
use unraid.Inspect.Translated.{overrides}
use unraid.Inspect.Translated.{other_devices}
use unraid.Inspect.Translated.{live_restart}
use unraid.Inspect.Translated.{live_pids_limit}
use unraid.Inspect.Translated.{live_labels}
use unraid.Inspect.Translated.{live_gpus}
use unraid.Inspect.Translated.{live_cmd}
use unraid.Inspect.Translated.{gpus_of_request}
use unraid.Inspect.Translated.{gpus_of_count}
use unraid.Inspect.Translated.{decimal_integer}
use unraid.Inspect.Live.{unpublished}
use unraid.Inspect.Live.{other_mounts}
use unraid.Inspect.Live.{network_problems}
use unraid.Inspect.Live.{live_mounts}
use unraid.Inspect.Live.{live_env}
use unraid.Map.{remove}
use unraid.Spec.Diff.{missing_entries}
use unraid.Spec.Diff.{diff_map}
use unraid.Spec.{port_key}
use unraid.Map.{contains_key}
use unraid.Inspect.Live.{published}
use unraid.Spec.Diff.{difference}
use unraid.Spec.Diff.{diff_set}
use unraid.Inspect.Translated.{hostname_of}
use unraid.Spec.Diff.{diff_hostname}
use unraid.Inspect.{network_of}
use unraid.Text.{trim_start_matches}
use unraid.Inspect.{short_name}
use unraid.Adopt.Succeeded.{apply-Achieved, Achieved}
use unraid.Adopt.Invariant.{apply-DigestsWhole}
use unraid.Adopt.Verify.{blockers_of, check_spec, check_container, verify}
use unraid.Adopt.Recorded.{DigestsWhole}
use unraid.Adopt.Verified.{verify-Verified, Verified}
use unraid.Labels.{to_map}
use unraid.Text.{
  split_once_text, strip_prefix, is_ascii_hexdigit, is_ascii_digit, lines, trim, lines_from,
}
use unraid.Adopt.Apply.{manifest_digest, take_while, note_copy, note_manifest, mark, track}
use unraid.Order.{list_cmp}
use unraid.Map.{insert, get, add_all, add}
use unraid.Ownership.{labels_eq}
use unraid.Adopt.Rollback.{inspect_volume}
use unraid.Adopt.Host.{volume_exists, changed_since_copy, changed_from, reread, change_of}
use unraid.Adopt.Volumes.{
  create_volume_step, claim_volume, ensure_stopped_step, same_times, all_unchanged,
  remove_volume_step, remove_if_running, rm_unless, sources_of,
}
use unraid.Effects.{◌>>=◌}
use unraid.Adopt.Steps.{run_step, stop_step, note_stopped}
use unraid.Adopt.Loop.{apply_from}
use unraid.Ownership.{volume_labels}
use unraid.Adopt.Steps.{runner_of}
use unraid.Spec.Diff.{diff, adopt}
use unraid.Inspect.Translated.{raw_spec, live_spec}
use unraid.Inspect.Samples.{bare_container, bare_image, anonymous_volume}
use unraid.Adopt.Loop.{apply, Applied}
use unraid.Text.{text_eq, codes, Text}
use unraid.Inspect.{label, ContainerInspect, VolumeInspect}
use unraid.Adopt.Host.{Wording}
use unraid.Spec.{normalized, default_spec, RunSpec}
use unraid.Adopt.{
  priv_copy_into_volume, remove_volume, rebuild, ensure_stopped, priv_manifest_volume,
  priv_volume_empty, copy_into_volume, priv_rebuild, create_volume, verify_managed, stop, Step,
  PrivilegedOp,
}
use unraid.Adopt.Apply.{StepOutcome, State, ApplyCtx, HostOps}
use unraid.Base.{
  ◌++◌, refl, if◌then◌else◌, Result, ◌≡◌, List, length, Bool, some, ok, err, true, false, [], ◌∷◌,
}
use unraid.Order.{list_ord, nat_ord}
use unraid.Base.{none}

-- The host knows whether the container runs.
abbrev pub Server : Type 0
Server = Bool

abbrev pub app : Bool → ContainerInspect
app running =
    let c = bare_container (codes "app") in
    record c {
      state = record c.state {
        running = running;
        status = if running then codes "running" else codes "exited";
      };
    }

abbrev pub digest : Text
digest = codes "00112233445566778899aabbccddeeff00112233445566778899aabbccddeeff"

abbrev pub new_volume : VolumeInspect
new_volume = record (anonymous_volume (codes "app_data")) {
  labels = some (volume_labels (codes "app") (codes "/data"));
  created_at = codes "2026-01-01T00:00:01Z";
}

abbrev answer : PrivilegedOp → Bool → Result Text Text × Bool
answer (priv_rebuild _) running = (ok (codes "rebuilt"), true)
answer (priv_volume_empty _) running = (ok (codes "empty"), running)
answer (priv_manifest_volume _ _) running =
    (ok (codes "content manifest sha256:" ++ digest), running)
answer (priv_copy_into_volume _ _ _) running =
    (ok (codes "copied, content manifest sha256:" ++ digest), running)
answer _ running = (ok (codes "done"), running)

abbrev command : List Text → Bool → Result Text Text × Bool
command (verb ∷ _) running =
    if text_eq verb (codes "stop") then (ok [], false) else (ok [], running)
command [] running = (err (codes "no command"), running)

abbrev pub server : HostOps Server
server = record {
  docker = command;
  inspect_container = λ name running. (ok (app running), running);
  inspect_image = λ id running. (ok bare_image, running);
  inspect_all = λ running. (ok (app running ∷ []), running);
  privileged = answer;
  decode_volumes = λ t. ok (new_volume ∷ []);
}

abbrev pub wording : Wording
wording = record { debug = λ t. t; difference = λ m. [] }

abbrev pub cx : ApplyCtx
cx = record {
  tool = codes "adopt";
  name = codes "app";
  run_id = codes "20260101-000000-ab";
  nonce = codes "n0";
  was_running = true;
  autostart_before = false;
  had_template = false;
  original = default_spec;
  conversions = [];
  redactor = λ t. t;
  masks = record { mask = λ k v. v; mask_label = λ k v. v; mask_cmd = λ ws. ws };
}

abbrev pub at_first : State Server
at_first = record { host = true; state = record { manifests = []; created = []; stopped = none } }

abbrev expected_spec : RunSpec
expected_spec = (live_spec (app true) bare_image).0

abbrev checked : Step
checked = verify_managed true none (codes "sha256:1") expected_spec adopt

abbrev steps : List Step
steps =
    stop
    ∷ create_volume (codes "app_data") (volume_labels (codes "app") (codes "/data"))
    ∷ copy_into_volume (codes "0f3a") (codes "app_data")
    ∷ ensure_stopped
    ∷ rebuild
    ∷ remove_volume (codes "0f3a")
    ∷ []

abbrev run : Applied Server
run = apply (runner_of server wording) cx at_first steps

abbrev outcomes_of : Applied Server → List StepOutcome
outcomes_of (ok outs, s) = outs
outcomes_of (err e, s) = []

six_outcomes : length (outcomes_of run) ≡ 6
unfolding apply apply_from run_step stop_step ◌>>=◌ text_eq note_stopped create_volume_step
    volume_exists inspect_volume claim_volume labels_eq volume_labels insert list_cmp
    ensure_stopped_step same_times all_unchanged changed_since_copy changed_from reread change_of
    manifest_digest split_once_text strip_prefix take_while is_ascii_hexdigit is_ascii_digit
    note_copy note_manifest mark track get sources_of add_all to_map lines trim remove_volume_step
    remove_if_running rm_unless lines_from add
six_outcomes = refl

run_succeeds : run ≡ (ok (outcomes_of run), run.1)
unfolding apply apply_from run_step stop_step ◌>>=◌ text_eq note_stopped create_volume_step
    volume_exists inspect_volume claim_volume labels_eq volume_labels insert list_cmp
    ensure_stopped_step same_times all_unchanged changed_since_copy changed_from reread change_of
    manifest_digest split_once_text strip_prefix take_while is_ascii_hexdigit is_ascii_digit
    note_copy note_manifest mark track get sources_of add_all to_map lines trim remove_volume_step
    remove_if_running rm_unless lines_from add
run_succeeds = refl

apply-Achieved_example : Achieved server wording cx steps at_first run.1
apply-Achieved_example =
    apply-Achieved server wording cx at_first steps (outcomes_of run) run.1 run_succeeds

apply-DigestsWhole_example :
    DigestsWhole (apply (runner_of server wording) cx at_first steps).1.state
apply-DigestsWhole_example = apply-DigestsWhole server wording cx at_first steps tt

abbrev said : Text
said = codes "net.unraid.docker.managed=dockerman, running"

verify_succeeds :
    verify server wording cx true none (codes "sha256:1") expected_spec adopt at_first
    ≡ (ok said, at_first)
unfolding verify check_container check_spec ◌>>=◌ label text_eq blockers_of diff live_spec get
    list_cmp normalized raw_spec short_name trim_start_matches strip_prefix trim network_of
    diff_hostname hostname_of diff_set difference published add insert contains_key port_key
    diff_map missing_entries remove live_env live_mounts network_problems other_mounts unpublished
    decimal_integer gpus_of_count gpus_of_request live_cmd live_gpus live_labels live_pids_limit
    live_restart other_devices overrides short_id unsupported baked_env add_all retain
    diff_pids_limit diff_restart extra_entries unmodelled words_eq mount_key non_default_propagation
    normalize_image decimal decimal_from encode prefix_bytes is_whitespace join split_once
    starts_with trim_end_matches trim_matches
verify_succeeds = refl

verify-Verified_example :
    Verified server cx true none (codes "sha256:1") expected_spec adopt at_first
verify-Verified_example =
    verify-Verified server wording cx true none (codes "sha256:1") expected_spec adopt at_first said
      at_first verify_succeeds
