-- ===== src/Adopt/Seen.antt =====
-- Single steps on the small host.
use unraid.Adopt.Volumes.{rm_unless}
use unraid.Adopt.Volumes.{remove_if_running}
use unraid.Map.{insert}
use unraid.Ownership.{labels_eq}
use unraid.Adopt.Volumes.{claim_volume}
use unraid.Adopt.Rollback.{inspect_volume}
use unraid.Adopt.Host.{volume_exists}
use unraid.Text.{is_ascii_hexdigit}
use unraid.Adopt.Apply.{take_while}
use unraid.Text.{split_once_text}
use unraid.Adopt.Host.{reread}
use unraid.Order.{list_cmp}
use unraid.Map.{get}
use unraid.Adopt.Host.{changed_from}
use unraid.Adopt.Host.{changed_since_copy}
use unraid.Map.{add_all}
use unraid.Adopt.Volumes.{sources_of}
use unraid.Adopt.Volumes.{all_unchanged}
use unraid.Text.{text_eq}
use unraid.Adopt.Volumes.{same_times}
use unraid.Adopt.Host.{run_times}
use unraid.Ownership.{volume_labels}
use unraid.Effects.{◌>>=◌}
use unraid.Adopt.Trials.{app, digest, cx, server, Server}
use unraid.Text.{codes, Text}
use unraid.Adopt.Created.{create_volume_step-Created, Created}
use unraid.Adopt.Volumes.{create_volume_step, ensure_stopped_step, remove_volume_step}
use unraid.Adopt.Removed.{remove_volume_step-Outcome, Outcome}
use unraid.Adopt.Apply.{State}
use unraid.Adopt.Guarded.{ensure_stopped_step-StillStopped, StillStopped}
use unraid.Base.{refl, ◌≡◌, Result, some, ok, err, true, false, [], ◌∷◌}
use unraid.Order.{list_ord, nat_ord}

abbrev stopped : State Server
stopped = record {
  host = false;
  state = record {
    manifests = (codes "0f3a", digest) ∷ [];
    created = [];
    stopped = some (run_times (app false));
  };
}

abbrev answered : Result Text Text × State Server → Text
answered (ok t, s) = t
answered (err t, s) = t

abbrev ensured : Result Text Text × State Server
ensured = ensure_stopped_step server cx stopped

ensure_succeeds : ensured ≡ (ok (answered ensured), ensured.1)
unfolding ensure_stopped_step ◌>>=◌ same_times text_eq all_unchanged sources_of add_all
    changed_since_copy changed_from get list_cmp reread split_once_text take_while is_ascii_hexdigit
ensure_succeeds = refl

ensure_stopped_step-StillStopped_example : StillStopped server cx stopped
ensure_stopped_step-StillStopped_example =
    ensure_stopped_step-StillStopped server cx stopped (answered ensured) ensured.1 ensure_succeeds

abbrev made : Result Text Text × State Server
made =
    create_volume_step server cx (codes "app_data") (volume_labels (codes "app") (codes "/data"))
      stopped

create_succeeds : made ≡ (ok (answered made), made.1)
unfolding create_volume_step ◌>>=◌ volume_exists text_eq inspect_volume claim_volume labels_eq
    volume_labels insert list_cmp
create_succeeds = refl

create_volume_step-Created_example :
    Created server (codes "app_data") (volume_labels (codes "app") (codes "/data")) stopped made.1
create_volume_step-Created_example =
    create_volume_step-Created server cx (codes "app_data")
      (volume_labels (codes "app") (codes "/data")) stopped (answered made) made.1 create_succeeds

abbrev running : State Server
running = record stopped { host = true }

abbrev cleared : Result Text Text × State Server
cleared = remove_volume_step server cx (codes "0f3a") running

clear_succeeds : cleared ≡ (ok (answered cleared), cleared.1)
unfolding remove_volume_step ◌>>=◌ remove_if_running changed_since_copy changed_from get list_cmp
    reread rm_unless split_once_text take_while is_ascii_hexdigit text_eq
clear_succeeds = refl

removed_word : answered cleared ≡ codes "removed 0f3a"
unfolding remove_volume_step ◌>>=◌ remove_if_running changed_since_copy changed_from get list_cmp
    reread rm_unless split_once_text take_while is_ascii_hexdigit text_eq
removed_word = refl

remove_volume_step-Outcome_example : Outcome server cx (codes "0f3a") running cleared.1
remove_volume_step-Outcome_example =
    remove_volume_step-Outcome server cx (codes "0f3a") running (answered cleared) cleared.1
      clear_succeeds

-- A container that does not run keeps its volume.
kept_word :
    answered (remove_volume_step server cx (codes "0f3a") stopped)
    ≡ codes "kept 0f3a: container is not running"
unfolding remove_volume_step ◌>>=◌ remove_if_running
kept_word = refl
