-- ===== src/Adopt/Tests.antt =====
-- The steps of an adopt on a small host, and what the theorems say of them.
use unraid.Spec.{default_spec}
use unraid.Order.{list_ord, nat_ord}
use unraid.Adopt.Complete.{apply_complete}
use unraid.Adopt.Rollback.{
  restore_template, leave_exposed, remove_copy, each, try_note, start_container, ◌⨾◌, roll_back,
}
use unraid.Adopt.Refines.{apply-refines}
use unraid.Adopt.Loop.{give_up, apply_from, apply}
use unraid.Adopt.Undo.{outcomes, steps_of, apply_of, all_ran, run_steps}
use unraid.Adopt.Apply.{
  manifest_digest, note_manifest, note_copy, track, mark, State, Runner, Act, ApplyCtx,
}
use unraid.Adopt.{
  priv_remove_copy, priv_restore_template, priv_expose_copy, expose_copy, priv_write_template,
  priv_copy_volume, write_template, priv_rebuild, ensure_stopped, copy_volume, rebuild, stop,
  PrivilegedOp, Step,
}
use unraid.Base.{refl, ◌∷◌, ◌++◌, ◌⊎◌, inl, ◌≡◌, inr, [], List, none, ok, err, true, false}
use unraid.Text.{split_once_text, text_eq, contains, Text, codes}

-- A host that lists what it was asked to do, and refuses to rebuild if it is told to.
abbrev Host : Type 0
Host = List (List Text ⊎ PrivilegedOp)

abbrev ask : PrivilegedOp → Act Host Text
ask op w = (ok (codes "done"), w ++ inr op ∷ [])

abbrev call : List Text → Act Host Text
call args w = (ok (codes "done"), w ++ inl args ∷ [])

abbrev on_host : Act Host Text → Act (State Host) Text
on_host act s = let (res, w) = act s.host in (res, record s { host = w })

abbrev run_one : Step → ApplyCtx → Act (State Host) Text
run_one stop cx = on_host (call (codes "stop" ∷ cx.name ∷ []))
run_one (copy_volume v suffix to) cx = on_host (ask (priv_copy_volume cx.name v suffix cx.nonce))
run_one (expose_copy suffix) cx = on_host (ask (priv_expose_copy cx.name suffix cx.nonce))
run_one (write_template xml) cx = on_host (ask (priv_write_template cx.name xml cx.run_id))
run_one rebuild cx = on_host (ask (priv_rebuild cx.name))
run_one ensure_stopped cx = λ s. (err (codes "it runs"), s)
run_one _ cx = λ s. (ok (codes "done"), s)

abbrev runner : Runner Host
runner = record {
  ops = record {
    docker = call;
    inspect_container = λ name w. (err (codes "no such container"), w);
    inspect_image = λ id w. (err (codes "no such image"), w);
    inspect_all = λ w. (ok [], w);
    privileged = ask;
    decode_volumes = λ t. err (codes "no json");
  };
  run_step = run_one;
}

abbrev pbs : ApplyCtx
pbs = record {
  tool = codes "adopt";
  name = codes "pbs";
  run_id = codes "20260101-000000-ab";
  nonce = codes "n0";
  was_running = true;
  autostart_before = false;
  had_template = false;
  original = default_spec;
  conversions = [];
  redactor = λ t. t;
  masks = record { mask = λ k v. v; mask_label = λ k v. v; mask_cmd = λ ws. ws };
}

abbrev at_first : State Host
at_first = record { host = []; state = record { manifests = []; created = []; stopped = none } }

-- A container that runs again before the rebuild.
abbrev restarted : List Step
restarted =
    stop
    ∷ copy_volume (codes "v1") (codes "data") (codes "/mnt/user/appdata/pbs/data")
    ∷ copy_volume (codes "v2") (codes "logs") (codes "/mnt/user/appdata/pbs/logs")
    ∷ write_template (codes "<Container/>")
    ∷ expose_copy (codes "logs")
    ∷ ensure_stopped
    ∷ rebuild
    ∷ []

restarted_calls :
    (apply runner pbs at_first restarted).1.host
    ≡ inl (codes "stop" ∷ codes "pbs" ∷ [])
      ∷ inr (priv_copy_volume (codes "pbs") (codes "v1") (codes "data") (codes "n0"))
      ∷ inr (priv_copy_volume (codes "pbs") (codes "v2") (codes "logs") (codes "n0"))
      ∷ inr (priv_write_template (codes "pbs") (codes "<Container/>") pbs.run_id)
      ∷ inr (priv_expose_copy (codes "pbs") (codes "logs") (codes "n0"))
      ∷ inr (priv_restore_template (codes "pbs") pbs.run_id)
      ∷ inr (priv_remove_copy (codes "pbs") (codes "data") (codes "n0"))
      ∷ inl (codes "start" ∷ codes "pbs" ∷ [])
      ∷ []
unfolding apply apply_from give_up roll_back mark track ◌⨾◌ start_container try_note each contains
    text_eq remove_copy leave_exposed restore_template note_copy note_manifest manifest_digest
    split_once_text
restarted_calls = refl

apply-refines_example :
    apply runner pbs at_first restarted
    ≡ apply_of runner pbs (run_steps runner pbs at_first restarted)
apply-refines_example = apply-refines runner pbs at_first restarted

-- A container that runs after the rebuild.
abbrev late : List Step
late = rebuild ∷ ensure_stopped ∷ []

abbrev rebuilt : State Host
rebuilt = record at_first { host = inr (priv_rebuild (codes "pbs")) ∷ [] }

late_stays : (apply runner pbs at_first late).1 ≡ rebuilt
unfolding apply apply_from give_up mark track note_copy
late_stays = refl

abbrev quick : List Step
quick = stop ∷ rebuild ∷ []

abbrev both : List (Step × Text)
both = (stop, codes "done") ∷ (rebuild, codes "done") ∷ []

abbrev adopted : State Host
adopted = record at_first {
  host = inl (codes "stop" ∷ codes "pbs" ∷ []) ∷ inr (priv_rebuild (codes "pbs")) ∷ [];
}

apply_complete_example :
    (done : List (Step × Text)) × (run_steps runner pbs at_first quick ≡ all_ran done adopted)
    × (steps_of done ≡ quick)
    × (outcomes pbs both ≡ outcomes pbs done)
unfolding apply apply_from track note_copy mark
apply_complete_example = apply_complete runner pbs at_first quick (outcomes pbs both) adopted refl
