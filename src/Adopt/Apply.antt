-- ===== src/Adopt/Apply.antt =====
-- src/docker_adopt/mod.rs: `apply`, which runs the steps and rolls back or asks for a recovery.
use unraid.Spec.Diff.{Masks}
use unraid.Ownership.{Conversion}
use unraid.Spec.{RunSpec}
use unraid.Inspect.{ImageInspect, ContainerInspect, VolumeInspect}
use unraid.Adopt.{
  stop, rebuild, expose_copy, target, write_template, copy_into_volume, set_autostart, action,
  PrivilegedOp, copy_volume, Step,
}
use unraid.Base.{
  ◌==◌, length, none, some, map, if◌then◌else◌, ◌∷◌, false, true, Option, Bool, ℕ, Result, List,
  ◌++◌, [],
}
use unraid.Text.{Text, codes, join, split_once_text, is_ascii_hexdigit}
use unraid.Map.{Map, insert}
use unraid.Order.{list_ord, nat_ord}

-- `masks` is what `redact` masks with. The field `state` stands beside the host in `State`.
pub record ApplyCtx : Type 0 where
  pub tool : Text
  pub name : Text
  pub run_id : Text
  pub nonce : Text
  pub was_running : Bool
  pub autostart_before : Bool
  pub had_template : Bool
  pub original : RunSpec
  pub conversions : List Conversion
  pub redactor : Text → Text
  pub masks : Masks

pub record ApplyState : Type 0 where
  pub manifests : Map Text Text
  pub created : List (Text × Text)
  pub stopped : Option (Text × Text)

-- The host and what the run has learned of it.
pub record State (W : Type 0) : Type 0 where
  pub host : W
  pub state : ApplyState

-- An effect on the host, and what it answers. An error is its text.
abbrev pub Act : Type 0 → Type 0 → Type 0
Act W A = W → Result Text A × W

-- The trait `HostOps`, with the decoder of docker's JSON.
pub record HostOps (W : Type 0) : Type 0 where
  pub docker : List Text → Act W Text
  pub inspect_container : Text → Act W ContainerInspect
  pub inspect_image : Text → Act W ImageInspect
  pub inspect_all : Act W (List ContainerInspect)
  pub privileged : PrivilegedOp → Act W Text
  pub decode_volumes : Text → Result Text (List VolumeInspect)

-- The host, and `run_step` on it.
pub record Runner (W : Type 0) : Type 0 where
  pub ops : HostOps W
  pub run_step : Step → ApplyCtx → Act (State W) Text

pub record StepOutcome : Type 0 where
  pub action : Text
  pub target : Text
  pub ok_ : Bool
  pub detail : Option Text

-- The error of `apply`, a text that names a recovery or what was rolled back.
pub data ApplyError : Type 0 where
  needs_recovery rolled_back : Text → ApplyError

abbrev manifest_tag : Text
manifest_tag = codes "content manifest sha256:"

unfoldable pub take_while : (ℕ → Bool) → Text → Text
take_while p [] = []
take_while p (c ∷ t) = if p c then c ∷ take_while p t else []

unfoldable pub manifest_digest : Text → Option Text
manifest_digest detail = elim (split_once_text manifest_tag detail) [
  | none ↦ none
  | some (_, rest) ↦
      let d = take_while is_ascii_hexdigit rest in if length d == 64 then some d else none
]

-- The variables of the loop of `apply`.
pub record Progress : Type 0 where
  pub done : List StepOutcome
  pub rebuilt : Bool
  pub stopped : Bool
  pub template_written : Bool
  pub autostart_changed : Bool
  pub copies : List Text
  pub exposed : List Text

abbrev pub begun : Progress
begun = record {
  done = [];
  rebuilt = false;
  stopped = false;
  template_written = false;
  autostart_changed = false;
  copies = [];
  exposed = [];
}

-- What is marked before a step runs.
unfoldable pub mark : Progress → Step → Progress
mark p (set_autostart on) = if p.rebuilt then p else record p { autostart_changed = true }
mark p rebuild = record p { rebuilt = true }
mark p _ = p

-- What is marked once it succeeded.
unfoldable pub track : Progress → Step → Progress
track p stop = record p { stopped = true }
track p (write_template xml) = record p { template_written = true }
track p (copy_volume volume suffix to) = record p { copies = p.copies ++ suffix ∷ [] }
track p (expose_copy suffix) = record p { exposed = p.exposed ++ suffix ∷ [] }
track p _ = p

unfoldable pub note_manifest : Text → Text → ApplyState → ApplyState
note_manifest v detail s = elim (manifest_digest detail) [
  | none ↦ s
  | some d ↦ record s { manifests = insert v d s.manifests }
]

unfoldable pub note_copy : Step → Text → ApplyState → ApplyState
note_copy (copy_volume v suffix to) detail s = note_manifest v detail s
note_copy (copy_into_volume v to) detail s = note_manifest v detail s
note_copy _ detail s = s

abbrev pub outcome : ApplyCtx → Step → Text → StepOutcome
outcome cx step detail = record {
  action = action step;
  target = target cx.name cx.run_id step;
  ok_ = true;
  detail = some (cx.redactor detail);
}

abbrev pub finished : ApplyCtx → Progress → Step → Text → Progress
finished cx p step detail =
    let q = track p step in record q { done = q.done ++ outcome cx step detail ∷ [] }

abbrev applied : StepOutcome → Text
applied o = o.action ++ b' ' ∷ o.target

-- The head of the error's text.
unfoldable pub head : ApplyCtx → List StepOutcome → Step → Text → Text
head cx done step e =
    cx.tool
    ++ (codes " failed at `"
        ++ (action step
            ++ (b' '
                ∷ (target cx.name cx.run_id step
                    ++ (codes "`: "
                        ++ (e
                            ++ (codes ". Already applied: ["
                                ++ (join (codes "; ") (map applied done) ++ codes "]"))))))))
