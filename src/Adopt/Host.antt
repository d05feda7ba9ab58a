-- ===== src/Adopt/Host.antt =====
-- src/docker_adopt/host.rs and mod.rs: the host as the steps of an adopt see it.
use unraid.Adopt.{priv_manifest_volume}
use unraid.Spec.Diff.{Message}
use unraid.Inspect.{ContainerInspect}
use unraid.Effects.{◌>>=◌, give, Effect}
use unraid.Text.{text_eq, trim, codes, join, Text, lines}
use unraid.Adopt.Apply.{HostOps, State, Act, manifest_digest, ApplyState}
use unraid.Map.{get, Map}
use unraid.Base.{any, not, Bool, take, ◌++◌, if◌then◌else◌, Option, List, some, ok, [], ◌∷◌}
use unraid.Order.{list_ord, nat_ord}
use unraid.Base.{none}

-- How `{:?}` and the differences of two specs read.
pub record Wording : Type 0 where
  pub debug : Text → Text
  pub difference : Message → Text

-- An effect of a step.
abbrev pub Run : Type 0 → Type 0 → Type 0
Run W A = Effect Text (State W) A

abbrev pub digest_head : Text → Text
digest_head d = take 12 d

abbrev pub run_times : ContainerInspect → Text × Text
run_times c = (c.state.started_at, c.state.finished_at)

-- `ApplyState::new`
unfoldable pub new_state : ContainerInspect → ApplyState
new_state c = record {
  manifests = [];
  created = [];
  stopped = if not c.state.running then some (run_times c) else none;
}

abbrev label_pairs : Map Text Text → List Text
label_pairs [] = []
label_pairs ((k, v) ∷ m) = (k ++ b'=' ∷ v) ∷ label_pairs m

unfoldable pub label_list : Map Text Text → Text
label_list labels = join (codes ", ") (label_pairs labels)

abbrev pub volume_empty_word : Text
volume_empty_word = codes "empty"

-- What the last match of `changed_since_copy` says of the digest that is read now.
unfoldable pub change_of : Text → Text → Option Text → Option Text
change_of copied now none = some (codes "its manifest could not be read: " ++ now)
change_of copied now (some d) =
    if text_eq d copied
    then none
    else some (
        codes "changed since it was copied (manifest "
        ++ (digest_head copied ++ (codes " then, " ++ (digest_head d ++ codes " now)"))))

module _ {W : Type 0} where
  abbrev pub on_host : {A : Type 0} → Act W A → Run W A
  on_host act s = let (res, w) = act s.host in (res, record s { host = w })

  -- `lock(&cx.state)`, to read it and to write it.
  abbrev pub read_state : Run W ApplyState
  read_state s = (ok s.state, s)

  abbrev pub set_stopped : Text × Text → Run W (Unit {0})
  set_stopped times s = (ok tt, record s { state = record s.state { stopped = some times } })

  abbrev pub push_created : Text × Text → Run W (Unit {0})
  push_created v s =
      (ok tt, record s { state = record s.state { created = s.state.created ++ v ∷ [] } })

abbrev pub list_args : Text → List Text
list_args name =
    codes "volume" ∷ codes "ls" ∷ codes "-q" ∷ codes "--filter" ∷ (codes "name=" ++ name) ∷ []

module _ {W : Type 0} (ops : HostOps W) where
  unfoldable pub volume_exists : Text → Run W Bool
  unfolding lines trim
  volume_exists name = do
    out ← on_host (ops.docker (list_args name))
    give (any (λ l. text_eq (trim l) name) (lines out))

  -- The volume is read again as root.
  unfoldable pub reread : Text → Bool → Text → Run W (Option Text)
  unfolding change_of manifest_digest
  reread volume xattrs copied = do
    now ← on_host (ops.privileged (priv_manifest_volume volume xattrs))
    give (change_of copied now (manifest_digest now))

  unfoldable pub changed_from : Text → Bool → Option Text → Run W (Option Text)
  changed_from volume xattrs none = give (some (codes "no verified copy of it was recorded"))
  changed_from volume xattrs (some copied) = reread volume xattrs copied

  -- Why a volume may not be removed.
  unfoldable pub changed_since_copy : Text → Bool → Run W (Option Text)
  changed_since_copy volume xattrs = do
    st ← read_state
    changed_from volume xattrs (get st.manifests volume)
