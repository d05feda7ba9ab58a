-- ===== src/Adopt/Volumes.antt =====
-- src/docker_adopt/mod.rs: the steps of `run_step` that guard, create and remove volumes.
use unraid.Adopt.{priv_volume_empty}
use unraid.Inspect.{VolumeInspect, labels_of}
use unraid.Adopt.Rollback.{inspect_volume}
use unraid.Orphans.{unmounted}
use unraid.Effects.{lift, fail_if, ◌>>◌, fail, ◌>>=◌, give}
use unraid.Adopt.Host.{
  push_created, volume_empty_word, label_list, run_times, read_state, volume_exists,
  changed_since_copy, on_host, Run,
}
use unraid.Adopt.Verify.{says}
use unraid.Ownership.{labels_eq, Conversion}
use unraid.Map.{names_in, keys, add_all, Set, Map}
use unraid.Adopt.Apply.{State, ApplyCtx, ApplyState, HostOps}
use unraid.Text.{text_eq, contains, join, codes, Text}
use unraid.Base.{
  ◌&&◌, not, any, if◌then◌else◌, Bool, ◌++◌, Result, keep, Option, List, map, some, ok, err, true,
  false, [], ◌∷◌,
}
use unraid.Order.{list_ord, nat_ord}
use unraid.Base.{none}

abbrev kept : Text → Text → Text
kept what why = says (codes "kept " ∷ what ∷ codes ": " ∷ why ∷ [])

abbrev listed : List Text → Text
listed ts = says (codes "[" ∷ join (codes ", ") ts ∷ codes "]" ∷ [])

-- What the loop of `RemoveOwnAnonymousVolumes` has done with the volumes.
pub record Walked : Type 0 where
  pub removed : List Text
  pub gone : List Text
  pub changed : List Text

abbrev pub unwalked : Walked
unwalked = record { removed = []; gone = []; changed = [] }

unfoldable pub walk_report : List Text → List Text → Walked → Text
walk_report candidates free w = says (
    codes "removed "
    ∷ listed w.removed
    ∷ codes "; already gone "
    ∷ listed w.gone
    ∷ codes "; kept (still mounted) "
    ∷ listed (keep (λ c. not (contains free c)) candidates)
    ∷ codes "; kept (not proven unchanged) "
    ∷ listed w.changed
    ∷ [])

-- The volumes whose content must not have changed, and whether as conversions.
unfoldable pub sources_of : ApplyState → List Conversion → Set Text
sources_of st cs = add_all (keys st.manifests) (map (λ c. c.old) cs)

abbrev pub converts : List Conversion → Text → Bool
converts cs v = any (λ c. text_eq c.old v) cs

-- The arms of `match at_stop`.
unfoldable pub same_times : Text → Option (Text × Text) → Text × Text → Result Text (Unit {0})
same_times name none now = err (name ++ codes "'s stopped state was never recorded; not rebuilding")
same_times name (some t) now =
    if text_eq t.0 now.0 && text_eq t.1 now.1
    then ok tt
    else err (
        says (
          name
          ∷ codes " ran after its volumes were copied (started "
          ∷ now.0
          ∷ codes ", finished "
          ∷ now.1
          ∷ codes "; "
          ∷ t.0
          ∷ codes " and "
          ∷ t.1
          ∷ codes " when stopped); not rebuilding over the copy"
          ∷ []))

abbrev label_args : Map Text Text → List Text
label_args [] = []
label_args ((k, v) ∷ m) = codes "--label" ∷ (k ++ b'=' ∷ v) ∷ label_args m

abbrev pub create_args : Text → Map Text Text → List Text
create_args volume labels = codes "volume" ∷ codes "create" ∷ (label_args labels ++ volume ∷ [])

module _ {W : Type 0} (ops : HostOps W) (cx : ApplyCtx) where
  abbrev pub docker_rm : Text → Run W Text
  docker_rm volume = on_host (ops.docker (codes "volume" ∷ codes "rm" ∷ volume ∷ []))

  unfoldable pub rm_unless : Text → Option Text → Run W Text
  rm_unless volume (some why) = give (kept volume why)
  rm_unless volume none = do _ ← docker_rm volume; give (codes "removed " ++ volume)

  unfoldable pub remove_if_running : Text → Bool → Run W Text
  remove_if_running volume false = give (kept volume (codes "container is not running"))
  remove_if_running volume true = do why ← changed_since_copy ops volume false; rm_unless volume why

  unfoldable pub remove_volume_step : Text → Run W Text
  remove_volume_step volume = do
    c ← on_host (ops.inspect_container cx.name)
    remove_if_running volume c.state.running

  -- One volume of the loop, behind the test that it exists.
  unfoldable pub walk_changed : Walked → Text → Option Text → Run W Walked
  walk_changed w v (some why) =
      give (record w { changed = w.changed ++ says (v ∷ codes " (" ∷ why ∷ codes ")" ∷ []) ∷ [] })
  walk_changed w v none = do _ ← docker_rm v; give (record w { removed = w.removed ++ v ∷ [] })

  unfoldable pub walk_existing : Walked → Text → Bool → Run W Walked
  walk_existing w v false = give (record w { gone = w.gone ++ v ∷ [] })
  walk_existing w v true = do why ← changed_since_copy ops v true; walk_changed w v why

  unfoldable pub walk_one : Walked → Text → Run W Walked
  walk_one w v = do exists ← volume_exists ops v; walk_existing w v exists

  -- The loop, with what it has done when it fails.
  unfoldable pub walk : Walked → List Text → State W → (Result Text (Unit {0}) × Walked) × State W
  walk w [] s = ((ok tt, w), s)
  walk w (v ∷ vs) s =
      let (res, s') = walk_one w v s in
      elim res [ err e ↦ ((err e, w), s') | ok w' ↦ walk w' vs s' ]

  abbrev pub walk_end : List Text → List Text → Result Text (Unit {0}) → Walked → Result Text Text
  walk_end candidates free (ok _) w = ok (walk_report candidates free w)
  walk_end candidates free (err e) w =
      err (says (e ∷ codes "; already removed " ∷ listed w.removed ∷ []))

  abbrev pub walk_all : List Text → List Text → Run W Text
  walk_all candidates free s =
      let (res, s') = walk unwalked free s in (walk_end candidates free res.0 res.1, s')

  unfoldable pub remove_own_step : List Text → Run W Text
  remove_own_step candidates = do
    containers ← on_host ops.inspect_all
    walk_all candidates (unmounted candidates containers)

  abbrev pub refuse_changed : Text → Option Text → Run W (Unit {0})
  refuse_changed v none = give tt
  refuse_changed v (some why) =
      fail
        (says (codes "volume " ∷ v ∷ codes " " ∷ why ∷ codes "; not rebuilding over the copy" ∷ []))

  unfoldable pub all_unchanged : Set Text → Run W (Unit {0})
  all_unchanged [] = give tt
  all_unchanged ((v, _) ∷ vs) = do
    why ← changed_since_copy ops v (converts cx.conversions v)
    refuse_changed v why
    all_unchanged vs

  unfoldable pub ensure_stopped_step : Run W Text
  ensure_stopped_step = do
    c ← on_host (ops.inspect_container cx.name)
    fail_if c.state.running
        (cx.name ++ codes " started after its volumes were copied; not rebuilding over the copy")
    st ← read_state
    lift (same_times cx.name st.stopped (run_times c))
    all_unchanged (sources_of st cx.conversions)
    give (
        says (
          codes "stopped since the copy; "
          ∷ listed (names_in (sources_of st cx.conversions))
          ∷ codes " unchanged"
          ∷ []))

  -- The checks of a volume that has been created, and its record.
  unfoldable pub claim_volume : Text → Map Text Text → VolumeInspect → Run W Text
  claim_volume volume labels v = do
    fail_if (not (labels_eq (labels_of v) labels)) (
        says (
          codes "volume "
          ∷ volume
          ∷ codes " has labels ["
          ∷ label_list (labels_of v)
          ∷ codes "], not the requested ones; it is not this run's"
          ∷ []))
    empty ← on_host (ops.privileged (priv_volume_empty volume))
    fail_if (not (text_eq empty volume_empty_word))
        (says (codes "volume " ∷ volume ∷ codes " is not empty; it is not this run's" ∷ []))
    push_created (volume, v.created_at)
    give (
        says (
          codes "created "
          ∷ volume
          ∷ codes " at "
          ∷ v.created_at
          ∷ codes " with "
          ∷ label_list labels
          ∷ []))

  unfoldable pub create_volume_step : Text → Map Text Text → Run W Text
  create_volume_step volume labels = do
    exists ← volume_exists ops volume
    fail_if exists (says (codes "volume " ∷ volume ∷ codes " already exists" ∷ []))
    _ ← on_host (ops.docker (create_args volume labels))
    v ← on_host (inspect_volume ops volume)
    claim_volume volume labels v
