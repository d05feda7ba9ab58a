-- ===== src/Adopt/Rollback.antt =====
-- src/docker_adopt/mod.rs: what `apply` rolls back when a step fails before the rebuild.
use unraid.Order.{list_ord, nat_ord}
use unraid.Adopt.{priv_set_autostart, priv_restore_template, priv_remove_copy, appdata}
use unraid.Inspect.{VolumeInspect}
use unraid.Adopt.Apply.{HostOps, ApplyCtx, Act, Progress, Runner, State}
use unraid.Base.{
  ◌>>=◌, not, if◌then◌else◌, ◌∷◌, ◌&&◌, keep, Result, ◌++◌, Bool, List, [], ok, err, true, false,
}
use unraid.Text.{Text, codes, contains, text_eq}

-- Effects that each leave a note for the error.
abbrev pub Notes : Type 0 → Type 0
Notes W = State W → List Text × State W

-- The closure `note`.
unfoldable pub note : Text → Result Text Text → Text
note what (ok _) = what
note what (err e) = what ++ (codes " FAILED (" ++ (e ++ codes ")"))

abbrev named : Text → List VolumeInspect → Result Text VolumeInspect
named name [] = err (codes "volume " ++ (name ++ codes " not found"))
named name (v ∷ vs) = if text_eq v.name name then ok v else named name vs

abbrev pub not_ours : Text
not_ours = codes "it is no longer the volume this run created; kept"

-- The copies that were not exposed.
abbrev pub staged : Progress → List Text
staged p = keep (λ c. not (contains p.exposed c)) p.copies

module _ {W : Type 0} where
  unfoldable pub try_note : Text → Act W Text → Notes W
  try_note what act s = let (r, w) = act s.host in (note what r ∷ [], record s { host = w })

  infixr 30 ◌⨾◌
  unfoldable pub ◌⨾◌ : Notes W → Notes W → Notes W
  (f ⨾ g) s = let (a, s') = f s in let (b, s'') = g s' in (a ++ b, s'')

  abbrev pub nothing : Notes W
  nothing s = ([], s)

  abbrev pub when : Bool → Notes W → Notes W
  when true act = act
  when false act = nothing

  unfoldable pub each : {A : Type 0} → (A → Notes W) → List A → Notes W
  each act [] = nothing
  each act (x ∷ xs) = act x ⨾ each act xs

  unfoldable pub inspect_volume : HostOps W → Text → Act W VolumeInspect
  inspect_volume ops name w =
      let (out, w') = ops.docker (codes "volume" ∷ codes "inspect" ∷ name ∷ []) w in
      (out >>= (λ o. ops.decode_volumes o >>= named name), w')

  -- Removing a created volume, if it is still the one this run created.
  unfoldable pub remove_volume_if : Runner W → Text → Text → Act W VolumeInspect → Act W Text
  remove_volume_if r v at look w =
      let (seen, w') = look w in
      elim seen [
        | err e ↦ (err e, w')
        | ok now ↦
            if text_eq now.created_at at
            then r.ops.docker (codes "volume" ∷ codes "rm" ∷ v ∷ []) w'
            else (err not_ours, w')
      ]

  unfoldable pub restore_template : Runner W → ApplyCtx → Notes W
  restore_template r cx =
      try_note (codes "restore template")
        (r.ops.privileged (priv_restore_template cx.name cx.run_id))

  unfoldable pub restore_autostart : Runner W → ApplyCtx → Notes W
  restore_autostart r cx =
      try_note (codes "restore autostart")
        (r.ops.privileged (priv_set_autostart cx.name cx.autostart_before))

  unfoldable pub leave_exposed : ApplyCtx → Text → Notes W
  leave_exposed cx suffix s = (
    (codes "left exposed copy "
          ++ (appdata ++ b'/' ∷ (cx.name ++ b'/' ∷ (suffix ++ codes " in place"))))
        ∷ [],
    s,
  )

  unfoldable pub remove_copy : Runner W → ApplyCtx → Text → Notes W
  remove_copy r cx suffix =
      try_note (codes "remove copy " ++ suffix)
        (r.ops.privileged (priv_remove_copy cx.name suffix cx.nonce))

  unfoldable pub remove_created : Runner W → Text × Text → Notes W
  remove_created r (v, at) =
      try_note (codes "remove volume " ++ v) (remove_volume_if r v at (inspect_volume r.ops v))

  unfoldable pub start_container : Runner W → ApplyCtx → Notes W
  start_container r cx =
      try_note (codes "start container") (r.ops.docker (codes "start" ∷ cx.name ∷ []))

  unfoldable pub roll_back : Runner W → ApplyCtx → Progress → Notes W
  roll_back r cx p =
      when p.template_written (restore_template r cx)
      ⨾ when p.autostart_changed (restore_autostart r cx)
      ⨾ each (leave_exposed cx) p.exposed
      ⨾ each (remove_copy r cx) (staged p)
      ⨾ (λ s. each (remove_created r) s.state.created s)
      ⨾ when (p.stopped && cx.was_running) (start_container r cx)
