-- ===== src/Safefs/Succeeds.antt =====
-- The operations on files succeed if no system call fails and the directory has what they need.
use unraid.Safefs.Changed.{put_node-Changed, replaced, Changed, node_of}
use unraid.Text.{Text}
use unraid.Safefs.{
  unlink_call, write_call, stat_call, create_call, rename_call, replaceable, regular, open_call,
  temp_name, put_node, call, is_component, replace_file, read_file, rename_over, component,
  remove_file, create_file, Folder, Call, Faults,
}
use unraid.Effects.{bind_step, ask_state, ◌>>◌, ◌>>=◌}
use unraid.Base.{refl, Bool, ℕ, List, Option, ◌≡◌, ok, true, false}
use unraid.Order.{list_ord, nat_ord}
use unraid.Base.{none, some}

replaceable-ok :
    (name : Text) (d : Folder) (o : Option (List ℕ))
    → d name ≡ node_of o
    → (ask_state >>= λ d. replaceable name (d name)) d ≡ (ok tt, d)
unfolding ◌>>=◌
replaceable-ok name d none h = rw h refl
replaceable-ok name d (some content) h = rw h refl

module _ (f : Faults) (quiet : (c : Call) → f.fails c ≡ false) where
  pub read_file-succeeds :
      (name : Text) (d : Folder) (o : Option (List ℕ))
      → is_component name ≡ true
      → d name ≡ node_of o
      → read_file f name d ≡ (ok o, d)
  unfolding read_file component ◌>>=◌
  read_file-succeeds name d none c h = rw c (rw (quiet (open_call name)) (rw h refl))
  read_file-succeeds name d (some content) c h = rw c (rw (quiet (open_call name)) (rw h refl))

  create_file-succeeds :
      (name : Text) (content : List ℕ) (d : Folder)
      → is_component name ≡ true
      → d name ≡ none
      → create_file f name content d ≡ (ok tt, put_node name (some (regular content)) d)
  unfolding create_file component ◌>>=◌
  create_file-succeeds name content d c h =
      rw c (rw (quiet (create_call name)) (rw h (rw h (rw (quiet (write_call name)) refl))))

  starts :
      (name : Text) (c : Call) (d : Folder)
      → is_component name ≡ true
      → (component name >> call f c) d ≡ (ok tt, d)
  unfolding component ◌>>=◌
  starts name c d h = rw h (rw (quiet c) refl)

  renames :
      (temp name : Text) (content : List ℕ) (d : Folder)
      → rename_over f temp name content d
        ≡ (ok tt, put_node name (some (regular content)) (put_node temp none d))
  unfolding rename_over ◌>>=◌
  renames temp name content d = rw (quiet (rename_call name)) refl

  pub replace_file-succeeds :
      (suffix name : Text) (content : List ℕ) (d : Folder) (o : Option (List ℕ))
      → is_component name ≡ true
      → is_component (temp_name name suffix) ≡ true
      → d name ≡ node_of o
      → d (temp_name name suffix) ≡ none
      → (d' : Folder) × (replace_file f suffix name content d ≡ (ok tt, d'))
  unfolding replace_file
  replace_file-succeeds suffix name content d o c k h free =
      let temp = temp_name name suffix in
      let made = put_node temp (some (regular content)) d in
      (
        replaced temp name content d,
        bind_step _ (λ _. rename_over f temp name content) d tt made _
            (bind_step _ (λ _. create_file f temp content) d tt d _
              (bind_step _ (λ _. ask_state >>= λ d. replaceable name (d name)) d tt d _
                (starts name (stat_call name) d c) (replaceable-ok name d o h))
              (create_file-succeeds temp content d k free))
            (renames temp name content made),
      )

  pub remove_file-succeeds :
      (name : Text) (d : Folder) (o : Option (List ℕ))
      → is_component name ≡ true
      → d name ≡ node_of o
      → (b : Bool) × (d' : Folder) × (remove_file f name d ≡ (ok b, d')) × Changed name none d d'
  unfolding remove_file component ◌>>=◌
  remove_file-succeeds name d none c h = (
    false,
    d,
    rw c (rw (quiet (stat_call name)) (rw h refl)),
    record { at = h; elsewhere = λ n _. refl },
  )
  remove_file-succeeds name d (some content) c h = (
    true,
    put_node name none d,
    rw c (rw (quiet (stat_call name)) (rw h (rw (quiet (unlink_call name)) refl))),
    put_node-Changed name none d,
  )
