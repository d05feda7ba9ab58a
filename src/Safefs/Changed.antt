-- ===== src/Safefs/Changed.antt =====
-- What the operations on files change in the directory, and when they succeed.
use unraid.Text.Laws.{not-text_eq}
use mathlib.Core.Path.{subst}
use unraid.Text.{text_eq_iff, text_eq, text_eq_refl, Text}
use unraid.Effects.{ask_state, bind-inv, ◌>>◌, fail_if-inv, ◌>>=◌}
use unraid.Safefs.{
  stat_call, temp_name, replaceable, replace_file, unlink_call, rename_call, write_call,
  create_call, rename_over, absent, create_file, write_new, special, not_component, directory,
  is_component, call_failed, regular, content_of, open_call, call, FileEffect, Folder, Call, Node,
  Faults, read_file, component, put_node,
}
use unraid.Base.{sym, ◌∙◌, not, ap, refl, Bool-cases, ℕ, ◌≡◌, ◌≢◌, List, Option, ok, inl, inr}
use unraid.Order.{list_ord, nat_ord}
use unraid.Base.{none, some}

-- The directory has `found` under `name`, and is otherwise as it was.
pub record Changed (name : Text) (found : Option Node) (before after : Folder) : Type 0 where
  pub at : after name ≡ found
  pub elsewhere : (n : Text) → n ≢ name → after n ≡ before n

abbrev pub node_of : Option (List ℕ) → Option Node
node_of none = none
node_of (some content) = some (regular content)

pub put_node-Changed :
    (name : Text) (found : Option Node) (d : Folder) → Changed name found d (put_node name found d)
unfolding put_node
put_node-Changed name found d = record {
  at = rw (text_eq_refl name) refl;
  elsewhere = λ n h. rw (not-text_eq n name h) refl;
}

content_of-inv :
    (name : Text) (found : Option Node) (d : Folder) (o : Option (List ℕ)) (d' : Folder)
    → content_of name found d ≡ (ok o, d')
    → (found ≡ node_of o) × (d ≡ d')
content_of-inv name none d o d' h =
    let e : ok none ≡ ok o = ap (λ r. r.0) h in
    let same : none ≡ o = cc e in (ap node_of same, ap (λ r. r.1) h)
content_of-inv name (some (regular content)) d o d' h =
    let e : ok (some content) ≡ ok o = ap (λ r. r.0) h in
    let same : some content ≡ o = cc e in (ap node_of same, ap (λ r. r.1) h)
content_of-inv name (some directory) d o d' h = absurd (cc h)
content_of-inv name (some special) d o d' h = absurd (cc h)

component-inv :
    (name : Text) (d : Folder) (u : Unit {0}) (d' : Folder) → component name d ≡ (ok u, d') → d ≡ d'
unfolding component
component-inv name d u d' h =
    (fail_if-inv (not (is_component name)) (not_component name) d u d' h).1

call-inv :
    (f : Faults) (c : Call) (d : Folder) (u : Unit {0}) (d' : Folder)
    → call f c d ≡ (ok u, d')
    → d ≡ d'
call-inv f c d u d' h = (fail_if-inv (f.fails c) (call_failed c) d u d' h).1

-- The first two calls of an operation leave the directory as it is.
started-inv :
    {A : Type 0} (f : Faults) (name : Text) (c : Call) (act : FileEffect A) (d : Folder) (a : A)
    (d' : Folder)
    → (component name >> call f c >> act) d ≡ (ok a, d')
    → act d ≡ (ok a, d')
unfolding ◌>>=◌
started-inv f name c act d a d' h =
    let (u, t, e, k) = bind-inv (component name >> call f c) (λ _. act) d a d' h in
    let (v, w, e', k') = bind-inv (component name) (λ _. call f c) d u t e in
    let same : d ≡ t = component-inv name d v w e' ∙ call-inv f c w u t k' in rw (sym same) at k

pub read_file-inv :
    (f : Faults) (name : Text) (d : Folder) (o : Option (List ℕ)) (d' : Folder)
    → read_file f name d ≡ (ok o, d')
    → (d name ≡ node_of o) × (d ≡ d')
unfolding read_file ◌>>=◌
read_file-inv f name d o d' h =
    content_of-inv name (d name) d o d'
      (started-inv f name (open_call name) (ask_state >>= λ d. content_of name (d name)) d o d' h)

absent-inv :
    (name : Text) (found : Option Node) (d : Folder) (u : Unit {0}) (d' : Folder)
    → absent name found d ≡ (ok u, d')
    → (found ≡ none) × (d ≡ d')
absent-inv name none d u d' h = (refl, ap (λ r. r.1) h)
absent-inv name (some _) d u d' h = absurd (cc h)

write_new-inv :
    (f : Faults) (name : Text) (content : List ℕ) (d : Folder) (u : Unit {0}) (d' : Folder)
    → write_new f name content d ≡ (ok u, d')
    → put_node name (some (regular content)) d ≡ d'
unfolding ◌>>=◌
write_new-inv f name content d u d' h = elim (Bool-cases (f.fails (write_call name))) [
  | inl e ↦ absurd (cc (rw e at h))
  | inr e ↦ ap (λ r. r.1) (rw e at h)
]

-- A file that is created was not there.
pub create_file-inv :
    (f : Faults) (name : Text) (content : List ℕ) (d : Folder) (u : Unit {0}) (d' : Folder)
    → create_file f name content d ≡ (ok u, d')
    → (d name ≡ none) × (d' ≡ put_node name (some (regular content)) d)
unfolding create_file ◌>>=◌
create_file-inv f name content d u d' h =
    let (v, t, e, k) =
      bind-inv
        (component name >> call f (create_call name) >> (ask_state >>= λ d. absent name (d name)))
        (λ _. write_new f name content) d u d' h in
    let (free, same) =
      absent-inv name (d name) d v t
        (started-inv f name (create_call name) (ask_state >>= λ d. absent name (d name)) d v t e) in
    (free, rw (sym same) at (sym (write_new-inv f name content t u d' k)))

rename_over-inv :
    (f : Faults) (temp name : Text) (content : List ℕ) (d : Folder) (u : Unit {0}) (d' : Folder)
    → rename_over f temp name content d ≡ (ok u, d')
    → put_node name (some (regular content)) (put_node temp none d) ≡ d'
unfolding rename_over ◌>>=◌
rename_over-inv f temp name content d u d' h = elim (Bool-cases (f.fails (rename_call name))) [
  | inl e ↦ elim (Bool-cases (f.fails (unlink_call temp))) [
    | inl g ↦ absurd (cc (rw g at (rw e at h)))
    | inr g ↦ absurd (cc (rw g at (rw e at h)))
  ]
  | inr e ↦ ap (λ r. r.1) (rw e at h)
]

replaceable-inv :
    (name : Text) (found : Option Node) (d : Folder) (u : Unit {0}) (d' : Folder)
    → replaceable name found d ≡ (ok u, d')
    → d ≡ d'
replaceable-inv name none d u d' h = ap (λ r. r.1) h
replaceable-inv name (some (regular _)) d u d' h = ap (λ r. r.1) h
replaceable-inv name (some directory) d u d' h = absurd (cc h)
replaceable-inv name (some special) d u d' h = absurd (cc h)

-- The directory with the named file replaced by way of a temporary one.
abbrev pub replaced : Text → Text → List ℕ → Folder → Folder
replaced temp name content d =
    put_node name (some (regular content))
      (put_node temp none (put_node temp (some (regular content)) d))

-- A temporary file that comes and goes leaves only the named file changed.
swapped :
    (temp name : Text) (content : List ℕ) (d : Folder)
    → d temp ≡ none
    → Changed name (some (regular content)) d (
        put_node name
          (some (regular content))
          (put_node temp none (put_node temp (some (regular content)) d)))
unfolding put_node
swapped temp name content d free = record {
  at = rw (text_eq_refl name) refl;
  elsewhere = λ n h. rw (not-text_eq n name h) (elim (Bool-cases (text_eq n temp)) [
    | inl e ↦ let same : n ≡ temp = (text_eq_iff n temp).0 e in rw e (rw same (sym free))
    | inr e ↦ rw e refl
  ]);
}

replaced-Changed :
    (temp name : Text) (content : List ℕ) (d r t d' : Folder)
    → d ≡ r
    → (r temp ≡ none) × (t ≡ put_node temp (some (regular content)) r)
    → put_node name (some (regular content)) (put_node temp none t) ≡ d'
    → (d temp ≡ none) × Changed name (some (regular content)) d d'
replaced-Changed temp name content d r t d' same (free, made) renamed =
    let free_before : d temp ≡ none = ap (λ x. x temp) same ∙ free in
    let whole : replaced temp name content d ≡ d' =
      ap (replaced temp name content) same
      ∙ ap (λ x. put_node name (some (regular content)) (put_node temp none x)) (sym made)
      ∙ renamed in
    (
      free_before,
      subst (Changed name (some (regular content)) d) whole
          (swapped temp name content d free_before),
    )

pub replace_file-Changed :
    (f : Faults) (suffix name : Text) (content : List ℕ) (d : Folder) (u : Unit {0}) (d' : Folder)
    → replace_file f suffix name content d ≡ (ok u, d')
    → (d (temp_name name suffix) ≡ none) × Changed name (some (regular content)) d d'
unfolding replace_file ◌>>=◌
replace_file-Changed f suffix name content d u d' h =
    let temp = temp_name name suffix in
    let check = ask_state >>= λ d. replaceable name (d name) in
    let start = component name >> call f (stat_call name) >> check in
    let (v, t, e, k) =
      bind-inv (start >> create_file f temp content) (λ _. rename_over f temp name content) d u d'
        h in
    let (w, r, g, j) = bind-inv start (λ _. create_file f temp content) d v t e in
    let checked = started-inv f name (stat_call name) check d w r g in
    replaced-Changed temp name content d r t d' (replaceable-inv name (d name) d w r checked)
      (create_file-inv f temp content r v t j) (rename_over-inv f temp name content t u d' k)
