-- ===== src/Safefs/Kept.antt =====
-- What an operation on files leaves as it is.
use unraid.Safefs.Changed.{put_node-Changed}
use unraid.Text.{Text}
use unraid.Effects.{fail, ◌>>◌, ask_state, fail_if, Effect, ◌>>=◌}
use unraid.Safefs.{
  call_failed, special, unlink_call, directory, write_call, create_call, call, stat_call,
  rename_call, set_node, temp_name, regular, write_new, content_of, not_component, absent,
  replaceable, FileEffect, Folder, FileError, Call, is_component, Node, open_call, Faults,
  create_file, replace_file, component, rename_over, read_file,
}
use unraid.Base.{
  ap, refl, ◌∙◌, Bool-cases, ℕ, sym, Result-cases, ◌≡◌, ◌≢◌, List, Option, Bool, not, err, true,
  false, inl, inr,
}
use unraid.Order.{list_ord, nat_ord}
use unraid.Base.{none, some}

-- Whatever the effect answers, it leaves what is under a name.
abbrev pub Keeps : {E A : Type 0} → Text → Effect E Folder A → Type 0
Keeps n act = (d : Folder) → (act d).1 n ≡ d n

-- The effect leaves what is under a name if it fails.
abbrev pub KeepsOnError : {E A : Type 0} → Text → Effect E Folder A → Type 0
KeepsOnError {E = E} n act = (d : Folder) (e : E) (d' : Folder) → act d ≡ (err e, d') → d' n ≡ d n

pub Keeps-bind :
    {E A B : Type 0} (n : Text) (act : Effect E Folder A) (next : A → Effect E Folder B)
    → Keeps n act
    → ((a : A) → Keeps n (next a))
    → Keeps n (act >>= next)
unfolding ◌>>=◌
Keeps-bind n act next h k d = elim (Result-cases (act d).0) [
  | inl (a, e) ↦ rw (e, ◌>>=◌) (k a (act d).1 ∙ h d)
  | inr (m, e) ↦ rw (e, ◌>>=◌) (h d)
]

pub KeepsOnError-bind :
    {E A B : Type 0} (n : Text) (act : Effect E Folder A) (next : A → Effect E Folder B)
    → Keeps n act
    → ((a : A) → KeepsOnError n (next a))
    → KeepsOnError n (act >>= next)
unfolding ◌>>=◌
KeepsOnError-bind n act next h k d e d' r = elim (Result-cases (act d).0) [
  | inl (a, q) ↦ k a (act d).1 e d' (rw (q, ◌>>=◌) at r) ∙ h d
  | inr (m, q) ↦
      let left : (act d).1 ≡ d' = ap (λ x. x.1) (rw (q, ◌>>=◌) at r) in
      sym (ap (λ x. x n) left) ∙ h d
]

pub Keeps-KeepsOnError :
    {E A : Type 0} (n : Text) (act : Effect E Folder A) → Keeps n act → KeepsOnError n act
Keeps-KeepsOnError n act h d e d' r = sym (ap (λ x. x.1 n) r) ∙ h d

Keeps-fail_if : (n : Text) (test : Bool) (e : FileError) → Keeps {A = Unit {0}} n (fail_if test e)
Keeps-fail_if n true e d = refl
Keeps-fail_if n false e d = refl

Keeps-component : (n name : Text) → Keeps n (component name)
unfolding component
Keeps-component n name = Keeps-fail_if n (not (is_component name)) (not_component name)

Keeps-set_node : (n name : Text) (found : Option Node) → n ≢ name → Keeps n (set_node name found)
Keeps-set_node n name found h d = (put_node-Changed name found d).elsewhere n h

Keeps-content_of : (n name : Text) (found : Option Node) → Keeps n (content_of name found)
Keeps-content_of n name none d = refl
Keeps-content_of n name (some (regular _)) d = refl
Keeps-content_of n name (some directory) d = refl
Keeps-content_of n name (some special) d = refl

Keeps-start :
    {A : Type 0} (n : Text) (f : Faults) (name : Text) (c : Call) (act : FileEffect A)
    → Keeps n act
    → Keeps n (component name >> call f c >> act)
Keeps-start n f name c act h =
    Keeps-bind n (component name >> call f c) (λ _. act)
      (Keeps-bind n (component name) (λ _. call f c) (Keeps-component n name)
        (λ _. Keeps-fail_if n (f.fails c) (call_failed c)))
      (λ _. h)

Keeps-ask :
    {A : Type 0} (n name : Text) (act : Option Node → FileEffect A)
    → ((found : Option Node) → Keeps n (act found))
    → Keeps n (ask_state >>= λ d. act (d name))
Keeps-ask n name act h = Keeps-bind n ask_state (λ d. act (d name)) (λ d. refl) (λ d. h (d name))

pub Keeps-read_file : (n : Text) (f : Faults) (name : Text) → Keeps n (read_file f name)
unfolding read_file
Keeps-read_file n f name =
    Keeps-start n f name (open_call name) _
      (Keeps-ask n name (content_of name) (Keeps-content_of n name))

Keeps-absent : (n name : Text) (found : Option Node) → Keeps n (absent name found)
Keeps-absent n name none d = refl
Keeps-absent n name (some _) d = refl

Keeps-replaceable : (n name : Text) (found : Option Node) → Keeps n (replaceable name found)
Keeps-replaceable n name none d = refl
Keeps-replaceable n name (some (regular _)) d = refl
Keeps-replaceable n name (some directory) d = refl
Keeps-replaceable n name (some special) d = refl

Keeps-write_new :
    (n : Text) (f : Faults) (name : Text) (content : List ℕ)
    → n ≢ name
    → Keeps n (write_new f name content)
Keeps-write_new n f name content h d = elim (Bool-cases (f.fails (write_call name))) [
  | inl e ↦ rw e (
      Keeps-bind n (set_node name (some (regular (f.torn name))))
        (λ _. fail (call_failed (write_call name)))
        (Keeps-set_node n name (some (regular (f.torn name))) h) (λ _ _. refl) d)
  | inr e ↦ rw e (Keeps-set_node n name (some (regular content)) h d)
]

pub Keeps-create_file :
    (n : Text) (f : Faults) (name : Text) (content : List ℕ)
    → n ≢ name
    → Keeps n (create_file f name content)
unfolding create_file
Keeps-create_file n f name content h =
    Keeps-bind n _ (λ _. write_new f name content)
      (Keeps-start n f name (create_call name) _
        (Keeps-ask n name (absent name) (Keeps-absent n name)))
      (λ _. Keeps-write_new n f name content h)

rename_over-KeepsOnError :
    (n : Text) (f : Faults) (temp name : Text) (content : List ℕ)
    → n ≢ temp
    → KeepsOnError n (rename_over f temp name content)
unfolding rename_over ◌>>=◌
rename_over-KeepsOnError n f temp name content h d e d' r =
    elim (Bool-cases (f.fails (rename_call name))) [
      | inr q ↦ absurd (cc (rw q at r))
      | inl q ↦ elim (Bool-cases (f.fails (unlink_call temp))) [
        | inl k ↦ sym (ap (λ x. x.1 n) (rw k at (rw q at r)))
        | inr k ↦ sym (ap (λ x. x.1 n) (rw k at (rw q at r))) ∙ Keeps-set_node n temp none h d
      ]
    ]

-- A file whose replacement fails is as it was.
pub replace_file-KeepsOnError :
    (n : Text) (f : Faults) (suffix name : Text) (content : List ℕ)
    → n ≢ temp_name name suffix
    → KeepsOnError n (replace_file f suffix name content)
unfolding replace_file
replace_file-KeepsOnError n f suffix name content h =
    let temp = temp_name name suffix in
    KeepsOnError-bind n _ (λ _. rename_over f temp name content)
      (Keeps-bind n _ (λ _. create_file f temp content)
        (Keeps-start n f name (stat_call name) _
          (Keeps-ask n name (replaceable name) (Keeps-replaceable n name)))
        (λ _. Keeps-create_file n f temp content h))
      (λ _. rename_over-KeepsOnError n f temp name content h)
