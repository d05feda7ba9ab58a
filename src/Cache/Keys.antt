-- ===== src/Cache/Keys.antt =====
-- Every key that is there before or after is among those that the check looks at.
use mathlib.Core.Path.{subst}
use unraid.Map.Laws.{contains_key-insert_self, contains_key-insert}
use unraid.Cache.Settled.{get-first}
use unraid.Cache.ReadBack.{all_keys, with_unit, keys}
use unraid.Base.{inr, refl, inl, Bool-cases, [], arith, ◌∷◌, ◌||◌, ◌++◌, ◌⊎◌, List, ◌≡◌, some, true}
use unraid.Text.{text_eq_iff, text_eq_refl, contains, Text, text_eq}
use unraid.Map.{insert, Map, Set, get, contains_key, extend}
use unraid.Order.{list_ord, nat_ord}

contains-append :
    (xs ys : List Text) (k : Text) → contains (xs ++ ys) k ≡ (contains xs k || contains ys k)
unfolding contains
contains-append [] ys k = refl
contains-append (x ∷ xs) ys k = ground (arith, contains-append xs ys k)

contains-keys : (m : Map Text Text) (k v : Text) → get m k ≡ some v → contains (keys m) k ≡ true
unfolding contains get
contains-keys [] k v h = cc h
contains-keys ((j, w) ∷ m) k v h = elim (get-first j w m k v h) [
  | inl (e, _) ↦ rw (e, text_eq_refl k)
  | inr rest ↦ ground (arith, contains-keys m k v rest)
]

contains_key-extend :
    (ks : List Text) (m : Set Text) (k : Text)
    → contains_key m k ≡ true
    → contains_key (extend m (with_unit ks)) k ≡ true
unfolding extend
contains_key-extend [] m k h = h
contains_key-extend (j ∷ ks) m k h =
    contains_key-extend ks (insert j tt m) k (contains_key-insert j tt m k h)

contains_key-with_unit :
    (ks : List Text) (m : Set Text) (k : Text)
    → contains ks k ≡ true
    → contains_key (extend m (with_unit ks)) k ≡ true
unfolding extend contains
contains_key-with_unit [] m k h = cc h
contains_key-with_unit (j ∷ ks) m k h = elim (Bool-cases (text_eq j k)) [
  | inl e ↦ contains_key-extend ks (insert j tt m) k (
      subst (λ i. contains_key (insert j tt m) i ≡ true) ((text_eq_iff j k).0 e)
        (contains_key-insert_self j tt m))
  | inr e ↦ contains_key-with_unit ks (insert j tt m) k (rw e at h)
]

pub contains_key-all_keys :
    (before after : Map Text Text) (k v : Text)
    → (get before k ≡ some v) ⊎ (get after k ≡ some v)
    → contains_key (all_keys before after) k ≡ true
contains_key-all_keys before after k v h =
    contains_key-with_unit (keys before ++ keys after) [] k (elim h [
      | inl b ↦
          ground (arith, contains-append (keys before) (keys after) k, contains-keys before k v b)
      | inr a ↦
          ground (arith, contains-append (keys before) (keys after) k, contains-keys after k v a)
    ])
