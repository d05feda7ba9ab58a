-- ===== src/Order.antt =====
-- Total orders, as the keys of `BTreeMap` and `BTreeSet` need, and the derived ones of the keys
-- that the program uses: numbers, texts, pairs, options.
use Prim.Native.Nat.{compare, Ordering, lt, eq, gt}
use unraid.Base.{List, ℕ, ◌≡◌, refl, [], ◌∷◌, arith}

pub record Ord {ℓ} (A : Type ℓ) : Type ℓ where
  pub cmp : A → A → Ordering
  pub cmp_eq : (a b : A) → cmp a b ≡ eq → a ≡ b
  pub cmp_refl : (a : A) → cmp a a ≡ eq
  pub cmp_trans : (a b c : A) → cmp a b ≡ lt → cmp b c ≡ lt → cmp a c ≡ lt
  pub cmp_flip : (a b : A) → cmp a b ≡ gt → cmp b a ≡ lt

-- `Ordering::then`
abbrev pub and_then : Ordering → Ordering → Ordering
and_then lt o = lt
and_then gt o = gt
and_then eq o = o

pub nat_trans : (a b c : ℕ) → compare a b ≡ lt → compare b c ≡ lt → compare a c ≡ lt
nat_trans a b c h k = ground arith

pub nat_eq : (a b : ℕ) → compare a b ≡ eq → a ≡ b
nat_eq a b h = ground arith

pub nat_refl : (a : ℕ) → compare a a ≡ eq
nat_refl a = ground arith

pub nat_flip : (a b : ℕ) → compare a b ≡ gt → compare b a ≡ lt
nat_flip a b h = ground arith

instance abbrev pub nat_ord : Ord ℕ
nat_ord = record {
  cmp = compare;
  cmp_eq = nat_eq;
  cmp_refl = nat_refl;
  cmp_trans = nat_trans;
  cmp_flip = nat_flip;
}

-- The lexicographic order. On texts it goes by code points, which is also the order of their
-- UTF-8 bytes; on lists of one length it is the derived order of a record.
module _ {ℓ} {A : Type ℓ} ⦃o : Ord A⦄ where
  unfoldable pub list_cmp : List A → List A → Ordering
  list_cmp [] [] = eq
  list_cmp [] (_ ∷ _) = lt
  list_cmp (_ ∷ _) [] = gt
  list_cmp (a ∷ s) (b ∷ t) = and_then (o.cmp a b) (list_cmp s t)

  pub list_eq : (s t : List A) → list_cmp s t ≡ eq → s ≡ t
  unfolding list_cmp
  list_eq [] [] h = refl
  list_eq [] (_ ∷ _) h = cc
  list_eq (_ ∷ _) [] h = cc
  list_eq (a ∷ s) (b ∷ t) h = ground (arith, o.cmp_eq a b, list_eq s t)

  pub list_refl : (s : List A) → list_cmp s s ≡ eq
  unfolding list_cmp
  list_refl [] = refl
  list_refl (a ∷ s) = ground (arith, o.cmp_refl a, list_refl s)

  pub list_trans : (s t u : List A) → list_cmp s t ≡ lt → list_cmp t u ≡ lt → list_cmp s u ≡ lt
  unfolding list_cmp
  list_trans [] [] u h k = cc
  list_trans [] (_ ∷ _) [] h k = cc
  list_trans [] (_ ∷ _) (_ ∷ _) h k = refl
  list_trans (_ ∷ _) [] u h k = cc
  list_trans (_ ∷ _) (_ ∷ _) [] h k = cc
  list_trans (a ∷ s) (b ∷ t) (c ∷ u) h k =
      ground (arith, o.cmp_trans a b c, o.cmp_eq a b, o.cmp_eq b c, list_trans s t u)

  pub list_flip : (s t : List A) → list_cmp s t ≡ gt → list_cmp t s ≡ lt
  unfolding list_cmp
  list_flip [] [] h = cc
  list_flip [] (_ ∷ _) h = cc
  list_flip (_ ∷ _) [] h = refl
  list_flip (a ∷ s) (b ∷ t) h =
      ground (arith, o.cmp_flip a b, o.cmp_eq a b, o.cmp_refl b, list_flip s t)

  instance abbrev pub list_ord : Ord (List A)
  list_ord = record {
    cmp = list_cmp;
    cmp_eq = list_eq;
    cmp_refl = list_refl;
    cmp_trans = list_trans;
    cmp_flip = list_flip;
  }

-- The order of the keys that stand for the values of a type.
abbrev pub keyed {ℓ κ} :
    {A : Type ℓ} {B : Type κ} ⦃o : Ord A⦄ (key : B → A)
    → ((x y : B) → key x ≡ key y → x ≡ y)
    → Ord B
keyed ⦃o⦄ key inj = record {
  cmp = λ x y. o.cmp (key x) (key y);
  cmp_eq = λ x y h. inj x y (o.cmp_eq (key x) (key y) h);
  cmp_refl = λ x. o.cmp_refl (key x);
  cmp_trans = λ x y z. o.cmp_trans (key x) (key y) (key z);
  cmp_flip = λ x y. o.cmp_flip (key x) (key y);
}
