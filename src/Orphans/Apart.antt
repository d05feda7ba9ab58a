-- ===== src/Orphans/Apart.antt =====
-- The folders of a container's volumes are apart.
use unraid.Text.Decimals.{decimal-injective}
use unraid.Text.Numbers.{decimal}
use unraid.Map.Laws.{contains_key-insert_self, not-contains_key-insert}
use unraid.Map.Pigeonhole.{AreDistinct, length-le}
use unraid.Map.{insert, contains_key, Set, add}
use unraid.Text.{Text}
use unraid.Orphans.Suffixes.{
  cons_all, suffix_base, free_candidate, candidate, appdata_suffixes, suffixes_from,
}
use unraid.Base.{
  ◌∙◌, refl, ap, sym, zero, ltb, Option-cases, All, arith, Bool-cases, ◌<◌, ◌+◌, ◌≤◌, Option, ◌≢◌,
  length, List, ◌++◌, suc, ◌≡◌, ℕ, some, true, false, [], ◌∷◌, inl, inr,
}
use mathlib.Core.Path.{subst}
use unraid.Order.{list_ord, nat_ord}
use unraid.Base.{none}

append-cancel : (s t u : Text) → s ++ t ≡ s ++ u → t ≡ u
append-cancel [] t u h = h
append-cancel (c ∷ s) t u h = append-cancel s t u (cc h)

append-longer : (s : Text) (c : ℕ) (t : Text) → s ≢ s ++ c ∷ t
append-longer [] c t h = absurd (cc h)
append-longer (d ∷ s) c t h = append-longer s c t (cc h)

candidate-injective :
    (base : Text) (m n : ℕ) → 1 ≤ m → 1 ≤ n → candidate base m ≡ candidate base n → m ≡ n
unfolding candidate
candidate-injective base m n p q h = elim (Bool-cases (ltb m 2)) [
  | inl a ↦ elim (Bool-cases (ltb n 2)) [
    | inl b ↦ ground (arith, a, b)
    | inr b ↦ absurd (append-longer base b'-' (decimal n) (rw (a, b) at h))
  ]
  | inr a ↦ elim (Bool-cases (ltb n 2)) [
    | inl b ↦ absurd (append-longer base b'-' (decimal m) (sym (rw (a, b) at h)))
    | inr b ↦
        let same : base ++ b'-' ∷ decimal m ≡ base ++ b'-' ∷ decimal n = rw (a, b) at h in
        decimal-injective m n (cc (append-cancel base _ _ same))
  ]
]

-- The candidates that the loop looks at.
looked_at : ℕ → Text → ℕ → List Text
looked_at zero base n = []
looked_at (suc fuel) base n = candidate base n ∷ looked_at fuel base (n + 1)

free_candidate-none :
    (fuel : ℕ) (used : Set Text) (base : Text) (n : ℕ)
    → free_candidate fuel used base n ≡ none
    → All (λ x. contains_key used x ≡ true) (looked_at fuel base n)
unfolding free_candidate looked_at
free_candidate-none zero used base n e = tt
free_candidate-none (suc fuel) used base n e =
    elim (Bool-cases (contains_key used (candidate base n))) [
      | inl h ↦ (h, free_candidate-none fuel used base (n + 1) (rw h at e))
      | inr h ↦ absurd (cc (rw h at e))
    ]

free_candidate-free :
    (fuel : ℕ) (used : Set Text) (base : Text) (n : ℕ) (cand : Text)
    → free_candidate fuel used base n ≡ some cand
    → contains_key used cand ≡ false
unfolding free_candidate
free_candidate-free zero used base n cand e = absurd (cc e)
free_candidate-free (suc fuel) used base n cand e =
    elim (Bool-cases (contains_key used (candidate base n))) [
      | inl h ↦ free_candidate-free fuel used base (n + 1) cand (rw h at e)
      | inr h ↦
          let same : some (candidate base n) ≡ some cand = rw h at e in
          subst (λ x. contains_key used x ≡ false) (cc same) h
    ]

looked_at-ne :
    (fuel : ℕ) (base : Text) (m n : ℕ)
    → 1 ≤ m
    → m < n
    → All (λ x. x ≢ candidate base m) (looked_at fuel base n)
unfolding looked_at
looked_at-ne zero base m n p q = tt
looked_at-ne (suc fuel) base m n p q = (
  λ same. let e = candidate-injective base n m (omega arith) p same in omega (arith, e),
  looked_at-ne fuel base m (n + 1) p (omega arith),
)

looked_at-AreDistinct :
    (fuel : ℕ) (base : Text) (n : ℕ) → 1 ≤ n → AreDistinct (looked_at fuel base n)
unfolding looked_at
looked_at-AreDistinct zero base n p = tt
looked_at-AreDistinct (suc fuel) base n p = (
  looked_at-ne fuel base n (n + 1) p (omega arith),
  looked_at-AreDistinct fuel base (n + 1) (omega arith),
)

length-looked_at : (fuel : ℕ) (base : Text) (n : ℕ) → length (looked_at fuel base n) ≡ fuel
unfolding looked_at
length-looked_at zero base n = refl
length-looked_at (suc fuel) base n = omega (arith, length-looked_at fuel base (n + 1))

-- With one more round than there are names in use, a candidate is free.
free_candidate-some :
    (used : Set Text) (base : Text) → free_candidate (suc (length used)) used base 1 ≢ none
free_candidate-some used base e =
    let n = suc (length used) in
    let le =
      length-le (looked_at n base 1) used (looked_at-AreDistinct n base 1 (omega arith))
        (free_candidate-none n used base 1 e) in
    omega (arith, le, length-looked_at n base 1)

-- Folders for the volumes, one each, that differ from each other and from those in use.
record Folders (used : Set Text) (vols : List Text) (result : Option (List Text)) : Type 0 where
  pub out : List Text
  pub made : result ≡ some out
  pub one_each : length out ≡ length vols
  pub distinct : AreDistinct out
  pub unused : All (λ x. contains_key used x ≡ false) out

not_first :
    (cand : Text) (used : Set Text) (out : List Text)
    → All (λ x. contains_key (add cand used) x ≡ false) out
    → All (λ y. y ≢ cand) out
unfolding add
not_first cand used [] h = tt
not_first cand used (x ∷ out) h = (
  λ same. absurd (
      cc (
        sym (
          subst (λ z. contains_key (insert cand tt used) z ≡ true) (sym same)
            (contains_key-insert_self cand tt used))
        ∙ h.0)),
  not_first cand used out h.1,
)

not_used :
    (cand : Text) (used : Set Text) (out : List Text)
    → All (λ x. contains_key (add cand used) x ≡ false) out
    → All (λ x. contains_key used x ≡ false) out
unfolding add
not_used cand used [] h = tt
not_used cand used (x ∷ out) h =
    (not-contains_key-insert cand tt used x h.0, not_used cand used out h.1)

suffixes_from-Folders :
    (name : Text) (project : Option Text) (vols : List Text) (used : Set Text)
    → Folders used vols (suffixes_from name project used vols)
unfolding suffixes_from
suffixes_from-Folders name project [] used = record {
  out = [];
  made = refl;
  one_each = refl;
  distinct = tt;
  unused = tt;
}
suffixes_from-Folders name project (vol ∷ vols) used =
    let base = suffix_base name project vol in
    elim (Option-cases (free_candidate (suc (length used)) used base 1)) [
      | inl e ↦ absurd (free_candidate-some used base e)
      | inr (cand, e) ↦
          let rest = suffixes_from-Folders name project vols (add cand used) in
          record {
            out = cand ∷ rest.out;
            made = rw (e, suffixes_from) (ap (cons_all cand) rest.made);
            one_each = omega (arith, rest.one_each);
            distinct = (not_first cand used rest.out rest.unused, rest.distinct);
            unused = (
              free_candidate-free (suc (length used)) used base 1 cand e,
              not_used cand used rest.out rest.unused,
            );
          }
    ]

-- Each volume gets a folder of its own: the search for a free name ends, and no two volumes of the
-- container are copied to the same folder.
pub appdata_suffixes-apart :
    (name : Text) (project : Option Text) (vols : List Text)
    → (out : List Text) × (appdata_suffixes name project vols ≡ some out)
      × (length out ≡ length vols)
      × AreDistinct out
unfolding appdata_suffixes
appdata_suffixes-apart name project vols =
    let f = suffixes_from-Folders name project vols [] in (f.out, f.made, f.one_each, f.distinct)
