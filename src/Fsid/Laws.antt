-- ===== src/Fsid/Laws.antt =====
-- What `plan_fsids` promises.
use unraid.Text.{text_eq_iff, text_eq_refl, Text}
use unraid.Base.{
  ◌+◌, ◌<◌, ◌∙◌, Bool-cases, ◌≢◌, not, refl, inr, [], ◌≤◌, arith, ◌∷◌, length, keep, inl, List, All,
  Option-cases, false, true, Bool, some, ◌≡◌, Option, ℕ,
}
use unraid.Fsid.{
  hashed_fsid, fsid_base, fsid_span, Current, is_fixed, Plan, place_moving, place_fixed, plan_fsids,
  fixed, moving, fresh,
}
use unraid.Fsid.Plans.{Covers, listed, Distinct, Moved, place_moving-Moved}
use unraid.Fsid.Fixed.{Kept, place_fixed-Kept, IsSorted-Distinct}
use unraid.Map.{Map, Set, contains_key, get, IsSorted}
use unraid.Order.{list_refl, list_eq, nat_ord, list_ord}

module _ (p : Text × Option ℕ → Bool) where
  pub All-keep : (es : List (Text × Option ℕ)) → All (λ e. p e ≡ true) (keep p es)
  All-keep [] = tt
  All-keep (e ∷ es) = ground (arith, All-keep es)

  listed-keep :
      (s : Text) (es : List (Text × Option ℕ)) → listed s es ≡ false → listed s (keep p es) ≡ false
  listed-keep s [] h = refl
  listed-keep s ((t, c) ∷ es) h = ground (arith, listed-keep s es)

  Distinct-keep : (es : List (Text × Option ℕ)) → Distinct es → Distinct (keep p es)
  Distinct-keep [] d = tt
  Distinct-keep ((t, c) ∷ es) d = ground (arith, Distinct-keep es d.1, listed-keep t es d.0)

  length-keep : (es : List (Text × Option ℕ)) → length (keep p es) ≤ length es
  length-keep [] = omega arith
  length-keep (e ∷ es) = ground (arith, length-keep es)

  listed_of_get :
      (es : Current) (s : Text) (c : Option ℕ)
      → get es s ≡ some c
      → p (s, c) ≡ true
      → listed s (keep p es) ≡ true
  unfolding get
  listed_of_get [] s c h k = cc
  listed_of_get ((t, d) ∷ es) s c h k =
      ground (arith, list_eq t s, text_eq_refl s, listed_of_get es s c)

  not-listed_of_get :
      (es : Current) (s : Text) (c : Option ℕ)
      → Distinct es
      → get es s ≡ some c
      → p (s, c) ≡ false
      → listed s (keep p es) ≡ false
  unfolding get
  not-listed_of_get [] s c d h k = refl
  not-listed_of_get ((t, c') ∷ es) s c d h k = ground (
    arith,
    list_eq t s,
    text_eq_iff t s,
    list_refl s,
    not-listed_of_get es s c d.1,
    listed-keep t es d.0,
  )

  pub keep-cons :
      (P : Text × Option ℕ → Type 0) (e : Text × Option ℕ) (es : List (Text × Option ℕ))
      → All P (keep p (e ∷ es))
      → (p e ≡ true → P e) × All P (keep p es)
  keep-cons P e es a = elim (Bool-cases (p e)) [
    | inl y ↦ let b : P e × All P (keep p es) = rw y at a in (λ _. b.0, b.1)
    | inr n ↦ (λ y. cc, rw n at a)
  ]

  held_of_get :
      (es : Current) (m : Map Text ℕ) (s : Text) (c : Option ℕ)
      → All (λ e. get m e.0 ≡ e.1) (keep p es)
      → get es s ≡ some c
      → p (s, c) ≡ true
      → get m s ≡ c
  unfolding get
  held_of_get [] m s c a h k = cc
  held_of_get ((t, d) ∷ es) m s c a h k =
      let parts = keep-cons (λ e. get m e.0 ≡ e.1) (t, d) es a in
      ground (arith, list_eq t s, held_of_get es m s c parts.1, parts.0)

fresh-Covers : (reserved : Set ℕ) → Covers (fresh reserved)
unfolding get
fresh-Covers reserved s f h = cc

-- The two loops of a plan, one after the other.
record Loops (key : Text) (current : Current) (reserved : Set ℕ) (out : Map Text ℕ) : Type 0 where
  middle : Plan
  last : Plan
  first_loop : Kept (fresh reserved) middle (fixed key current)
  second_loop : Moved middle last (moving key current)
  result : last.out ≡ out

plan_fsids-Loops :
    (key : Text) (current : Current) (reserved : Set ℕ) (out : Map Text ℕ)
    → IsSorted current
    → plan_fsids key current reserved ≡ some out
    → Loops key current reserved out
unfolding plan_fsids
plan_fsids-Loops key current reserved out s e =
    elim (Option-cases (place_fixed (fresh reserved) (fixed key current))) [
      | inl stuck ↦ absurd (ground (arith, stuck))
      | inr (p, first) ↦ elim (Option-cases (place_moving key p (moving key current))) [
        | inl stuck ↦ absurd (ground (arith, first, stuck))
        | inr (q, second) ↦
            let d = IsSorted-Distinct current s in
            let k =
              place_fixed-Kept (fixed key current) (fresh reserved) p (Distinct-keep _ current d)
                (fresh-Covers reserved) first in
            record {
              middle = p;
              last = q;
              first_loop = k;
              second_loop =
                  place_moving-Moved key (moving key current) p q (Distinct-keep _ current d)
                    k.covers second;
              result = ground (arith, first, second);
            }
      ]
    ]

module _ (key : Text) (current : Current) (reserved : Set ℕ) (sorted : IsSorted current) where
  -- A share that is not at its hash value gets an fsid in the range of the plan that is not
  -- reserved and that no other share gets.
  pub plan_fsids-moved :
      (out : Map Text ℕ) (s : Text) (c : Option ℕ) (f : ℕ)
      → plan_fsids key current reserved ≡ some out
      → get current s ≡ some c
      → c ≢ some (hashed_fsid key s)
      → get out s ≡ some f
      → (contains_key reserved f ≡ false)
        × (fsid_base ≤ f)
        × (f < fsid_base + fsid_span)
        × ((t : Text) → s ≢ t → get out t ≢ some f)
  plan_fsids-moved out s c f e held moved planned =
      let l = plan_fsids-Loops key current reserved out sorted e in
      let found : get l.last.out s ≡ some f = rw l.result planned in
      let apart : is_fixed key (s, c) ≡ false = ground arith in
      let here : listed s (moving key current) ≡ true =
        listed_of_get (λ x. not (is_fixed key x)) current s c held (rw apart) in
      let (unused, low, high) = l.second_loop.new s f here found in
      let grows = l.first_loop.grows f in
      (
        ground (arith, unused, grows),
        low,
        high,
        λ t n g. l.second_loop.alone s t f here n found (rw l.result g),
      )

  -- A share at its hash value keeps its fsid.
  pub plan_fsids-fixed :
      (out : Map Text ℕ) (s : Text)
      → plan_fsids key current reserved ≡ some out
      → get current s ≡ some (some (hashed_fsid key s))
      → get out s ≡ some (hashed_fsid key s)
  plan_fsids-fixed out s e held =
      let l = plan_fsids-Loops key current reserved out sorted e in
      let at : is_fixed key (s, some (hashed_fsid key s)) ≡ true = ground arith in
      let there : listed s (moving key current) ≡ false =
        not-listed_of_get (λ x. not (is_fixed key x)) current s _ (IsSorted-Distinct current sorted)
          held (rw at) in
      let first : get l.middle.out s ≡ some (hashed_fsid key s) =
        held_of_get (is_fixed key) current l.middle.out s _ l.first_loop.held held at in
      rw (← l.result) (l.second_loop.kept s there ∙ first)
