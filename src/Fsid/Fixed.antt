-- ===== src/Fsid/Fixed.antt =====
-- The loop over the shares that are at their hash value.
use Prim.Native.Nat.{lt}
use unraid.Text.{text_eq_iff, Text}
use unraid.Base.{◌∙◌, none, arith, refl, ◌≢◌, some, true, false, ◌≡◌, All, ℕ, Option, [], ◌∷◌, List}
use mathlib.Core.Path.{subst}
use unraid.Fsid.{Current, Plan, place, place_fixed}
use unraid.Fsid.Plans.{Covers, place-Covers, listed, Distinct}
use unraid.Map.{contains_key, get, add, IsSorted}
use unraid.Map.Laws.{get-insert_self, get-insert_ne, contains_key-insert}
use unraid.Order.{list_refl, list_cmp, nat_ord, list_ord}

-- What the loop leaves: every share has the fsid that it had, and the rest of the plan stays.
pub record Kept (p q : Plan) (es : List (Text × Option ℕ)) : Type 0 where
  pub covers : Covers q
  pub kept : (s : Text) → listed s es ≡ false → get q.out s ≡ get p.out s
  pub grows : (f : ℕ) → contains_key p.used f ≡ true → contains_key q.used f ≡ true
  pub held : All (λ e. get q.out e.0 ≡ e.1) es

Kept-nil : (p : Plan) → Covers p → Kept p p []
Kept-nil p c = record { covers = c; kept = λ s h. refl; grows = λ f h. h; held = tt }

Kept-cons :
    (p q : Plan) (s₀ : Text) (f₀ : ℕ) (es : List (Text × Option ℕ))
    → listed s₀ es ≡ false
    → Kept (place p s₀ f₀) q es
    → Kept p q ((s₀, some f₀) ∷ es)
unfolding add
Kept-cons p q s₀ f₀ es once later = record {
  covers = later.covers;
  kept = λ s h.
      let both : (s₀ ≢ s) × (listed s es ≡ false) = ground (arith, text_eq_iff s₀ s) in
      later.kept s both.1 ∙ get-insert_ne s₀ f₀ p.out s both.0;
  grows = λ f h. later.grows f (contains_key-insert f₀ tt p.used f h);
  held = (later.kept s₀ once ∙ get-insert_self s₀ f₀ p.out, later.held);
}

pub place_fixed-Kept :
    (es : List (Text × Option ℕ)) (p q : Plan)
    → Distinct es
    → Covers p
    → place_fixed p es ≡ some q
    → Kept p q es
unfolding place_fixed
place_fixed-Kept [] p q d c e =
    let same : p ≡ q = ground arith in subst (λ r. Kept p r []) same (Kept-nil p c)
place_fixed-Kept ((s, none) ∷ es) p q d c e = cc
place_fixed-Kept ((s, some f) ∷ es) p q d c e =
    Kept-cons p q s f es d.0 (place_fixed-Kept es (place p s f) q d.1 (place-Covers p s f c) e)

-- Sorted entries are distinct.
listed-Above : (s : Text) (es : Current) → All (λ e. list_cmp s e.0 ≡ lt) es → listed s es ≡ false
listed-Above s [] a = refl
listed-Above s ((t, c) ∷ es) a = ground (arith, text_eq_iff t s, list_refl s, listed-Above s es a.1)

pub IsSorted-Distinct : (es : Current) → IsSorted es → Distinct es
IsSorted-Distinct [] s = tt
IsSorted-Distinct ((t, c) ∷ es) s = (listed-Above t es s.0, IsSorted-Distinct es s.1)
