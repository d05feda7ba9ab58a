-- ===== src/Base/Lists.antt =====
-- Lists with Boolean tests, measured by native numbers.
use Prim.Native.Nat.{ℕ, zero, suc, ◌<◌}
use mathlib.Core.Path.{◌≡◌}
use mathlib.Core.Bool.{Bool, true, false, ◌&&◌, ◌||◌}
use mathlib.Core.List.{List, [], ◌∷◌, ◌++◌}
use native.Mathlib.Omega.{arith}
use unraid.Base.Tests.{if◌then◌else◌, ◌==◌}

module _ {ℓ} {A : Type ℓ} where
  abbrev pub length : List A → ℕ
  length [] = 0
  length (x ∷ xs) = suc (length xs)

  abbrev pub all : (A → Bool) → List A → Bool
  all p [] = true
  all p (x ∷ xs) = p x && all p xs

  abbrev pub any : (A → Bool) → List A → Bool
  any p [] = false
  any p (x ∷ xs) = p x || any p xs

  -- `iter().filter(p)`
  abbrev pub keep : (A → Bool) → List A → List A
  keep p [] = []
  keep p (x ∷ xs) = if p x then x ∷ keep p xs else keep p xs

abbrev pub All {ℓ κ} : {A : Type ℓ} → (A → Type κ) → List A → Type κ
All P [] = Unit
All P (x ∷ xs) = P x × All P xs

-- A number is among those of a list.
abbrev pub elem : ℕ → List ℕ → Bool
elem a [] = false
elem a (x ∷ xs) = a == x || elem a xs

-- Whether the numbers up to a bound pass a test, the bound left out.
unfoldable pub passes_below : (ℕ → Bool) → ℕ → Bool
passes_below test zero = true
passes_below test (suc top) = passes_below test top && test top

pub test_of_passes_below :
    (test : ℕ → Bool) (top : ℕ) → passes_below test top ≡ true → (k : ℕ) → k < top → test k ≡ true
unfolding passes_below
test_of_passes_below test zero passes k small = absurd (omega arith)
test_of_passes_below test (suc top) passes k small =
    ground (arith, test_of_passes_below test top (ground arith) k)

abbrev pub is_nil {ℓ} : {A : Type ℓ} → List A → Bool
is_nil [] = true
is_nil (_ ∷ _) = false

abbrev pub take {ℓ} : {A : Type ℓ} → ℕ → List A → List A
take zero xs = []
take (suc n) [] = []
take (suc n) (x ∷ xs) = x ∷ take n xs

-- A list with an element that has the property.
pub record Has {A : Type 0} (P : A → Type 0) (xs : List A) : Type 0 where
  pub before : List A
  pub found : A
  pub after : List A
  pub splits : xs ≡ before ++ found ∷ after
  pub holds : P found

pub Has-map :
    {A : Type 0} {P Q : A → Type 0} {xs : List A} → ((x : A) → P x → Q x) → Has P xs → Has Q xs
Has-map f r = record {
  before = r.before;
  found = r.found;
  after = r.after;
  splits = r.splits;
  holds = f r.found r.holds;
}
