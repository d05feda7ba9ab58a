-- ===== src/Map/Pigeonhole.antt =====
-- The pigeonhole principle: distinct members of a set are no more than its elements.
use unraid.Map.{Set, contains_key}
use unraid.Base.{◌≤◌, suc, length, arith, ◌≡◌, ◌≢◌, All, List, true, [], ◌∷◌}
use unraid.Order.{Ord, list_ord, nat_ord}
use Prim.Native.Nat.{eq}

abbrev pub AreDistinct : {K : Type 0} → List K → Type 0
AreDistinct [] = Unit
AreDistinct (x ∷ xs) = All (λ y. y ≢ x) xs × AreDistinct xs

module _ {K : Type 0} ⦃o : Ord K⦄ where
  without : K → Set K → Set K
  without x [] = []
  without x ((y, _) ∷ m) = elim (o.cmp y x) [ eq ↦ m | _ ↦ (y, tt) ∷ without x m ]

  length-without :
      (x : K) (m : Set K) → contains_key m x ≡ true → length m ≡ suc (length (without x m))
  unfolding without contains_key
  length-without x [] h = cc
  length-without x ((y, _) ∷ m) h = ground (arith, length-without x m)

  without-keeps :
      (x : K) (m : Set K) (z : K)
      → z ≢ x
      → contains_key m z ≡ true
      → contains_key (without x m) z ≡ true
  unfolding without contains_key
  without-keeps x [] z n h = cc
  without-keeps x ((y, _) ∷ m) z n h =
      ground (arith, without-keeps x m z, o.cmp_eq y x, o.cmp_eq y z)

  kept_without :
      (x : K) (m : Set K) (xs : List K)
      → All (λ y. y ≢ x) xs
      → All (λ y. contains_key m y ≡ true) xs
      → All (λ y. contains_key (without x m) y ≡ true) xs
  kept_without x m [] n h = tt
  kept_without x m (z ∷ xs) n h = (without-keeps x m z n.0 h.0, kept_without x m xs n.1 h.1)

  pub length-le :
      (xs : List K) (m : Set K)
      → AreDistinct xs
      → All (λ y. contains_key m y ≡ true) xs
      → length xs ≤ length m
  length-le [] m d h = omega arith
  length-le (x ∷ xs) m d h =
      let ih = length-le xs (without x m) d.1 (kept_without x m xs d.0 h.1) in
      omega (arith, length-without x m h.0, ih)
