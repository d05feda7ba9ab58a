-- ===== src/Map/Extent.antt =====
-- When two maps hold the same entries.
use unraid.Base.{[], false, inl, sym, ◌∙◌, arith, inr, Option-cases}
use unraid.Map.{Set, ◌∷◌, true, some, lt, ◌≡◌, IsSorted, All, contains_key, Map, get}
use unraid.Order.{Ord}
use unraid.Map.Laws.{map_ext, contains_key-get}

module _ {K : Type 0} ⦃o : Ord K⦄ {V : Type 0} where
  pub contains_key-some : (m : Map K V) (k : K) (v : V) → get m k ≡ some v → contains_key m k ≡ true
  unfolding get contains_key
  contains_key-some [] k v h = cc
  contains_key-some ((j, w) ∷ m) k v h = ground (arith, contains_key-some m k v)

  -- An entry of a map is in any map that holds every listed entry.
  get-All :
      (m n : Map K V) (i : K) (v : V)
      → All (λ e. get n e.0 ≡ some e.1) m
      → get m i ≡ some v
      → get n i ≡ some v
  unfolding get
  get-All [] n i v a h = cc
  get-All ((k, w) ∷ m) n i v a h = ground (arith, o.cmp_eq k i, get-All m n i v a.1, a.0)

  contains_key-All :
      (m n : Map K V) (i : K) (v : V)
      → All (λ e. contains_key n e.0 ≡ true) m
      → get m i ≡ some v
      → contains_key n i ≡ true
  unfolding get
  contains_key-All [] n i v a h = cc
  contains_key-All ((k, w) ∷ m) n i v a h =
      ground (arith, o.cmp_eq k i, contains_key-All m n i v a.1, a.0)

  held_cons :
      (k : K) (v : V) (m n : Map K V)
      → All (λ e. o.cmp k e.0 ≡ lt) n
      → All (λ e. get m e.0 ≡ some e.1) n
      → All (λ e. get ((k, v) ∷ m) e.0 ≡ some e.1) n
  unfolding get
  held_cons k v m [] a h = tt
  held_cons k v m ((j, w) ∷ n) a h = (ground (arith, a.0, h.0), held_cons k v m n a.1 h.1)

  -- A sorted map holds its entries.
  pub All-get : (m : Map K V) → IsSorted m → All (λ e. get m e.0 ≡ some e.1) m
  unfolding get
  All-get [] s = tt
  All-get ((k, v) ∷ m) s = (rw (o.cmp_refl k, get), held_cons k v m m s.0 (All-get m s.1))

  pub All-contains_key :
      (m n : Map K V) → All (λ e. get n e.0 ≡ some e.1) m → All (λ e. contains_key n e.0 ≡ true) m
  All-contains_key [] n h = tt
  All-contains_key ((k, v) ∷ m) n h = (contains_key-some n k v h.0, All-contains_key m n h.1)

  same_get :
      (m n : Map K V) (i : K)
      → All (λ e. get n e.0 ≡ some e.1) m
      → All (λ e. contains_key m e.0 ≡ true) n
      → get m i ≡ get n i
  same_get m n i a b = elim (Option-cases (get m i)) [
    | inr (v, held) ↦ held ∙ sym (get-All m n i v a held)
    | inl free ↦ elim (Option-cases (get n i)) [
      | inl also ↦ free ∙ sym also
      | inr (w, held) ↦
          let h : contains_key m i ≡ true = contains_key-All n m i w b held in
          let f : contains_key m i ≡ false = contains_key-get m i free in cc
    ]
  ]

  -- Sorted maps are equal if the second holds every entry of the first, and has no other key.
  pub map_eq :
      (m n : Map K V)
      → IsSorted m
      → IsSorted n
      → All (λ e. get n e.0 ≡ some e.1) m
      → All (λ e. contains_key m e.0 ≡ true) n
      → m ≡ n
  map_eq m n s t a b = map_ext m n s t (λ i. same_get m n i a b)

-- A set holds nothing but its keys.
module _ {K : Type 0} ⦃o : Ord K⦄ where
  pub get_of_contains_key : (m : Set K) (k : K) → contains_key m k ≡ true → get m k ≡ some tt
  unfolding get contains_key
  get_of_contains_key [] k h = cc
  get_of_contains_key ((j, tt) ∷ m) k h = ground (arith, get_of_contains_key m k)

  pub All-held :
      (m n : Set K) → All (λ e. contains_key n e.0 ≡ true) m → All (λ e. get n e.0 ≡ some e.1) m
  All-held [] n h = tt
  All-held ((k, tt) ∷ m) n h = (get_of_contains_key n k h.0, All-held m n h.1)
