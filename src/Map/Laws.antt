-- ===== src/Map/Laws.antt =====
-- The laws of the maps.
use Prim.Native.Nat.{Ordering, lt, eq, gt}
use unraid.Base.{
  ◌+◌, ◌≤◌, length, true, Bool, ◌≡◌, refl, ◌≢◌, inl, inr, ◌⊎◌, false, List, [], ◌∷◌, none, some,
  All, arith,
}
use unraid.Order.{Ord}
use unraid.Map.{remove, retain, Map, get, contains_key, insert, extend, IsSorted}

pub Ordering-cases : (r : Ordering) → (r ≡ lt) ⊎ (r ≡ eq) ⊎ (r ≡ gt)
Ordering-cases lt = inl refl
Ordering-cases eq = inr (inl refl)
Ordering-cases gt = inr (inr refl)

module _ {K : Type 0} ⦃o : Ord K⦄ where
  cmp-ne : (a b : K) → a ≢ b → o.cmp a b ≢ eq
  cmp-ne a b h e = h (o.cmp_eq a b e)

  cmp-gt : (a b : K) → o.cmp a b ≡ lt → o.cmp b a ≢ eq
  cmp-gt a b h e =
      let same : b ≡ a = o.cmp_eq b a e in
      let r : o.cmp a a ≡ eq = o.cmp_refl a in ground (arith, rw same at h)

  cmp-lt_of_gt : (a b : K) → o.cmp a b ≡ gt → o.cmp b a ≢ eq
  cmp-lt_of_gt a b h e = ground (arith, o.cmp_flip a b h)

  module _ {V : Type 0} where
    pub get-insert_self : (k : K) (v : V) (m : Map K V) → get (insert k v m) k ≡ some v
    unfolding get insert
    get-insert_self k v [] = rw (o.cmp_refl k)
    get-insert_self k v ((j, w) ∷ m) =
        ground (arith, o.cmp_refl k, o.cmp_flip k j, get-insert_self k v m)

    pub get-insert_ne :
        (k : K) (v : V) (m : Map K V) (i : K) → k ≢ i → get (insert k v m) i ≡ get m i
    unfolding get insert
    get-insert_ne k v [] i h = ground (arith, cmp-ne k i h)
    get-insert_ne k v ((j, w) ∷ m) i h =
        ground (arith, cmp-ne k i h, o.cmp_eq k j, get-insert_ne k v m i h)

    pub contains_key-get : (m : Map K V) (k : K) → get m k ≡ none → contains_key m k ≡ false
    unfolding get contains_key
    contains_key-get [] k h = refl
    contains_key-get ((j, v) ∷ m) k h = ground (arith, contains_key-get m k)

    Above : K → Map K V → Type 0
    Above k m = All (λ e. o.cmp k e.0 ≡ lt) m

    Above-trans : (j k : K) (m : Map K V) → o.cmp j k ≡ lt → Above k m → Above j m
    unfolding Above
    Above-trans j k [] h a = tt
    Above-trans j k ((i, v) ∷ m) h a = (o.cmp_trans j k i h a.0, Above-trans j k m h a.1)

    pub get-above : (k : K) (m : Map K V) → All (λ e. o.cmp k e.0 ≡ lt) m → get m k ≡ none
    unfolding get
    get-above k [] a = refl
    get-above k ((j, v) ∷ m) a = ground (arith, cmp-gt k j a.0, get-above k m a.1)

    Above-insert :
        (i k : K) (v : V) (m : Map K V) → o.cmp i k ≡ lt → Above i m → Above i (insert k v m)
    unfolding insert Above
    Above-insert i k v [] h a = (h, tt)
    Above-insert i k v ((j, w) ∷ m) h a = ground (arith, Above-insert i k v m h a.1)

    pub IsSorted-insert : (k : K) (v : V) (m : Map K V) → IsSorted m → IsSorted (insert k v m)
    unfolding insert Above
    IsSorted-insert k v [] s = (tt, tt)
    IsSorted-insert k v ((j, w) ∷ m) s = ground (
      arith,
      Above-trans k j m,
      IsSorted-insert k v m s.1,
      Above-insert j k v m,
      o.cmp_flip k j,
      o.cmp_eq k j,
    )

    pub IsSorted-extend : (es : List (K × V)) (m : Map K V) → IsSorted m → IsSorted (extend m es)
    unfolding extend
    IsSorted-extend [] m s = s
    IsSorted-extend ((k, v) ∷ es) m s = IsSorted-extend es (insert k v m) (IsSorted-insert k v m s)

    get-tail :
        (k : K) (v w : V) (m n : Map K V)
        → Above k m
        → Above k n
        → ((i : K) → get ((k, v) ∷ m) i ≡ get ((k, w) ∷ n) i)
        → (i : K) → get m i ≡ get n i
    unfolding get Above
    get-tail k v w m n a b h i = ground (arith, h i, o.cmp_eq k i, get-above k m a, get-above k n b)

    head_key :
        (k j : K) (v w : V) (m n : Map K V)
        → Above k m
        → Above j n
        → ((i : K) → get ((k, v) ∷ m) i ≡ get ((j, w) ∷ n) i)
        → o.cmp k j ≡ eq
    unfolding get Above
    head_key k j v w m n a b h = elim (Ordering-cases (o.cmp k j)) [
      | inl l ↦
          ground (arith, h k, o.cmp_refl k, cmp-gt k j l, get-above k n (Above-trans k j n l b))
      | inr (inl e) ↦ e
      | inr (inr g) ↦ ground (
        arith,
        h j,
        o.cmp_refl j,
        cmp-gt j k (o.cmp_flip k j g),
        get-above j m (Above-trans j k m (o.cmp_flip k j g) a),
      )
    ]

    head_value : (k : K) (v w : V) (m n : Map K V) → get ((k, v) ∷ m) k ≡ get ((k, w) ∷ n) k → v ≡ w
    unfolding get
    head_value k v w m n h = ground (arith, o.cmp_refl k)

    -- A sorted map is determined by what it holds at each key.
    pub map_ext : (m n : Map K V) → IsSorted m → IsSorted n → ((i : K) → get m i ≡ get n i) → m ≡ n
    unfolding get Above
    map_ext [] [] s t h = refl
    map_ext [] ((j, w) ∷ n) s t h = ground (arith, h j, o.cmp_refl j)
    map_ext ((k, v) ∷ m) [] s t h = ground (arith, h k, o.cmp_refl k)
    map_ext ((k, v) ∷ m) ((j, w) ∷ n) s t h =
        let same : k ≡ j = o.cmp_eq k j (head_key k j v w m n s.0 t.0 h) in
        let t' : Above k n = rw same t.0 in
        let h' : ((i : K) → get ((k, v) ∷ m) i ≡ get ((k, w) ∷ n) i) = rw same (rw same at h) in
        let tails : m ≡ n = map_ext m n s.1 t.1 (get-tail k v w m n s.0 t' h') in
        cc (same, head_value k v w m n (h' k), tails)

    Above-remove : (i k : K) (m : Map K V) → Above i m → Above i (remove k m)
    unfolding remove Above
    Above-remove i k [] a = tt
    Above-remove i k ((j, w) ∷ m) a = ground (arith, Above-remove i k m a.1)

    pub IsSorted-remove : (k : K) (m : Map K V) → IsSorted m → IsSorted (remove k m)
    unfolding remove Above
    IsSorted-remove k [] s = tt
    IsSorted-remove k ((j, w) ∷ m) s =
        ground (arith, Above-remove j k m s.0, IsSorted-remove k m s.1)

    Above-retain : (i : K) (p : K → V → Bool) (m : Map K V) → Above i m → Above i (retain p m)
    unfolding retain Above
    Above-retain i p [] a = tt
    Above-retain i p ((j, w) ∷ m) a = ground (arith, Above-retain i p m a.1)

    pub IsSorted-retain : (p : K → V → Bool) (m : Map K V) → IsSorted m → IsSorted (retain p m)
    unfolding retain Above
    IsSorted-retain p [] s = tt
    IsSorted-retain p ((j, w) ∷ m) s =
        ground (arith, Above-retain j p m s.0, IsSorted-retain p m s.1)

    pub length-insert : (k : K) (v : V) (m : Map K V) → length (insert k v m) ≤ length m + 1
    unfolding insert
    length-insert k v [] = omega arith
    length-insert k v ((j, w) ∷ m) = ground (arith, length-insert k v m)

    pub contains_key-insert_self :
        (k : K) (v : V) (m : Map K V) → contains_key (insert k v m) k ≡ true
    unfolding insert contains_key
    contains_key-insert_self k v [] = ground (arith, o.cmp_refl k)
    contains_key-insert_self k v ((j, w) ∷ m) =
        ground (arith, o.cmp_refl k, contains_key-insert_self k v m)

    pub contains_key-insert :
        (k : K) (v : V) (m : Map K V) (i : K)
        → contains_key m i ≡ true
        → contains_key (insert k v m) i ≡ true
    unfolding insert contains_key
    contains_key-insert k v [] i h = cc
    contains_key-insert k v ((j, w) ∷ m) i h =
        ground (arith, o.cmp_eq k j, contains_key-insert k v m i)

    pub not-contains_key-insert :
        (k : K) (v : V) (m : Map K V) (i : K)
        → contains_key (insert k v m) i ≡ false
        → contains_key m i ≡ false
    not-contains_key-insert k v m i h = ground (arith, contains_key-insert k v m i)
