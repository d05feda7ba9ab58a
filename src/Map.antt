-- ===== src/Map.antt =====
-- `BTreeMap` and `BTreeSet` of Rust's library: entries in the order of their keys, each key once.
pub mod Laws
pub mod Extent
pub mod Pigeonhole
use unraid.Base.{ok, err, inl, inr}
use unraid.Order.{list_ord, nat_ord}
use Prim.Native.Nat.{Ordering, lt, eq, gt}
use unraid.Base.{ℕ, ◌≡◌, Bool, true, false, List, [], ◌∷◌, Option, none, some, All, if◌then◌else◌}
use unraid.Order.{Ord}

abbrev pub Map : Type 0 → Type 0 → Type 0
Map K V = List (K × V)

-- `BTreeSet<K>` is `BTreeMap<K, ()>`.
abbrev pub Set : Type 0 → Type 0
Set K = Map K (Unit {0})

module _ {K : Type 0} ⦃o : Ord K⦄ where
  module _ {V : Type 0} where
    unfoldable pub get : Map K V → K → Option V
    get [] k = none
    get ((j, v) ∷ m) k = elim (o.cmp j k) [ eq ↦ some v | _ ↦ get m k ]

    unfoldable pub contains_key : Map K V → K → Bool
    contains_key [] k = false
    contains_key ((j, v) ∷ m) k = elim (o.cmp j k) [ eq ↦ true | _ ↦ contains_key m k ]

    unfoldable pub insert : K → V → Map K V → Map K V
    insert k v [] = (k, v) ∷ []
    insert k v ((j, w) ∷ m) = elim (o.cmp k j) [
      | lt ↦ (k, v) ∷ (j, w) ∷ m
      | eq ↦ (k, v) ∷ m
      | gt ↦ (j, w) ∷ insert k v m
    ]

    unfoldable pub remove : K → Map K V → Map K V
    remove k [] = []
    remove k ((j, w) ∷ m) = elim (o.cmp k j) [ eq ↦ m | _ ↦ (j, w) ∷ remove k m ]

    -- `from_iter`, `extend`: later entries win.
    unfoldable pub extend : Map K V → List (K × V) → Map K V
    extend m [] = m
    extend m ((k, v) ∷ es) = extend (insert k v m) es

    -- Every key is larger than the ones before it.
    abbrev pub IsSorted : Map K V → Type 0
    IsSorted [] = Unit
    IsSorted ((k, v) ∷ m) = All (λ e. o.cmp k e.0 ≡ lt) m × IsSorted m

module _ {K V : Type 0} where
  -- `retain`
  unfoldable pub retain : (K → V → Bool) → Map K V → Map K V
  retain p [] = []
  retain p ((k, v) ∷ m) = if p k v then (k, v) ∷ retain p m else retain p m

unfoldable pub add : {K : Type 0} ⦃o : Ord K⦄ → K → Set K → Set K
add k = insert k tt

-- A set of the items of a list: `extend`, and `collect` from the empty set.
unfoldable pub add_all : {K : Type 0} ⦃o : Ord K⦄ → Set K → List K → Set K
unfolding add
add_all s [] = s
add_all s (k ∷ ks) = add_all (add k s) ks

module _ {K V : Type 0} where
  -- `keys().cloned().collect()`, in the order of the map.
  abbrev pub keys : Map K V → Set K
  keys [] = []
  keys ((k, _) ∷ m) = (k, tt) ∷ keys m

  abbrev pub names_in : Map K V → List K
  names_in [] = []
  names_in ((k, _) ∷ m) = k ∷ names_in m
