-- ===== src/Labels/Carried.antt =====
-- A labelled resource carries its ownership labels, and no other label.
use unraid.Map.Laws.{get-insert_ne, get-insert_self}
use unraid.Map.{insert, get, Map}
use unraid.Base.{◌∙◌, arith, [], Bool-cases, ◌≡◌, if◌then◌else◌, Option, none, some, inl, inr}
use mathlib.Core.Path.{subst}
use unraid.Labels.{
  Labels, mount_key, unit_key, service_key, owner_key, stack_key, managed, put, to_map,
}
use unraid.Text.{text_eq_iff, Text, codes, text_eq}
use unraid.Order.{list_ord, nat_ord}

-- What a label is to hold.
unfoldable pub held : Labels → Text → Option Text
held l k =
    if text_eq mount_key k
    then l.mount
    else if text_eq unit_key k
    then l.unit
    else if text_eq service_key k
    then l.service
    else if text_eq managed k
    then some (codes "true")
    else if text_eq owner_key k
    then some l.owner
    else if text_eq stack_key k
    then some l.stack
    else none

get-insert_if :
    (k v : Text) (m : Map Text Text) (i : Text)
    → get (insert k v m) i ≡ (if text_eq k i then some v else get m i)
get-insert_if k v m i = elim (Bool-cases (text_eq k i)) [
  | inl e ↦
      rw e
        (subst (λ j. get (insert k v m) j ≡ some v) ((text_eq_iff k i).0 e) (get-insert_self k v m))
  | inr n ↦ rw n (get-insert_ne k v m i (λ e. ground (arith, n, (text_eq_iff k i).1 e)))
]

get-put :
    (k : Text) (o : Option Text) (m : Map Text Text) (i : Text)
    → get m k ≡ none
    → get (put k o m) i ≡ (if text_eq k i then o else get m i)
get-put k none m i h = elim (Bool-cases (text_eq k i)) [
  | inl e ↦ rw e (subst (λ j. get m j ≡ none) ((text_eq_iff k i).0 e) h)
  | inr n ↦ rw n
]
get-put k (some v) m i h = get-insert_if k v m i

-- The labels that are always there.
abbrev always : Labels → Map Text Text
always l = insert managed (codes "true") (insert owner_key l.owner (insert stack_key l.stack []))

get-always :
    (l : Labels) (k : Text)
    → get (always l) k ≡ (
        if text_eq managed k
        then some (codes "true")
        else if text_eq owner_key k
        then some l.owner
        else if text_eq stack_key k
        then some l.stack
        else none)
unfolding get text_eq
get-always l k = rw (
  get-insert_if managed (codes "true") (insert owner_key l.owner (insert stack_key l.stack [])) k,
  get-insert_if owner_key l.owner (insert stack_key l.stack []) k,
  get-insert_if stack_key l.stack [] k,
  get,
)

-- The labels that may be missing, put one after the other.
abbrev with_service : Labels → Map Text Text
with_service l = put service_key l.service (always l)

abbrev with_unit : Labels → Map Text Text
with_unit l = put unit_key l.unit (with_service l)

no_service : (l : Labels) → get (always l) service_key ≡ none
unfolding text_eq
no_service l = get-always l service_key

no_unit : (l : Labels) → get (with_service l) unit_key ≡ none
unfolding text_eq
no_unit l = get-put service_key l.service (always l) unit_key (no_service l) ∙ get-always l unit_key

no_mount : (l : Labels) → get (with_unit l) mount_key ≡ none
unfolding text_eq
no_mount l =
    get-put unit_key l.unit (with_service l) mount_key (no_unit l)
    ∙ get-put service_key l.service (always l) mount_key (no_service l)
    ∙ get-always l mount_key

-- A label of the map is the one that the resource is to hold, and the map has no other label.
pub get-to_map : (l : Labels) (k : Text) → get (to_map l) k ≡ held l k
unfolding to_map held
get-to_map l k = rw (
  get-put mount_key l.mount (with_unit l) k (no_mount l),
  get-put unit_key l.unit (with_service l) k (no_unit l),
  get-put service_key l.service (always l) k (no_service l),
  get-always l k,
)
