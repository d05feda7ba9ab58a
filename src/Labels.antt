-- ===== src/Labels.antt =====
-- The ownership labels of docker resources: src/labels.rs.
pub mod Carried
mod Tests
use unraid.Base.{Bool, List, [], ◌∷◌, Option, none, some}
use unraid.Text.{Text, codes, contains}
use unraid.Order.{nat_ord, list_ord}
use unraid.Map.{Map, insert}

abbrev pub managed : Text
managed = codes "orca.managed"

abbrev pub owner_key : Text
owner_key = codes "orca.owner"

abbrev pub stack_key : Text
stack_key = codes "orca.stack"

abbrev pub service_key : Text
service_key = codes "orca.service"

abbrev pub unit_key : Text
unit_key = codes "orca.unit"

abbrev pub mount_key : Text
mount_key = codes "orca.mount"

abbrev pub ownership_keys : List Text
ownership_keys = managed ∷ owner_key ∷ stack_key ∷ service_key ∷ unit_key ∷ mount_key ∷ []

unfoldable pub is_ownership_key : Text → Bool
unfolding contains
is_ownership_key key = contains ownership_keys key

pub record Labels : Type 0 where
  pub owner : Text
  pub stack : Text
  pub service : Option Text
  pub unit : Option Text
  pub mount : Option Text

-- `Labels::for_`
abbrev pub for_ : Text → Text → Option Text → Option Text → Labels
for_ owner stack service unit = record {
  owner = owner;
  stack = stack;
  service = service;
  unit = unit;
  mount = none;
}

abbrev pub with_mount : Labels → Text → Labels
with_mount l path = record l { mount = some path }

abbrev pub put : Text → Option Text → Map Text Text → Map Text Text
put key none m = m
put key (some v) m = insert key v m

unfoldable pub to_map : Labels → Map Text Text
to_map l =
    let m =
      insert managed (codes "true") (insert owner_key l.owner (insert stack_key l.stack [])) in
    put mount_key l.mount (put unit_key l.unit (put service_key l.service m))
