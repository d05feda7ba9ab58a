-- ===== src/Fsid/Tests.antt =====
-- Runs of the fsid plan.
use unraid.Text.{codes, Text}
use unraid.Base.{◌≢◌, ◌+◌, ◌<◌, arith, true, ◌≤◌, ℕ, false, Option, refl, ◌∷◌, ◌≡◌, some, []}
use unraid.Fsid.{
  probe, place_moving, place_share, place_fixed, fnv1a, hashed_fsid, plan_fsids, Current, fsid_base,
  fsid_span,
}
use unraid.Fsid.Laws.{plan_fsids-moved, plan_fsids-fixed}
use unraid.Fsid.Total.{plan_fsids-total}
use unraid.Map.{IsSorted, Map, Set, get, contains_key, insert, add}
use unraid.Order.{list_cmp, nat_ord, list_ord}

fnv1a_tests :
    (fnv1a [] ≡ 0x811c9dc5)
    × (fnv1a (codes "a") ≡ 0xe40c292c)
    × (fnv1a (codes "foobar") ≡ 0xbf9cf968)
unfolding fnv1a
fnv1a_tests = (refl, refl, refl)

abbrev key : Text
key = codes "k"

-- `a` is at its hash value, and `b` is at another fsid; the hash value of `b` is reserved.
abbrev current : Current
current = (codes "a", some 77317186) ∷ (codes "b", some 7) ∷ []

abbrev reserved : Set ℕ
reserved = (60539567, tt) ∷ []

abbrev planned : Map Text ℕ
planned = (codes "a", 77317186) ∷ (codes "b", 60539568) ∷ []

plan_test : plan_fsids key current reserved ≡ some planned
unfolding plan_fsids place_fixed place_share place_moving probe hashed_fsid fnv1a insert add
    contains_key list_cmp
plan_test = refl

hash_a : hashed_fsid key (codes "a") ≡ 77317186
unfolding hashed_fsid fnv1a
hash_a = refl

hash_b : hashed_fsid key (codes "b") ≡ 60539567
unfolding hashed_fsid fnv1a
hash_b = refl

held_a : get current (codes "a") ≡ some (some (hashed_fsid key (codes "a")))
unfolding get list_cmp
held_a = rw hash_a refl

held_b : get current (codes "b") ≡ some (some 7)
unfolding get list_cmp
held_b = refl

planned_b : get planned (codes "b") ≡ some 60539568
unfolding get list_cmp
planned_b = refl

moved_b : ◌≡◌ {A = Option ℕ} (some 7) (some (hashed_fsid key (codes "b"))) → ⊥
moved_b = rw hash_b (ground arith)

current-IsSorted : IsSorted current
unfolding list_cmp
current-IsSorted = ((refl, tt), (tt, tt))

plan_fsids-total_example :
    (out : Map Text ℕ) × (plan_fsids key current reserved ≡ some out)
    × ((s : Text) → contains_key current s ≡ true → contains_key out s ≡ true)
plan_fsids-total_example = plan_fsids-total key current reserved (omega arith)

plan_fsids-fixed_example : get planned (codes "a") ≡ some (hashed_fsid key (codes "a"))
plan_fsids-fixed_example =
    plan_fsids-fixed key current reserved current-IsSorted planned (codes "a") plan_test held_a

plan_fsids-moved_example :
    (contains_key reserved 60539568 ≡ false)
    × (fsid_base ≤ 60539568)
    × (60539568 < fsid_base + fsid_span)
    × ((t : Text) → codes "b" ≢ t → get planned t ≢ some 60539568)
plan_fsids-moved_example =
    plan_fsids-moved key current reserved current-IsSorted planned (codes "b") (some 7) 60539568
      plan_test held_b moved_b planned_b
