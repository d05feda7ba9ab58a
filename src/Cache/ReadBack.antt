-- ===== src/Cache/ReadBack.antt =====
-- src/share_cache.rs: the check of what emhttp has written.
use unraid.Cache.{cfg_updates, ShareCacheRequest}
use unraid.Base.{option_eq, ◌∷◌, Result, ◌++◌, if◌then◌else◌, Option, [], List, none, some, ok, err}
use unraid.Text.{Text, text_eq}
use unraid.Map.{Map, Set, get, contains_key, extend}
use unraid.Order.{list_ord, nat_ord}

pub data Problem : Type 0 where
  wanted_but : (key wanted : Text) (got : Option Text) → Problem
  sent_but : (key sent got : Text) → Problem
  changed : (key : Text) (before after : Option Text) → Problem

-- `for x in xs`, the problems of each in order.
abbrev pub each_problem : {A : Type 0} → (A → List Problem) → List A → List Problem
each_problem f [] = []
each_problem f (x ∷ xs) = f x ++ each_problem f xs

abbrev pub wanted : ShareCacheRequest → Map Text Text
wanted req = extend [] (cfg_updates req)

unfoldable pub wanted_problem : Map Text Text → Text × Text → List Problem
wanted_problem after (k, v) =
    if option_eq text_eq (get after k) (some v) then [] else wanted_but k v (get after k) ∷ []

-- A key that emhttp has newly written.
abbrev pub sent_problem : Text → Option Text → Option Text → List Problem
sent_problem k (some v) (some a) = if text_eq v a then [] else sent_but k v a ∷ []
sent_problem k _ _ = []

abbrev pub kept_problem : Text → Option Text → Option Text → Option Text → List Problem
kept_problem k none a s = sent_problem k s a
kept_problem k (some b) a s = if option_eq text_eq (some b) a then [] else changed k (some b) a ∷ []

unfoldable pub key_problem :
    Map Text Text → Map Text Text → Map Text Text → Map Text Text → Text → List Problem
key_problem wants before after sent k =
    if contains_key wants k then [] else kept_problem k (get before k) (get after k) (get sent k)

abbrev pub keys : Map Text Text → List Text
keys [] = []
keys ((k, _) ∷ m) = k ∷ keys m

abbrev pub with_unit : List Text → List (Text × Unit {0})
with_unit [] = []
with_unit (k ∷ ks) = (k, tt) ∷ with_unit ks

-- The set of the keys that are there before or after.
abbrev pub all_keys : Map Text Text → Map Text Text → Set Text
all_keys before after = extend [] (with_unit (keys before ++ keys after))

unfoldable pub check_read_back :
    Map Text Text
    → Map Text Text
    → Map Text Text
    → ShareCacheRequest
    → Result (List Problem) (Unit {0})
check_read_back before after sent req =
    let problems =
      each_problem (wanted_problem after) (wanted req)
      ++ each_problem (λ e. key_problem (wanted req) before after sent e.0)
          (all_keys before after) in
    elim problems [ [] ↦ ok tt | p ∷ ps ↦ err (p ∷ ps) ]
