-- ===== src/Orphans/Suffixes.antt =====
-- src/docker_adopt/orphans.rs: `appdata_suffixes`.
use unraid.Map.{contains_key, add, Set}
use unraid.Text.Numbers.{decimal}
use unraid.Text.{codes, is_empty, strip_prefix, Text}
use unraid.Base.{
  zero, length, ◌+◌, ltb, ◌++◌, suc, get_or, if◌then◌else◌, List, Option, ℕ, some, [], ◌∷◌,
}
use unraid.Order.{list_ord, nat_ord}
use unraid.Base.{none}

-- The two rounds of the inner loops: with `-`, then with `_`.
abbrev strip_name : Text → Text → Text
strip_name p s =
    let s' = get_or (strip_prefix (p ++ b'-' ∷ []) s) s in
    get_or (strip_prefix (p ++ b'_' ∷ []) s') s'

abbrev strip_project : Option Text → Text → Text
strip_project none s = s
strip_project (some p) s = strip_name p s

unfoldable pub suffix_base : Text → Option Text → Text → Text
unfolding strip_prefix
suffix_base name project vol =
    let s = strip_project project (strip_name name vol) in if is_empty s then codes "data" else s

-- The candidates of the inner `while`: the base, then the base with a number from 2 on.
unfoldable pub candidate : Text → ℕ → Text
unfolding decimal
candidate base n = if ltb n 2 then base else base ++ b'-' ∷ decimal n

-- The `while`: the first candidate that is not used, from the number on.
unfoldable pub free_candidate : ℕ → Set Text → Text → ℕ → Option Text
unfolding candidate
free_candidate zero used base n = none
free_candidate (suc fuel) used base n =
    let later = free_candidate fuel used base (n + 1) in
    if contains_key used (candidate base n) then later else some (candidate base n)

abbrev and_then : Option Text → (Text → Option (List Text)) → Option (List Text)
and_then none next = none
and_then (some t) next = next t

abbrev pub cons_all : Text → Option (List Text) → Option (List Text)
cons_all t none = none
cons_all t (some ts) = some (t ∷ ts)

unfoldable pub suffixes_from : Text → Option Text → Set Text → List Text → Option (List Text)
suffixes_from name project used [] = some []
suffixes_from name project used (vol ∷ vols) =
    and_then (free_candidate (suc (length used)) used (suffix_base name project vol) 1)
      (λ cand. cons_all cand (suffixes_from name project (add cand used) vols))

-- None when the fuel ends, which `appdata_suffixes-apart` shows that it never does.
unfoldable pub appdata_suffixes : Text → Option Text → List Text → Option (List Text)
unfolding suffixes_from
appdata_suffixes name project volumes = suffixes_from name project [] volumes
