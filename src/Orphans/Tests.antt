-- ===== src/Orphans/Tests.antt =====
-- The suffixes and the paths of the source's own tests.
use unraid.Text.Numbers.{decimal_from, decimal}
use unraid.Orphans.Apart.{appdata_suffixes-apart}
use unraid.Map.{insert, add, contains_key}
use unraid.Map.Pigeonhole.{AreDistinct}
use unraid.Text.{strip_prefix, text_eq, starts_with, split, codes, Text}
use unraid.Paths.{file_name, parent, components}
use unraid.Orphans.Compose.{share_alias, retire_target}
use unraid.Orphans.Suffixes.{
  candidate, free_candidate, suffix_base, suffixes_from, appdata_suffixes,
}
use unraid.Base.{refl, length, ◌≡◌, List, some, [], ◌∷◌}
use unraid.Order.{list_cmp, list_ord, nat_ord}

abbrev four : List Text
four = codes "whisper-ai_whisper_cache" ∷ codes "stack_data" ∷ codes "data" ∷ codes "other" ∷ []

four_suffixes :
    appdata_suffixes (codes "whisper-ai") (some (codes "stack")) four
    ≡ some (codes "whisper_cache" ∷ codes "data" ∷ codes "data-2" ∷ codes "other" ∷ [])
unfolding appdata_suffixes suffixes_from suffix_base free_candidate candidate strip_prefix
    contains_key list_cmp add insert decimal decimal_from
four_suffixes = refl

appdata_suffixes-apart_example :
    (out : List Text) × (appdata_suffixes (codes "whisper-ai") (some (codes "stack")) four
      ≡ some out)
    × (length out ≡ length four)
    × AreDistinct out
appdata_suffixes-apart_example =
    appdata_suffixes-apart (codes "whisper-ai") (some (codes "stack")) four

aliased :
    share_alias (components (codes "/mnt/cache/appdata/x"))
    ≡ components (codes "/mnt/user/appdata/x")
unfolding share_alias components split starts_with text_eq
aliased = refl

kept_root :
    share_alias (components (codes "/mnt/remotes/nas/x")) ≡ components (codes "/mnt/remotes/nas/x")
unfolding share_alias components split starts_with text_eq
kept_root = refl

retired_stack :
    retire_target (components (codes "/opt/stacks/dockge")) (codes "dockge") (codes "20261004")
    ≡ some (components (codes "/opt/stacks-retired/dockge-compose-20261004"))
unfolding retire_target components split starts_with text_eq parent file_name
retired_stack = refl
