-- ===== src/Cache/Write.antt =====
-- src/share_cache.rs: a change of a share's cache, sent to emhttp and checked.
use unraid.Cache.Ini.{parse_ini, first_value, skip_first, first_section, section_named, non_empty}
use unraid.Cache.ReadBack.{check_read_back, Problem}
use unraid.Cache.{form_values, cfg_updates, edit_query, ShareCacheRequest}
use unraid.Base.{
  map, [], ◌∷◌, Bool, guard, ok_or, ◌++◌, Option, Result, err, List, ok, none, some, false,
}
use unraid.Text.{join, Text, codes, lines, split_whitespace, text_eq}
use unraid.Map.{Map, extend}
use unraid.Order.{list_ord, nat_ord}

pub data WriteError : Type 0 where
  io : Text → WriteError
  no_share : Text → WriteError
  no_csrf_token : WriteError
  bad_status : Text → WriteError
  not_clean : List Problem → WriteError

-- An effect on the host.
abbrev pub Io : Type 0 → Type 0 → Type 0
Io W A = W → Result WriteError A × W

-- The files and the socket. `read_file` is that of safefs, its bytes decoded, and none for a file
-- that is not there; `request` answers a GET with the text of the response.
pub record Emhttp (W : Type 0) : Type 0 where
  pub read_to_string : Text → Io W Text
  pub read_file : Text → Io W (Option Text)
  pub request : Text → Io W Text

pub record Paths : Type 0 where
  pub ini : Text
  pub cfg_dir : Text
  pub var_ini : Text

abbrev pub of_check : Result (List Problem) (Unit {0}) → Result WriteError (Unit {0})
of_check (ok a) = ok a
of_check (err ps) = err (not_clean ps)

abbrev first_line : List Text → Text
first_line [] = []
first_line (l ∷ _) = l

abbrev second_is : Text → List Text → Bool
second_is t (_ ∷ w ∷ _) = text_eq w t
second_is t _ = false

-- The status of a response is 200.
unfoldable pub check_status : Text → Result WriteError (Unit {0})
check_status response =
    let status = first_line (lines response) in
    guard (second_is (codes "200") (split_whitespace status)) (bad_status status)

abbrev settings : Option Text → Map Text Text
settings none = []
settings (some text) = first_section (parse_ini text)

abbrev pub cfg_path : Paths → ShareCacheRequest → Text
cfg_path p req = p.cfg_dir ++ b'/' ∷ (req.share ++ codes ".cfg")

abbrev change_line : Text × Text → Text
change_line (k, v) = k ++ b'=' ∷ v

unfoldable pub report : ShareCacheRequest → Text
report req = join (codes "; ") (map change_line (cfg_updates req))

abbrev pub current_of : Text → Text → Result WriteError (Map Text Text)
current_of share text = ok_or (section_named share (skip_first (parse_ini text))) (no_share share)

module _ {W : Type 0} where
  infixl 5 ◌>>=◌
  unfoldable pub ◌>>=◌ : {A B : Type 0} → Io W A → (A → Io W B) → Io W B
  (act >>= next) w = let (res, w') = act w in elim res [ err e ↦ (err e, w') | ok a ↦ next a w' ]

  abbrev pub lift : {A : Type 0} → Result WriteError A → Io W A
  lift res w = (res, w)

  unfoldable pub emhttp_get : Emhttp W → Text → Io W (Unit {0})
  emhttp_get h query = do response ← h.request query; lift (check_status response)

  unfoldable pub read_csrf : Emhttp W → Text → Io W Text
  read_csrf h var_ini = do
    text ← h.read_to_string var_ini
    lift (ok_or (non_empty (first_value (codes "csrf_token") (parse_ini text))) no_csrf_token)

  unfoldable pub snapshot : Emhttp W → Text → Io W (Map Text Text)
  snapshot h path = do file ← h.read_file path; lift (ok (settings file))

  unfoldable pub apply_in : Emhttp W → Paths → ShareCacheRequest → Io W Text
  apply_in h p req = do
    text ← h.read_to_string p.ini
    current ← lift (current_of req.share text)
    csrf ← read_csrf h p.var_ini
    before ← snapshot h (cfg_path p req)
    _ ← emhttp_get h (edit_query current req csrf)
    after ← snapshot h (cfg_path p req)
    _ ← lift (of_check (check_read_back before after (extend [] (form_values current req)) req))
    lift (ok (report req))
