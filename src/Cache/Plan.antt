-- ===== src/Cache/Plan.antt =====
-- src/share_cache.rs: the listing of shares, and the plan of a change.
use unraid.Adopt.{priv_set_share_cache, PrivilegedOp}
use unraid.Cache.Ini.{parse_shares_ini, ShareCache}
use unraid.Cache.{new_request, ShareCacheRequest, RequestError}
use unraid.Base.{
  not, ◌||◌, guard, ◌>>◌, ◌>>=◌, keep, [], ◌∷◌, Bool, ℕ, Option, Result, List, none, some, ok, err,
  get_or,
}
use unraid.Text.{is_empty, Text, codes, text_eq}

pub data PlanError : Type 0 where
  request : RequestError → PlanError
  unknown_share : Text → PlanError
  needs_pool : Text → PlanError

abbrev pub is_share : Text → ShareCache → Bool
is_share name s = text_eq s.share name

abbrev pub some_listed : Text → List ShareCache → Result PlanError (List ShareCache)
some_listed name [] = err (unknown_share name)
some_listed name (s ∷ ss) = ok (s ∷ ss)

-- `list_in`, over the text of shares.ini.
unfoldable pub list_in : Text → Option Text → Result PlanError (List ShareCache)
list_in text none = ok (parse_shares_ini text)
list_in text (some name) = some_listed name (keep (is_share name) (parse_shares_ini text))

-- The arguments of the tool that the request is made from.
pub record SetArgs : Type 0 where
  pub share : Text
  pub use_cache : Option Text
  pub cache_pool : Option Text
  pub floor_kib : Option ℕ

abbrev pub of_request {ℓ} : {A : Type ℓ} → Result RequestError A → Result PlanError A
of_request (ok a) = ok a
of_request (err e) = err (request e)

unfoldable pub op_for : SetArgs → Result PlanError (ShareCacheRequest × PrivilegedOp)
op_for args = do
  req ← of_request (new_request args.share args.use_cache args.cache_pool args.floor_kib)
  ok (req, priv_set_share_cache args.share args.use_cache args.cache_pool args.floor_kib)

abbrev pub first_share : Text → List ShareCache → Result PlanError ShareCache
first_share name [] = err (unknown_share name)
first_share name (s ∷ _) = ok s

-- A cached mode needs a pool.
abbrev pub is_pooled : ShareCacheRequest → ShareCache → Bool
is_pooled req current =
    text_eq (get_or req.use_cache current.use_cache) (codes "no")
    || not (is_empty (get_or req.cache_pool current.cache_pool))

-- `remove(0)` of a list that is not empty.
unfoldable pub plan_of :
    Text
    → ShareCacheRequest
    → PrivilegedOp
    → Result PlanError (ShareCache × ShareCacheRequest × PrivilegedOp)
plan_of text req op = do
  shares ← list_in text (some req.share)
  current ← first_share req.share shares
  guard (is_pooled req current) (needs_pool (get_or req.use_cache current.use_cache))
  ok (current, req, op)

unfoldable pub plan_in :
    Text → SetArgs → Result PlanError (ShareCache × ShareCacheRequest × PrivilegedOp)
plan_in text args = do planned ← op_for args; plan_of text planned.0 planned.1
