-- ===== src/Cache.antt =====
-- src/share_cache.rs: the request to change a share's cache, and the query that emhttp is sent.
pub mod ReadBack
pub mod Settled
pub mod Keys
pub mod Check
pub mod Decode
pub mod Ini
pub mod Write
pub mod Plan
pub mod Accepted
pub mod Listed
pub mod Planned
pub mod Written
pub mod Sent
pub mod Encoding
pub mod Query
mod Tests
use unraid.Map.{get, Map}
use unraid.Base.{
  ◌==◌, reverse, ◌-◌, all, ◌&&◌, elem, ◌+◌, ◌%◌, length, ◌/◌, leb, ltb, not, ◌||◌, [], ◌∷◌, ◌>>◌,
  guard, get_or, Bool, if◌then◌else◌, Result, ℕ, ◌++◌, List, map, Option, none, some, ok, err, true,
  false,
}
use unraid.Order.{list_ord, nat_ord}
use unraid.Text.{
  starts_with, is_empty, Text, codes, contains, text_eq, is_ascii_digit, is_ascii_alphanumeric,
  join,
}
use unraid.Text.Utf8.{bytes}
use unraid.Text.Numbers.{decimal}

pub data RequestError : Type 0 where
  invalid_share_name : Text → RequestError
  nothing_to_set : RequestError
  invalid_use_cache invalid_pool : Text → RequestError

abbrev pub use_cache_modes : List Text
use_cache_modes = codes "no" ∷ codes "yes" ∷ codes "only" ∷ codes "prefer" ∷ []

-- The fields of the form, each with its key in shares.ini.
abbrev pub edit_fields : List (Text × Text)
edit_fields =
    (codes "shareName", codes "name")
    ∷ (codes "shareNameOrig", codes "name")
    ∷ (codes "shareComment", codes "comment")
    ∷ (codes "shareAllocator", codes "allocator")
    ∷ (codes "shareFloor", codes "floor")
    ∷ (codes "shareSplitLevel", codes "splitLevel")
    ∷ (codes "shareInclude", codes "include")
    ∷ (codes "shareExclude", codes "exclude")
    ∷ (codes "shareUseCache", codes "useCache")
    ∷ (codes "shareCachePool", codes "cachePool")
    ∷ (codes "shareCachePool2", codes "cachePool2")
    ∷ []

-- `validate_share_name` of src/smb_share_write.rs
unfoldable pub validate_share_name : Text → Result RequestError (Unit {0})
validate_share_name name =
    guard
      (not (is_empty name)
        && leb (length (bytes name)) 64
        && not (starts_with (codes ".") name || starts_with (codes " ") name)
        && not (starts_with (codes " ") (reverse name))
        && all (λ c. is_ascii_alphanumeric c || elem c (codes " _-.+()")) name)
      (invalid_share_name name)

is_ascii_lowercase : ℕ → Bool
is_ascii_lowercase c = leb b'a' c && leb c b'z'

abbrev first_is : (ℕ → Bool) → List ℕ → Bool
first_is p [] = false
first_is p (c ∷ _) = p c

unfoldable pub validate_pool : Text → Result RequestError (Unit {0})
unfolding is_ascii_lowercase
validate_pool p =
    guard
      (leb (length (bytes p)) 40
        && first_is is_ascii_lowercase (bytes p)
        && all (λ c. is_ascii_lowercase c || is_ascii_digit c || c == b'_') (bytes p))
      (invalid_pool p)

pub record ShareCacheRequest : Type 0 where
  pub share : Text
  pub use_cache : Option Text
  pub cache_pool : Option Text
  pub floor_kib : Option ℕ

abbrev pub is_none {ℓ} : {A : Type ℓ} → Option A → Bool
is_none none = true
is_none (some _) = false

abbrev pub validate_mode : Option Text → Result RequestError (Unit {0})
validate_mode none = ok tt
validate_mode (some m) = guard (contains use_cache_modes m) (invalid_use_cache m)

abbrev pub validate_some_pool : Option Text → Result RequestError (Unit {0})
validate_some_pool none = ok tt
validate_some_pool (some p) = validate_pool p

-- `ShareCacheRequest::new`
unfoldable pub new_request :
    Text → Option Text → Option Text → Option ℕ → Result RequestError ShareCacheRequest
new_request share use_cache cache_pool floor_kib = do
  validate_share_name share
  guard (not (is_none use_cache && is_none cache_pool && is_none floor_kib)) nothing_to_set
  validate_mode use_cache
  validate_some_pool cache_pool
  ok (record {
    share = share;
    use_cache = use_cache;
    cache_pool = cache_pool;
    floor_kib = floor_kib;
  })

abbrev update : Text → Option Text → List (Text × Text)
update field none = []
update field (some v) = (field, v) ∷ []

abbrev map_option : {A B : Type 0} → (A → B) → Option A → Option B
map_option f none = none
map_option f (some a) = some (f a)

unfoldable pub cfg_updates : ShareCacheRequest → List (Text × Text)
cfg_updates req =
    update (codes "shareUseCache") req.use_cache
    ++ (update (codes "shareCachePool") req.cache_pool
        ++ update (codes "shareFloor") (map_option decimal req.floor_kib))

-- The bytes that a query keeps.
unfoldable pub is_unreserved : ℕ → Bool
is_unreserved b = is_ascii_alphanumeric b || elem b (codes "-_.~")

abbrev pub hex_upper : ℕ → ℕ
hex_upper d = if ltb d 10 then b'0' + d else b'A' + (d - 10)

-- One byte, as it is or as `%XX`.
unfoldable pub encode_byte : ℕ → Text
unfolding is_unreserved
encode_byte b =
    if is_unreserved b then b ∷ [] else b'%' ∷ hex_upper (b / 16) ∷ hex_upper (b % 16) ∷ []

unfoldable pub encode_bytes : List ℕ → Text
encode_bytes [] = []
encode_bytes (b ∷ bs) = encode_byte b ++ encode_bytes bs

unfoldable pub urlencode : Text → Text
unfolding encode_bytes
urlencode v = encode_bytes (bytes v)

-- `iter().find(|(f, _)| f == field)`
unfoldable pub find_update : List (Text × Text) → Text → Option Text
find_update [] field = none
find_update ((f, v) ∷ us) field = if text_eq f field then some v else find_update us field

abbrev or_else : Option Text → Option Text → Option Text
or_else (some v) other = some v
or_else none other = other

abbrev pub form_value : Map Text Text → ShareCacheRequest → Text × Text → Text × Text
form_value current req (field, key) =
    (field, get_or (or_else (find_update (cfg_updates req) field) (get current key)) [])

unfoldable pub form_values : Map Text Text → ShareCacheRequest → List (Text × Text)
form_values current req = map (form_value current req) edit_fields

abbrev pub form_part : Text × Text → Text
form_part (field, v) = field ++ b'=' ∷ urlencode v

unfoldable pub edit_query : Map Text Text → ShareCacheRequest → Text → Text
edit_query current req csrf = join (codes "&") (
    map form_part (form_values current req)
    ++ codes "cmdEditShare=Apply" ∷ (codes "csrf_token=" ++ urlencode csrf) ∷ [])
