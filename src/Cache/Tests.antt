-- ===== src/Cache/Tests.antt =====
-- A share that gets another pool, and what the theorems say of it.
use unraid.Cache.Sent.{apply_in-one_query, logged}
use unraid.Base.{◌⊎◌}
use unraid.Cache.Plan.{unknown_share, needs_pool, list_in, op_for, plan_of, SetArgs, plan_in}
use unraid.Cache.Planned.{plan_in-Planned, Planned}
use unraid.Adopt.{priv_set_share_cache, PrivilegedOp}
use unraid.Cache.Ini.{parse_shares_ini, ShareCache, read_lines, header, read_line, parse_ini}
use unraid.Cache.Written.{Written}
use unraid.Cache.Write.{Paths, apply_in, Emhttp}
use unraid.Cache.Encoding.{All-of_all, InRange}
use unraid.Text.Utf8.{bytes}
use unraid.Cache.Check.{check_read_back-Settled}
use unraid.Cache.Settled.{All-map, Settled}
use unraid.Cache.Query.{below-InRange, edit_query-read_query, all_fields, sent_as}
use unraid.Cache.Decode.{read_query}
use unraid.Map.{contains_key, get, insert, extend, Map}
use unraid.Cache.{
  validate_pool, validate_share_name, encode_byte, find_update, cfg_updates, invalid_pool,
  invalid_use_cache, invalid_share_name, edit_query, nothing_to_set, ShareCacheRequest, new_request,
  form_values, urlencode,
}
use unraid.Cache.ReadBack.{key_problem, wanted_problem, changed, check_read_back}
use unraid.Base.{
  if◌then◌else◌, Option, All, ltb, all, List, refl, ◌↔◌, ◌∷◌, [], ◌≡◌, map, none, some, ok, err,
  true,
}
use unraid.Text.{
  split_whitespace, split_whitespace, split_once, trim, strip_prefix, lines, contains, starts_with,
  text_eq, is_ascii_alphanumeric, Text, codes,
}
use unraid.Order.{list_cmp, list_ord, nat_ord}

abbrev media : Map Text Text
media = extend [] (
    (codes "name", codes "media")
    ∷ (codes "comment", codes "films & more=100%")
    ∷ (codes "useCache", codes "no")
    ∷ [])

abbrev to_nvme : ShareCacheRequest
to_nvme = record {
  share = codes "media";
  use_cache = some (codes "prefer");
  cache_pool = some (codes "nvme");
  floor_kib = none;
}

new_request_tests :
    (new_request (codes "media") (some (codes "prefer")) (some (codes "nvme")) none ≡ ok to_nvme)
    × (new_request (codes "media") none none none ≡ err nothing_to_set)
    × (new_request (codes ".media") none none (some 5) ≡ err (invalid_share_name (codes ".media")))
    × (new_request (codes "media") (some (codes "maybe")) none none
        ≡ err (invalid_use_cache (codes "maybe")))
    × (new_request (codes "media") none (some (codes "NVME")) none
        ≡ err (invalid_pool (codes "NVME")))
unfolding new_request validate_share_name bytes starts_with is_ascii_alphanumeric contains text_eq
    validate_pool
new_request_tests = (refl, refl, refl, refl, refl)

urlencode_tests :
    (urlencode (codes "a b&c=~") ≡ codes "a%20b%26c%3D~") × (urlencode (codes "é") ≡ codes "%C3%A9")
unfolding urlencode bytes encode_byte is_ascii_alphanumeric
urlencode_tests = (refl, refl)

below_in_all :
    (fs : List (Text × Text))
    → all (λ f. all (λ c. ltb c 0x110000) f.1) fs ≡ true
    → All (λ f. InRange f.1) fs
below_in_all fs h =
    All-map (λ f. all (λ c. ltb c 0x110000) f.1 ≡ true) (λ f. InRange f.1) (λ f. below-InRange f.1)
      fs (All-of_all (λ f. all (λ c. ltb c 0x110000) f.1) fs h)

edit_query-read_query_example :
    read_query (edit_query media to_nvme (codes "T0K&EN"))
    ≡ some (map sent_as (all_fields media to_nvme (codes "T0K&EN")))
unfolding form_values cfg_updates find_update extend insert get list_cmp text_eq
edit_query-read_query_example =
    edit_query-read_query media to_nvme (codes "T0K&EN")
      (below_in_all (form_values media to_nvme) refl) (below-InRange (codes "T0K&EN") refl)

-- The cfg before and after, with a key that emhttp has newly written.
abbrev before : Map Text Text
before =
    extend [] ((codes "shareComment", codes "films") ∷ (codes "shareUseCache", codes "no") ∷ [])

abbrev after : Map Text Text
after = extend [] (
    (codes "shareCachePool", codes "nvme")
    ∷ (codes "shareComment", codes "films")
    ∷ (codes "shareCOW", codes "auto")
    ∷ (codes "shareUseCache", codes "prefer")
    ∷ [])

check_read_back-Settled_example :
    (check_read_back before after [] to_nvme ≡ ok tt) ↔ Settled before after [] to_nvme
check_read_back-Settled_example = check_read_back-Settled before after [] to_nvme

read_back_tests :
    (check_read_back before after [] to_nvme ≡ ok tt)
    × (check_read_back before (insert (codes "shareComment") (codes "") after) [] to_nvme
        ≡ err (changed (codes "shareComment") (some (codes "films")) (some (codes "")) ∷ []))
unfolding check_read_back extend cfg_updates insert list_cmp wanted_problem get text_eq key_problem
    contains_key
read_back_tests = (refl, refl)

-- A host with a share, whose emhttp answers each query and writes the cfg that it is to write.
pub record Server : Type 0 where
  ini : Text
  var : Text
  cfg : Option Text
  writes : Text
  queries : List Text

abbrev paths : Paths
paths = record { ini = codes "shares.ini"; cfg_dir = codes "shares"; var_ini = codes "var.ini" }

abbrev server_host : Emhttp Server
server_host = record {
  read_to_string = λ path w. (ok (if text_eq path (codes "shares.ini") then w.ini else w.var), w);
  read_file = λ path w. (ok w.cfg, w);
  request = λ query w.
      (ok (codes "HTTP/1.1 200 OK"), record w { cfg = some w.writes; queries = query ∷ w.queries });
}

abbrev server : Server
server = record {
  ini = codes "[\"media\"]\nname=\"media\"\nuseCache=\"no\"\n";
  var = codes "csrf_token=\"T0\"\n";
  cfg = some (codes "shareUseCache=\"no\"\nshareExport=\"e\"\n");
  writes = codes "shareUseCache=\"prefer\"\nshareCachePool=\"nvme\"\nshareExport=\"e\"\n";
  queries = [];
}

abbrev served : Server
served = record server {
  cfg = some server.writes;
  queries =
      codes
        "shareName=media&shareNameOrig=media&shareComment=&shareAllocator=&shareFloor=&shareSplitLevel=&shareInclude=&shareExclude=&shareUseCache=prefer&shareCachePool=nvme&shareCachePool2=&cmdEditShare=Apply&csrf_token=T0"
      ∷ [];
}

abbrev media_args : SetArgs
media_args = record {
  share = codes "media";
  use_cache = some (codes "prefer");
  cache_pool = some (codes "nvme");
  floor_kib = none;
}

abbrev media_now : ShareCache
media_now = record { share = codes "media"; use_cache = codes "no"; cache_pool = []; floor = [] }

abbrev media_op : PrivilegedOp
media_op = priv_set_share_cache (codes "media") (some (codes "prefer")) (some (codes "nvme")) none

planned_it : plan_in server.ini media_args ≡ ok (media_now, to_nvme, media_op)
unfolding plan_in plan_of op_for list_in parse_shares_ini parse_ini new_request validate_share_name
    validate_pool lines read_lines read_line header strip_prefix starts_with trim split_once insert
    get list_cmp text_eq bytes is_ascii_alphanumeric contains
planned_it = refl

plan_in-Planned_example :
    (plan_in server.ini media_args ≡ ok (media_now, to_nvme, media_op))
    ↔ Planned server.ini media_args media_now to_nvme media_op
plan_in-Planned_example = plan_in-Planned server.ini media_args media_now to_nvme media_op

refused_plans :
    (plan_in server.ini (record media_args { cache_pool = none })
      ≡ err (needs_pool (codes "prefer")))
    × (plan_in server.ini (record media_args { share = codes "isos" })
        ≡ err (unknown_share (codes "isos")))
unfolding plan_in plan_of op_for list_in parse_shares_ini parse_ini new_request validate_share_name
    validate_pool lines read_lines read_line header strip_prefix starts_with trim split_once insert
    get list_cmp text_eq bytes is_ascii_alphanumeric contains
refused_plans = (refl, refl)

apply_in-one_query_example :
    ((apply_in (logged server_host) paths to_nvme (server, [])).1.1 ≡ [])
    ⊎ ((query : Text) × (current : Map Text Text) × (csrf : Text) × (query
          ≡ edit_query current to_nvme csrf)
        × ((apply_in (logged server_host) paths to_nvme (server, [])).1.1 ≡ query ∷ []))
apply_in-one_query_example = apply_in-one_query server_host paths to_nvme server []
