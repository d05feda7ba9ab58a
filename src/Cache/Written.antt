-- ===== src/Cache/Written.antt =====
-- A change that is reported as applied has been written, and nothing else has changed.
use unraid.Cache.Write.{check_status, current_of, read_csrf}
use unraid.Cache.Settled.{Settled}
use unraid.Cache.{form_values, edit_query, ShareCacheRequest}
use unraid.Cache.Write.{cfg_path, snapshot, Paths, Emhttp}
use unraid.Base.{[], ok, ◌≡◌}
use unraid.Text.{Text}
use unraid.Map.{Map, extend}
use unraid.Order.{list_ord, nat_ord}

-- What a change did on the host, from the state `begin` to the state `end`: it read the share's
-- settings and the token, and then the cfg; it sent the query of the form; emhttp answered with the
-- status 200; and it read the cfg again. Each of these begins where the one before it ended.
pub record Written {W : Type 0} (h : Emhttp W) (p : Paths) (req : ShareCacheRequest) (begin end : W)
    : Type 0 where
  pub ini : Text
  pub current : Map Text Text
  pub csrf : Text
  pub before : Map Text Text
  pub response : Text
  pub after : Map Text Text
  pub listed : W
  pub allowed : W
  pub asked : W
  pub done : W
  pub ini_read : h.read_to_string p.ini begin ≡ (ok ini, listed)
  pub is_current : current_of req.share ini ≡ ok current
  pub token_read : read_csrf h p.var_ini listed ≡ (ok csrf, allowed)
  pub snapshot_before : snapshot h (cfg_path p req) allowed ≡ (ok before, asked)
  pub sent : h.request (edit_query current req csrf) asked ≡ (ok response, done)
  pub answered : check_status response ≡ ok tt
  pub snapshot_after : snapshot h (cfg_path p req) done ≡ (ok after, end)
  pub settled : Settled before after (extend [] (form_values current req)) req
