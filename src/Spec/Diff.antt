-- ===== src/Spec/Diff.antt =====
-- The differences between two specs: `diff` of src/docker_adopt/spec.rs. A message keeps the
-- values that the source formats, as they are shown; src/docker_adopt/redact.rs, which masks them, is
-- the argument of type `Masks`.
use unraid.Base.{bool_eq, none, ◌&&◌, option_eq}
pub mod Entries
pub mod Gate
use Prim.Native.Nat.{ℕ}
use unraid.Order.{Ord, nat_ord, list_ord}
use unraid.Map.{Map, Set, get, contains_key}
use unraid.Spec.{
  [], ◌==◌, text_eq, not, ◌∷◌, false, ◌++◌, some, true, if◌then◌else◌, codes, Bool, Text, List,
  Option, RunSpec, MountSpec, mount_ord, unraid_pids_limit,
}

pub data Shown : Type 0 where
  text : Text → Shown
  flag : Bool → Shown
  optional : Option Text → Shown
  limit : Option ℕ → Shown
  mount : MountSpec → Shown
  words : List Text → Shown

pub data Message : Type 0 where
  entry_missing : (what key live : Text) → Message
  entry_differs : (what key live rendered : Text) → Message
  entry_extra : (what key rendered : Text) → Message
  item_missing item_extra : (what : Text) → Shown → Message
  value_differs : (what : Text) (live rendered : Shown) → Message
  hostname_becomes_id : (hostname : Text) → Message
  restart_dropped : (policy : Text) → Message
  pids_limit_added : Message
  unmodelled_flag : Text → Message

pub record Delta : Type 0 where
  pub msg : Message
  pub intended : Bool

abbrev pub blocking : Message → List Delta
blocking m = record { msg = m; intended = false } ∷ []

abbrev pub expected : Message → List Delta
expected m = record { msg = m; intended = true } ∷ []

-- `mask`, `mask_label` and `mask_cmd`
pub record Masks : Type 0 where
  pub mask : Text → Text → Text
  pub mask_label : Text → Text → Text
  pub mask_cmd : List Text → List Text

abbrev pub plain : Text → Text → Text
plain _ v = v

-- One entry of the live map against the rendered one.
missing_entry : Text → (Text → Text → Text) → Text → Text → Option Text → List Delta
missing_entry what show k v none = blocking (entry_missing what k (show k v))
missing_entry what show k v (some g) =
    if not (text_eq g v) then blocking (entry_differs what k (show k v) (show k g)) else []

unfoldable pub missing_entries :
    Text → (Text → Text → Text) → Map Text Text → Map Text Text → List Delta
unfolding missing_entry
missing_entries what show [] got = []
missing_entries what show ((k, v) ∷ want) got =
    missing_entry what show k v (get got k) ++ missing_entries what show want got

unfoldable pub extra_entries :
    Text → (Text → Text → Text) → Map Text Text → Map Text Text → List Delta
extra_entries what show [] want = []
extra_entries what show ((k, g) ∷ got) want =
    (if not (contains_key want k) then blocking (entry_extra what k (show k g)) else [])
    ++ extra_entries what show got want

unfoldable pub diff_map : Text → (Text → Text → Text) → Map Text Text → Map Text Text → List Delta
diff_map what show want got = missing_entries what show want got ++ extra_entries what show got want

-- The items of the first set that the second lacks, each with a message.
unfoldable pub difference : {K : Type 0} ⦃o : Ord K⦄ → (K → Message) → Set K → Set K → List Delta
difference say [] other = []
difference say ((k, _) ∷ items) other =
    (if not (contains_key other k) then blocking (say k) else []) ++ difference say items other

unfoldable pub diff_set : {K : Type 0} ⦃o : Ord K⦄ → Text → (K → Shown) → Set K → Set K → List Delta
diff_set what show want got =
    difference (λ k. item_missing what (show k)) want got
    ++ difference (λ k. item_extra what (show k)) got want

abbrev pub diff_value : Text → Bool → Shown → Shown → List Delta
diff_value what same want got = if same then [] else blocking (value_differs what want got)

pub data DiffMode : Type 0 where
  adopt set_icon : DiffMode

-- The hostnames, and whether each is the default of docker.
unfoldable pub diff_hostname : Option Text → Bool → Option Text → Bool → List Delta
diff_hostname (some h) a_default none b_default =
    if a_default
    then expected (hostname_becomes_id h)
    else blocking (value_differs (codes "hostname") (optional (some h)) (optional none))
diff_hostname none a_default (some h) b_default =
    if b_default
    then []
    else blocking (value_differs (codes "hostname") (optional none) (optional (some h)))
diff_hostname a a_default b b_default =
    diff_value (codes "hostname") (option_eq text_eq a b) (optional a) (optional b)

unfoldable pub diff_restart : Option Text → Option Text → DiffMode → List Delta
diff_restart (some r) none set_icon = expected (restart_dropped r)
diff_restart a b _ = diff_value (codes "restart") (option_eq text_eq a b) (optional a) (optional b)

unfoldable pub diff_pids_limit : Option ℕ → Option ℕ → List Delta
diff_pids_limit none (some n) =
    if n == unraid_pids_limit
    then expected pids_limit_added
    else blocking (value_differs (codes "pids-limit") (limit none) (limit (some n)))
diff_pids_limit a b = diff_value (codes "pids-limit") (option_eq ◌==◌ a b) (limit a) (limit b)

unfoldable pub words_eq : List Text → List Text → Bool
words_eq [] [] = true
words_eq (a ∷ s) (b ∷ t) = text_eq a b && words_eq s t
words_eq _ _ = false

unfoldable pub unmodelled : List Text → List Delta
unmodelled [] = []
unmodelled (o ∷ os) = blocking (unmodelled_flag o) ++ unmodelled os

unfoldable pub diff : Masks → RunSpec → RunSpec → DiffMode → List Delta
diff r want got mode =
    diff_value (codes "name") (text_eq want.name got.name) (text want.name) (text got.name)
    ++ (diff_value (codes "image") (text_eq want.image got.image) (text want.image) (text got.image)
        ++ (diff_value (codes "network") (text_eq want.network got.network) (text want.network)
              (text got.network)
            ++ (diff_value (codes "privileged") (bool_eq want.privileged got.privileged)
                  (flag want.privileged) (flag got.privileged)
                ++ (diff_hostname want.hostname want.hostname_is_default got.hostname
                      got.hostname_is_default
                    ++ (diff_set (codes "port") text want.ports got.ports
                        ++ (diff_map (codes "env") r.mask want.env got.env
                            ++ (diff_value (codes "TZ") (text_eq want.tz got.tz) (text want.tz)
                                  (text got.tz)
                                ++ (diff_set (codes "mount") mount want.mounts got.mounts
                                    ++ (diff_map (codes "tmpfs") plain want.tmpfs got.tmpfs
                                        ++ (diff_value (codes "log driver")
                                              (text_eq want.log_driver got.log_driver)
                                              (text want.log_driver) (text got.log_driver)
                                            ++ (diff_map (codes "log-opt") r.mask want.log_opts
                                                  got.log_opts
                                                ++ (diff_value (codes "gpus")
                                                      (option_eq text_eq want.gpus got.gpus)
                                                      (optional want.gpus) (optional got.gpus)
                                                    ++ (diff_restart want.restart got.restart mode
                                                        ++ (diff_pids_limit want.pids_limit
                                                            got.pids_limit
                                                            ++ (diff_map (codes "label")
                                                            r.mask_label want.labels got.labels
                                                            ++ (diff_value (codes "command")
                                                            (words_eq want.cmd got.cmd)
                                                            (words (r.mask_cmd want.cmd))
                                                            (words (r.mask_cmd got.cmd))
                                                            ++ unmodelled got.other))))))))))))))))
