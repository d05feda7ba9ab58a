-- ===== src/Spec/Parse/Ordered.antt =====
-- A parsed spec has its maps and sets in order.
use unraid.Shell.{shell_split}
use unraid.Text.Numbers.{parse_i64}
use unraid.Map.{remove, IsSorted, Map, add}
use unraid.Text.{is_empty, trim, starts_with, codes, Text}
use unraid.Base.{
  guard, not, List, ◌≡◌, [], ◌∷◌, ◌++◌, ok_or, none, some, Option, false, err, true, ◌>>=◌, ok,
  if◌then◌else◌, Bool, Result,
}
use unraid.Map.Laws.{IsSorted-retain, IsSorted-remove, IsSorted-insert}
use unraid.Order.{nat_ord, list_ord}
use unraid.Spec.{
  unraid_label_prefix, unraid_env, remove_all, normalized, MountSpec, RunSpec, mount_ord,
}
use unraid.Spec.Agrees.{IsOrdered}
use unraid.Spec.Mounts.{parse_mount, parse_volume, parse_publish, pair_at, SpecError}
use unraid.Spec.Parse.{
  after_subcommand, of_shell, initial, read_words, parse_command, is_true, split_flag, Flag,
  read_flag, flag_of, set_arm, reading, take_value, set_flag, Reader,
}

-- The spec of a result, if there is one, is ordered.
Orders : Result SpecError RunSpec → Type 0
Orders (ok s) = IsOrdered s
Orders (err _) = Unit

Orders-ok : (s : RunSpec) → IsOrdered s → Orders (ok s)
unfolding Orders
Orders-ok s h = h

Orders-bind :
    {A : Type 0} (m : Result SpecError A) (f : A → Result SpecError RunSpec)
    → ((a : A) → Orders (f a))
    → Orders (m >>= f)
unfolding Orders
Orders-bind (ok a) f h = h a
Orders-bind (err e) f h = tt

add-IsOrdered_ports :
    (s : RunSpec) (p : Text) → IsOrdered s → IsOrdered (record s { ports = add p s.ports })
unfolding add
add-IsOrdered_ports s p h = let new = IsSorted-insert p tt s.ports h.ports in assumption (h, new)

add-IsOrdered_mounts :
    (s : RunSpec) (m : MountSpec) → IsOrdered s → IsOrdered (record s { mounts = add m s.mounts })
unfolding add
add-IsOrdered_mounts s m h = let new = IsSorted-insert m tt s.mounts h.mounts in assumption (h, new)

set_arm-Orders :
    (arm : Flag) (flag : Text) (s : RunSpec) (value : Text)
    → IsOrdered s
    → Orders (set_arm arm flag s value)
unfolding set_arm Orders
set_arm-Orders Flag.env flag s v h =
    let p = pair_at b'=' v in let new = IsSorted-insert p.0 p.1 s.env h.env in assumption (h, new)
set_arm-Orders Flag.label flag s v h =
    let p = pair_at b'=' v in
    let new = IsSorted-insert p.0 p.1 s.labels h.labels in assumption (h, new)
set_arm-Orders Flag.tmpfs flag s v h =
    let p = pair_at b':' v in
    let new = IsSorted-insert p.0 p.1 s.tmpfs h.tmpfs in assumption (h, new)
set_arm-Orders Flag.log_opt flag s v h =
    let p = pair_at b'=' v in
    let new = IsSorted-insert p.0 p.1 s.log_opts h.log_opts in assumption (h, new)
set_arm-Orders Flag.publish flag s v h =
    Orders-bind (parse_publish v) _ (λ p. add-IsOrdered_ports s p h)
set_arm-Orders Flag.volume flag s v h =
    Orders-bind (parse_volume v) _ (λ m. add-IsOrdered_mounts s m h)
set_arm-Orders Flag.mount flag s v h =
    Orders-bind (parse_mount v) _ (λ m. add-IsOrdered_mounts s m h)
set_arm-Orders Flag.pids_limit flag s v h =
    Orders-bind (ok_or (parse_i64 v) (SpecError.bad_pids_limit v)) _ (λ n. assumption h)
set_arm-Orders _ flag s v h = assumption h

-- The spec that a word leaves is ordered, whether or not its flag waits for a value.
ReadsOrders : Result SpecError Reader → Type 0
ReadsOrders (ok r) = IsOrdered r.spec
ReadsOrders (err _) = Unit

ReadsOrders-reading :
    (m : Result SpecError RunSpec) → Orders m → ReadsOrders (m >>= λ t. ok (reading t))
unfolding ReadsOrders Orders
ReadsOrders-reading (ok t) h = h
ReadsOrders-reading (err e) h = tt

take_value-Orders :
    (s : RunSpec) (flag : Text) (inline : Option Text)
    → IsOrdered s
    → ReadsOrders (take_value s flag inline)
unfolding take_value ReadsOrders
take_value-Orders s flag none h = h
take_value-Orders s flag (some v) h =
    ReadsOrders-reading (set_flag s flag v) (set_arm-Orders (flag_of flag) flag s v h)

ReadsOrders-if :
    (b : Bool) (x y : Result SpecError Reader)
    → ReadsOrders x
    → ReadsOrders y
    → ReadsOrders (if b then x else y)
ReadsOrders-if true x y h k = h
ReadsOrders-if false x y h k = k

ReadsOrders-ok : (r : Reader) → IsOrdered r.spec → ReadsOrders (ok r)
unfolding ReadsOrders
ReadsOrders-ok r h = h

ReadsOrders-bind :
    (m : Result SpecError Reader) (f : Reader → Result SpecError RunSpec)
    → ((r : Reader) → IsOrdered r.spec → Orders (f r))
    → ReadsOrders m
    → Orders (m >>= f)
unfolding ReadsOrders Orders
ReadsOrders-bind (ok r) f h k = h r k
ReadsOrders-bind (err e) f h k = tt

Orders-bind_ok :
    (m : Result SpecError RunSpec) (f : RunSpec → Result SpecError RunSpec)
    → ((s : RunSpec) → IsOrdered s → Orders (f s))
    → Orders m
    → Orders (m >>= f)
unfolding Orders
Orders-bind_ok (ok s) f h k = h s k
Orders-bind_ok (err e) f h k = tt

Orders-if :
    (b : Bool) (x y : Result SpecError RunSpec) → Orders x → Orders y → Orders (if b then x else y)
Orders-if true x y h k = h
Orders-if false x y h k = k

read_flag-Orders : (s : RunSpec) (w : Text) → IsOrdered s → ReadsOrders (read_flag s w)
unfolding read_flag
read_flag-Orders s w h =
    let (flag, inline) = split_flag w in
    let set : IsOrdered (record s { privileged = is_true inline }) = assumption h in
    let kept : IsOrdered (record s { other = s.other ++ w ∷ [] }) = assumption h in
    ReadsOrders-if _ _ _ (ReadsOrders-ok _ set)
      (ReadsOrders-if _ _ _ (ReadsOrders-ok _ kept) (take_value-Orders s flag inline h))

read_words-Orders :
    (ws : List Text) (s : RunSpec) (waiting : Option Text)
    → IsOrdered s
    → Orders (read_words s waiting ws)
unfolding read_words
read_words-Orders [] s none h = unfold Orders in h
read_words-Orders [] s (some flag) h = unfold Orders in tt
read_words-Orders (v ∷ ws) s (some flag) h =
    Orders-bind_ok (set_flag s flag v) (λ t. read_words t none ws)
      (λ t k. read_words-Orders ws t none k) (set_arm-Orders (flag_of flag) flag s v h)
read_words-Orders (w ∷ ws) s none h =
    let found : IsOrdered (record s { image = w; cmd = ws }) = assumption h in
    Orders-if _ _ _ (Orders-ok _ found) (
      ReadsOrders-bind (read_flag s w) _ (λ r k. read_words-Orders ws r.spec r.waiting k)
        (read_flag-Orders s w h))

remove_all-IsSorted : (ks : List Text) (m : Map Text Text) → IsSorted m → IsSorted (remove_all ks m)
unfolding remove_all
remove_all-IsSorted [] m s = s
remove_all-IsSorted (k ∷ ks) m s = remove_all-IsSorted ks (remove k m) (IsSorted-remove k m s)

pub normalized-IsOrdered : (s : RunSpec) → IsOrdered s → IsOrdered (normalized s)
unfolding normalized
normalized-IsOrdered s h =
    let env =
      IsSorted-remove (codes "TZ") (remove_all unraid_env s.env)
        (remove_all-IsSorted unraid_env s.env h.env) in
    let labels =
      IsSorted-retain (λ k _. not (starts_with unraid_label_prefix k)) s.labels h.labels in
    record {
      ports = h.ports;
      env = env;
      mounts = h.mounts;
      tmpfs = h.tmpfs;
      log_opts = h.log_opts;
      labels = labels;
    }

parse_command-Orders : (cmd : Text) → Orders (parse_command cmd)
unfolding parse_command
parse_command-Orders cmd =
    let start : IsOrdered initial = record {
      ports = tt;
      env = tt;
      mounts = tt;
      tmpfs = tt;
      log_opts = tt;
      labels = tt;
    } in
    Orders-bind (of_shell (shell_split (trim cmd))) _ λ words.
      Orders-bind (ok_or (after_subcommand words) SpecError.no_subcommand) _ λ args.
        Orders-bind_ok (read_words initial none args) _
          (λ spec k.
            Orders-bind (guard (not (is_empty spec.image)) SpecError.no_image) _
              λ _. Orders-ok (normalized spec) (normalized-IsOrdered spec k))
          (read_words-Orders args initial none start)

-- The spec that is parsed from a command has each key once, in order.
pub parse_command-IsOrdered : (cmd : Text) (s : RunSpec) → parse_command cmd ≡ ok s → IsOrdered s
unfolding Orders
parse_command-IsOrdered cmd s e = rw e at (parse_command-Orders cmd)
