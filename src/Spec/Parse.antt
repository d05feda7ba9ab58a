-- ===== src/Spec/Parse.antt =====
-- Parsing a rendered `docker create` command: `parse_command` of src/docker_adopt/spec.rs.
pub mod Ordered
use unraid.Base.{
  ◌||◌, ◌++◌, ◌==◌, zero, guard, ◌>>◌, not, ok_or, if◌then◌else◌, true, suc, ◌>>=◌, err, some, ok,
  Result,
}
use unraid.Text.{split_once, contains}
use unraid.Text.Numbers.{ℤ, parse_i64}
use unraid.Shell.{ShellError, shell_split}
use unraid.Map.{Map, insert, add}
use unraid.Order.{nat_ord, list_ord}
use unraid.Spec.{
  trim_matches, is_empty, starts_with, trim, ◌∷◌, codes, [], Option, List, none, Bool, Text, ℕ,
  RunSpec, default_spec, default_log_driver, normalized, mount_ord,
}
use unraid.Spec.Mounts.{
  SpecError, shell, no_subcommand, no_value, bad_pids_limit, no_image, is, pair_at, parse_publish,
  parse_volume, parse_mount,
}

abbrev bool_flags : List Text
bool_flags =
    codes "-d"
    ∷ codes "--detach"
    ∷ codes "-i"
    ∷ codes "--interactive"
    ∷ codes "-t"
    ∷ codes "--tty"
    ∷ codes "--rm"
    ∷ codes "--init"
    ∷ codes "--read-only"
    ∷ []

-- `(n > 0).then_some(n)`
abbrev pub positive : ℤ → Option ℕ
positive (ℤ.pos zero) = none
positive (ℤ.pos (suc n)) = some (suc n)
positive (ℤ.negsuc n) = none

abbrev is_quote : ℕ → Bool
is_quote c = c == b'"'

-- The arms of the match on a flag that has a value.
pub data Flag : Type 0 where
  name network hostname env label publish volume mount tmpfs log_driver log_opt gpus restart : Flag
  pids_limit other : Flag

unfoldable pub flag_of : Text → Flag
flag_of flag =
    if is flag "--name"
    then name
    else if is flag "--net" || is flag "--network"
    then network
    else if is flag "-h" || is flag "--hostname"
    then hostname
    else if is flag "-e" || is flag "--env"
    then env
    else if is flag "-l" || is flag "--label"
    then label
    else if is flag "-p" || is flag "--publish"
    then publish
    else if is flag "-v" || is flag "--volume"
    then volume
    else if is flag "--mount"
    then mount
    else if is flag "--tmpfs"
    then tmpfs
    else if is flag "--log-driver"
    then log_driver
    else if is flag "--log-opt"
    then log_opt
    else if is flag "--gpus"
    then gpus
    else if is flag "--restart"
    then restart
    else if is flag "--pids-limit"
    then pids_limit
    else other

abbrev pub insert_pair : ℕ → Text → Map Text Text → Map Text Text
insert_pair c value m = let (k, v) = pair_at c value in insert k v m

-- What an arm does; the text is the flag, for the last arm.
unfoldable pub set_arm : Flag → Text → RunSpec → Text → Result SpecError RunSpec
set_arm name flag spec value = ok (record spec { name = value })
set_arm network flag spec value = ok (record spec { network = value })
set_arm hostname flag spec value = ok (record spec { hostname = some value })
set_arm env flag spec value = ok (record spec { env = insert_pair b'=' value spec.env })
set_arm label flag spec value = ok (record spec { labels = insert_pair b'=' value spec.labels })
set_arm publish flag spec value = do
  p ← parse_publish value
  ok (record spec { ports = add p spec.ports })
set_arm volume flag spec value = do
  m ← parse_volume value
  ok (record spec { mounts = add m spec.mounts })
set_arm mount flag spec value = do
  m ← parse_mount value
  ok (record spec { mounts = add m spec.mounts })
set_arm tmpfs flag spec value = ok (record spec { tmpfs = insert_pair b':' value spec.tmpfs })
set_arm log_driver flag spec value = ok (record spec { log_driver = value })
set_arm log_opt flag spec value =
    ok (record spec { log_opts = insert_pair b'=' value spec.log_opts })
set_arm gpus flag spec value = ok (record spec { gpus = some (trim_matches is_quote value) })
set_arm restart flag spec value =
    ok (record spec { restart = if is value "no" then none else some value })
set_arm pids_limit flag spec value = do
  n ← ok_or (parse_i64 value) (bad_pids_limit value)
  ok (record spec { pids_limit = positive n })
set_arm other flag spec value =
    ok (record spec { other = spec.other ++ (flag ++ b'=' ∷ value) ∷ [] })

abbrev pub set_flag : RunSpec → Text → Text → Result SpecError RunSpec
set_flag spec flag value = set_arm (flag_of flag) flag spec value

-- How the loop reads a word that begins with `-`: a flag and its value behind `=`, if it is a long
-- flag with one.
abbrev pub split_flag : Text → Text × Option Text
split_flag w = elim (split_once b'=' w) [
  | none ↦ (w, none)
  | some (f, v) ↦ if starts_with (codes "--") f then (f, some v) else (w, none)
]

-- What the loop has read: a flag that waits for the next word, or none.
pub record Reader : Type 0 where
  pub spec : RunSpec
  pub waiting : Option Text

abbrev pub reading : RunSpec → Reader
reading spec = record { spec = spec; waiting = none }

-- A value in the same word is set at once, and a flag without one waits.
take_value : RunSpec → Text → Option Text → Result SpecError Reader
take_value spec flag (some value) = do s ← set_flag spec flag value; ok (reading s)
take_value spec flag none = ok (record { spec = spec; waiting = some flag })

abbrev is_true : Option Text → Bool
is_true none = true
is_true (some v) = is v "true"

-- One flag of the loop.
read_flag : RunSpec → Text → Result SpecError Reader
unfolding take_value
read_flag spec w =
    let (flag, inline) = split_flag w in
    if is flag "--privileged"
    then ok (reading (record spec { privileged = is_true inline }))
    else if contains bool_flags flag
    then ok (reading (record spec { other = spec.other ++ w ∷ [] }))
    else take_value spec flag inline

-- The loop over the words: the first word that is no flag is the image, and the rest its command.
unfoldable pub read_words : RunSpec → Option Text → List Text → Result SpecError RunSpec
unfolding read_flag
read_words spec none [] = ok spec
read_words spec (some flag) [] = err (no_value flag)
read_words spec (some flag) (v ∷ ws) = do s ← set_flag spec flag v; read_words s none ws
read_words spec none (w ∷ ws) =
    if not (starts_with (b'-' ∷ []) w)
    then ok (record spec { image = w; cmd = ws })
    else (do r ← read_flag spec w; read_words r.spec r.waiting ws)

-- The words behind `create` or `run`, the first of them.
after_subcommand : List Text → Option (List Text)
after_subcommand [] = none
after_subcommand (w ∷ ws) = if is w "create" || is w "run" then some ws else after_subcommand ws

abbrev of_shell {ℓ} : {A : Type ℓ} → Result ShellError A → Result SpecError A
of_shell (ok a) = ok a
of_shell (err e) = err (shell e)

-- The spec that the loop starts from.
abbrev pub initial : RunSpec
initial = record default_spec { network = codes "bridge"; log_driver = default_log_driver }

unfoldable pub parse_command : Text → Result SpecError RunSpec
unfolding after_subcommand
parse_command cmd = do
  words ← of_shell (shell_split (trim cmd))
  args ← ok_or (after_subcommand words) no_subcommand
  spec ← read_words initial none args
  guard (not (is_empty spec.image)) no_image
  ok (normalized spec)
