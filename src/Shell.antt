-- ===== src/Shell.antt =====
-- Splitting and quoting shell words: `shell_split` and `shell_quote` of src/docker_adopt/spec.rs.
pub mod RoundTrip
mod Tests
use unraid.Base.{
  ℕ, Bool, true, false, ◌&&◌, ◌||◌, not, List, [], ◌∷◌, ◌++◌, ◌==◌, if◌then◌else◌, all, elem,
  Result, ok, err, ◌>>=◌,
}
use unraid.Text.{Text, codes, is_empty, is_whitespace, is_ascii_alphanumeric}

-- The messages that `shell_split` returns.
pub data ShellError : Type 0 where
  unterminated_single_quote unterminated_double_quote trailing_backslash : ShellError
  escaped_in_double : ℕ → ShellError
  inside_double : ℕ → ShellError
  metacharacter : ℕ → ShellError

-- Where the loops of `shell_split` stand: at its `match c`, in the loop of a quote, or behind a
-- backslash in either.
pub data Mode : Type 0 where
  bare single double double_escape escape : Mode

pub record Splitter : Type 0 where
  pub mode : Mode
  pub words : List Text
  pub cur : Text
  pub in_word : Bool

-- `UNQUOTED_META`
abbrev pub unquoted_meta : Text
unquoted_meta = codes "$`;|&<>()\n#*?[~"

abbrev pub push : Splitter → Mode → ℕ → Splitter
push s m c = record s { mode = m; cur = s.cur ++ c ∷ []; in_word = true }

abbrev pub enter : Splitter → Mode → Splitter
enter s m = record s { mode = m; in_word = true }

-- the arm for white space
abbrev pub end_word : Splitter → Splitter
end_word s =
    if s.in_word then record s { words = s.words ++ s.cur ∷ []; cur = []; in_word = false } else s

step_bare : Splitter → ℕ → Result ShellError Splitter
step_bare s c =
    if c == b'\''
    then ok (enter s single)
    else if c == b'"'
    then ok (enter s double)
    else if c == b'\\'
    then ok (enter s escape)
    else if elem c unquoted_meta
    then err (metacharacter c)
    else if is_whitespace c
    then ok (end_word s)
    else ok (push s bare c)

step_double : Splitter → ℕ → Result ShellError Splitter
step_double s c =
    if c == b'"'
    then ok (enter s bare)
    else if c == b'\\'
    then ok (enter s double_escape)
    else if c == b'$' || c == b'`'
    then err (inside_double c)
    else ok (push s double c)

step_double_escape : Splitter → ℕ → Result ShellError Splitter
step_double_escape s c =
    if c == b'"' || c == b'\\'
    then ok (push s double c)
    else if c == b'$' || c == b'`'
    then err (escaped_in_double c)
    else ok (push (push s double b'\\') double c)

-- One character.
unfoldable pub step : Mode → Splitter → ℕ → Result ShellError Splitter
unfolding step_bare step_double step_double_escape
step bare s c = step_bare s c
step single s c = ok (if c == b'\'' then enter s bare else push s single c)
step double s c = step_double s c
step double_escape s c = step_double_escape s c
step escape s c = if c == b'\n' then err trailing_backslash else ok (push s bare c)

-- The end of the line.
unfoldable pub finish : Mode → Splitter → Result ShellError (List Text)
finish bare s = ok (if s.in_word then s.words ++ s.cur ∷ [] else s.words)
finish single s = err unterminated_single_quote
finish double s = err unterminated_double_quote
finish double_escape s = err unterminated_double_quote
finish escape s = err trailing_backslash

unfoldable pub run : Splitter → Text → Result ShellError (List Text)
unfolding finish
run s [] = finish s.mode s
run s (c ∷ cs) = do s' ← step s.mode s c; run s' cs

abbrev pub start : Splitter
start = record { mode = bare; words = []; cur = []; in_word = false }

unfoldable pub shell_split : Text → Result ShellError (List Text)
unfolding run
shell_split line = run start line

-- the bytes that `shell_quote` leaves bare
unfoldable pub is_safe : ℕ → Bool
unfolding is_ascii_alphanumeric
is_safe b = is_ascii_alphanumeric b || elem b (codes "_./:=,@%+-")

-- `word.replace('\'', r"'\''")`
unfoldable pub escape_quotes : Text → Text
escape_quotes [] = []
escape_quotes (c ∷ cs) =
    if c == b'\'' then codes "'\\''" ++ escape_quotes cs else c ∷ escape_quotes cs

unfoldable pub shell_quote : Text → Text
unfolding escape_quotes
shell_quote word =
    if not (is_empty word) && all is_safe word
    then word
    else b'\'' ∷ (escape_quotes word ++ b'\'' ∷ [])
