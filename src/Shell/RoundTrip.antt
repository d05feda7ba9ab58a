-- ===== src/Shell/RoundTrip.antt =====
-- Quoted words are split into the words again.
use unraid.Base.{
  ℕ, ◌<◌, ◌≡◌, refl, sym, ap, ◌∙◌, Bool, true, false, not, ◌&&◌, ◌||◌, inl, inr, List, [], ◌∷◌,
  ◌++◌, append_assoc, append-nil, map, arith, all, and_true, Bool-cases, ◌==◌, ==_iff, elem, ok,
  passes_below, test_of_passes_below,
}
use unraid.Text.{Text, join, is_whitespace}
use unraid.Shell.{
  unquoted_meta, Mode, bare, single, Splitter, step, run, shell_split, is_safe, escape_quotes,
  shell_quote,
}

abbrev at : Mode → List Text → Text → Bool → Splitter
at m ws cur b = record { mode = m; words = ws; cur = cur; in_word = b }

-- The text read in single quotes goes to the word.
run-escape_quotes :
    (ws : List Text) (cur w rest : Text)
    → run (at single ws cur true) (escape_quotes w ++ rest)
      ≡ run (at single ws (cur ++ w) true) rest
unfolding run step escape_quotes
run-escape_quotes ws cur [] rest = rw append-nil
run-escape_quotes ws cur (c ∷ w) rest = elim (Bool-cases (c == b'\'')) [
  | inl e ↦
      rw (e, (==_iff c b'\'').0 e)
        (run-escape_quotes ws (cur ++ b'\'' ∷ []) w rest ∙ rw append_assoc)
  | inr e ↦ rw e (rw e (run-escape_quotes ws (cur ++ c ∷ []) w rest ∙ rw append_assoc))
]

-- A character with no meaning to the shell.
is_plain : ℕ → Bool
is_plain c =
    not (c == b'\'')
    && not (c == b'"')
    && not (c == b'\\')
    && not (elem c unquoted_meta)
    && not (is_whitespace c)

safe_below : (c : ℕ) → is_safe c ≡ true → c < 128
unfolding is_safe
safe_below c h = ground arith

plain_table : passes_below (λ c. not (is_safe c) || is_plain c) 128 ≡ true
unfolding is_safe is_plain is_whitespace passes_below
plain_table = refl

safe_plain : (c : ℕ) → is_safe c ≡ true → is_plain c ≡ true
safe_plain c h =
    let test = λ (d : ℕ). not (is_safe d) || is_plain d in
    rw h at (test_of_passes_below test 128 plain_table c (safe_below c h))

step_plain :
    (ws : List Text) (cur : Text) (b : Bool) (c : ℕ)
    → is_plain c ≡ true
    → step bare (at bare ws cur b) c ≡ ok (at bare ws (cur ++ c ∷ []) true)
unfolding step is_plain
step_plain ws cur b c h = ground arith

run_safe :
    (ws : List Text) (cur w rest : Text)
    → all is_safe w ≡ true
    → run (at bare ws cur true) (w ++ rest) ≡ run (at bare ws (cur ++ w) true) rest
unfolding run
run_safe ws cur [] rest h = rw append-nil
run_safe ws cur (c ∷ w) rest h =
    let (hc, hw) = and_true h in
    rw (step_plain ws cur true c (safe_plain c hc))
      (run_safe ws (cur ++ c ∷ []) w rest hw ∙ rw append_assoc)

-- A quoted word, read from the start of a word, is the word.
run-shell_quote :
    (ws : List Text) (w rest : Text)
    → run (at bare ws [] false) (shell_quote w ++ rest) ≡ run (at bare ws w true) rest
unfolding shell_quote run step
run-shell_quote ws [] rest = refl
run-shell_quote ws (c ∷ w) rest = elim (Bool-cases (all is_safe (c ∷ w))) [
  | inl safe ↦
      let (hc, hw) = and_true safe in
      rw safe (rw (step_plain ws [] false c (safe_plain c hc)) (run_safe ws (c ∷ []) w rest hw))
  | inr unsafe ↦ rw unsafe (rw append_assoc (run-escape_quotes ws [] (c ∷ w) (b'\'' ∷ rest)))
]

join-quote :
    (ws : List Text) (v : Text) (vs : List Text)
    → run (at bare ws [] false) (join (b' ' ∷ []) (map shell_quote (v ∷ vs))) ≡ ok (ws ++ v ∷ vs)
unfolding join run step is_whitespace
join-quote ws v [] =
    ap (run (at bare ws [] false)) (sym (append-nil (shell_quote v))) ∙ run-shell_quote ws v []
join-quote ws v (u ∷ vs) =
    run-shell_quote ws v (b' ' ∷ join (b' ' ∷ []) (map shell_quote (u ∷ vs)))
    ∙ join-quote (ws ++ v ∷ []) u vs
    ∙ ap ok (append_assoc ws (v ∷ []) (u ∷ vs))

-- Words that are quoted and joined by spaces are split into the same words.
pub shell_split-shell_quote :
    (words : List Text) → shell_split (join (b' ' ∷ []) (map shell_quote words)) ≡ ok words
unfolding shell_split join
shell_split-shell_quote [] = refl
shell_split-shell_quote (v ∷ vs) = join-quote [] v vs
