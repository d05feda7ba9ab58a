-- ===== src/Shell/Tests.antt =====
-- Runs of `shell_split` and `shell_quote` at inputs of the source's tests.
use unraid.Base.{err, ok, map, refl, [], ◌≡◌, ◌∷◌}
use unraid.Text.{is_whitespace, codes, join}
use unraid.Shell.RoundTrip.{shell_split-shell_quote}
use unraid.Shell.{
  finish, step, run, is_safe, shell_quote, shell_split, metacharacter, inside_double,
  unterminated_single_quote, escaped_in_double,
}

split_tests :
    (shell_split (codes "docker create --name='x' -e 'A'='b c' img")
      ≡ ok (
          codes "docker"
          ∷ codes "create"
          ∷ codes "--name=x"
          ∷ codes "-e"
          ∷ codes "A=b c"
          ∷ codes "img"
          ∷ []))
    × (shell_split (codes "a \"b\\\"c\" d\\ e") ≡ ok (codes "a" ∷ codes "b\"c" ∷ codes "d e" ∷ []))
    × (shell_split (codes "a $b") ≡ err (metacharacter b'$'))
    × (shell_split (codes "\"$HOME\"") ≡ err (inside_double b'$'))
    × (shell_split (codes "'abc") ≡ err unterminated_single_quote)
    × (shell_split (codes "\"\\`\"") ≡ err (escaped_in_double b'`'))
unfolding shell_split run step finish is_whitespace
split_tests = (refl, refl, refl, refl, refl, refl)

quote_tests :
    (shell_quote (codes "it's") ≡ codes "'it'\\''s'")
    × (shell_quote (codes "a/b:c=1") ≡ codes "a/b:c=1")
    × (shell_quote [] ≡ codes "''")
unfolding shell_quote is_safe
quote_tests = (refl, refl, refl)

shell_split-shell_quote_example :
    shell_split (join (b' ' ∷ []) (map shell_quote (codes "a b" ∷ codes "it's" ∷ [] ∷ [])))
    ≡ ok (codes "a b" ∷ codes "it's" ∷ [] ∷ [])
shell_split-shell_quote_example = shell_split-shell_quote (codes "a b" ∷ codes "it's" ∷ [] ∷ [])
