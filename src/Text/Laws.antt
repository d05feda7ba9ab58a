-- ===== src/Text/Laws.antt =====
-- The laws of splitting and prefixes.
use unraid.Base.{
  ◌↔◌, true, inr, inl, Bool-cases, ◌≢◌, ◌⊎◌, ℕ, ◌≡◌, refl, false, List, [], ◌∷◌, ◌++◌, none, some,
  All, arith, ap, ◌∙◌, ◌==◌,
}
use unraid.Text.{is_empty, text_eq_iff, text_eq, Text, split_once, split, join, strip_prefix}

-- A text without a given character.
abbrev pub Lacks : ℕ → Text → Type 0
Lacks c t = All (λ x. (x == c) ≡ false) t

pub split_once-append : (c : ℕ) (a b : Text) → Lacks c a → split_once c (a ++ c ∷ b) ≡ some (a, b)
unfolding split_once
split_once-append c [] b h = ground arith
split_once-append c (x ∷ a) b h = rw (h.0, split_once-append c a b h.1)

pub split_once-Lacks : (c : ℕ) (t : Text) → Lacks c t → split_once c t ≡ none
unfolding split_once
split_once-Lacks c [] h = refl
split_once-Lacks c (x ∷ t) h = rw (h.0, split_once-Lacks c t h.1)

pub strip_prefix-append : (p t : Text) → strip_prefix p (p ++ t) ≡ some t
unfolding strip_prefix
strip_prefix-append [] t = refl
strip_prefix-append (a ∷ p) t = ground (arith, strip_prefix-append p t)

pub strip_prefix-eq_some : (p t r : Text) → strip_prefix p t ≡ some r → t ≡ p ++ r
unfolding strip_prefix
strip_prefix-eq_some [] t r h = ground arith
strip_prefix-eq_some (a ∷ p) [] r h = cc
strip_prefix-eq_some (a ∷ p) (b ∷ t) r h = ground (arith, strip_prefix-eq_some p t r)

pub split-Lacks : (c : ℕ) (t : Text) → Lacks c t → split c t ≡ t ∷ []
unfolding split
split-Lacks c [] h = refl
split-Lacks c (x ∷ t) h = rw (h.0, split-Lacks c t h.1)

pub split-append : (c : ℕ) (a b : Text) → Lacks c a → split c (a ++ c ∷ b) ≡ a ∷ split c b
unfolding split
split-append c [] b h = ground arith
split-append c (x ∷ a) b h = rw (h.0, split-append c a b h.1)

-- Parts without the separator are found again.
pub split-join :
    (c : ℕ) (w : Text) (ws : List Text)
    → All (Lacks c) (w ∷ ws)
    → split c (join (c ∷ []) (w ∷ ws)) ≡ w ∷ ws
unfolding join
split-join c w [] h = split-Lacks c w h.0
split-join c w (v ∷ ws) h =
    split-append c w (join (c ∷ []) (v ∷ ws)) h.0 ∙ ap (◌∷◌ w) (split-join c v ws h.1)

pub Text-cases : (s t : Text) → (s ≡ t) ⊎ (s ≢ t)
Text-cases s t = elim (Bool-cases (text_eq s t)) [
  | inl e ↦ inl ((text_eq_iff s t).0 e)
  | inr n ↦ inr (λ e. ground (arith, (text_eq_iff s t).1 e))
]

pub not-text_eq : (s t : Text) → s ≢ t → text_eq s t ≡ false
not-text_eq s t h = elim (Bool-cases (text_eq s t)) [
  | inl e ↦ absurd (h ((text_eq_iff s t).0 e))
  | inr e ↦ e
]

pub is_empty_iff : (t : Text) → (is_empty t ≡ true) ↔ (t ≡ [])
is_empty_iff [] = (λ _. refl, λ _. refl)
is_empty_iff (x ∷ t) = (λ h. cc h, λ h. cc h)
