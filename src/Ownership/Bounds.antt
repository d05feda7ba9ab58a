-- ===== src/Ownership/Bounds.antt =====
-- The name of a converted volume is one that docker takes, if it is short enough.
use unraid.Base.{◌&&◌}
use unraid.Names.{after_first, first_is_alphanumeric, is_name_byte, is_valid_name}
use unraid.Text.Utf8.{encode, bytes}
use unraid.Ownership.{converted_name, slug_char, slug_parts, slug}
use unraid.Text.{
  cons_first, is_empty, codes, is_ascii_digit, split, join, Text, is_ascii_alphanumeric,
}
use unraid.Base.{
  append_assoc, ◌≤◌, sym, ◌∙◌, length, and_true, ap, not, refl, map, arith, keep, ◌==◌, ◌++◌, ◌||◌,
  ◌≡◌, all, Bool, ℕ, List, true, [], ◌∷◌,
}
use unraid.Order.{list_ord, nat_ord}

-- The bytes of a slug.
abbrev is_slug_char : ℕ → Bool
is_slug_char c = is_ascii_alphanumeric c || c == b'_'

slug_char-is_slug_char : (c : ℕ) → is_slug_char (slug_char c) ≡ true
unfolding is_ascii_alphanumeric is_ascii_digit
slug_char-is_slug_char c = ground arith

module _ {ℓ} {A : Type ℓ} (p : A → Bool) where
  pub all-append : (xs ys : List A) → all p xs ≡ true → all p ys ≡ true → all p (xs ++ ys) ≡ true
  all-append [] ys h k = k
  all-append (x ∷ xs) ys h k = ground (arith, all-append xs ys)

  all-tail : (x : A) (xs : List A) → all p (x ∷ xs) ≡ true → all p xs ≡ true
  all-tail x xs h = ground arith

  all-keep : (q : A → Bool) (xs : List A) → all p xs ≡ true → all p (keep q xs) ≡ true
  all-keep q [] h = refl
  all-keep q (x ∷ xs) h = ground (arith, all-keep q xs)

all-slug_char : (t : Text) → all is_slug_char (map slug_char t) ≡ true
all-slug_char [] = refl
all-slug_char (c ∷ t) = ground (arith, slug_char-is_slug_char c, all-slug_char t)

abbrev are_slugs : List Text → Bool
are_slugs ws = all (λ w. all is_slug_char w) ws

cons_first-are_slugs :
    (x : ℕ) (ws : List Text)
    → is_slug_char x ≡ true
    → are_slugs ws ≡ true
    → are_slugs (cons_first x ws) ≡ true
cons_first-are_slugs x [] h k = ground arith
cons_first-are_slugs x (w ∷ ws) h k = ground arith

split-are_slugs : (c : ℕ) (t : Text) → all is_slug_char t ≡ true → are_slugs (split c t) ≡ true
unfolding split
split-are_slugs c [] h = refl
split-are_slugs c (x ∷ t) h =
    ground (arith, split-are_slugs c t, cons_first-are_slugs x (split c t))

join-is_slug :
    (ws : List Text) → are_slugs ws ≡ true → all is_slug_char (join (codes "_") ws) ≡ true
unfolding join
join-is_slug [] h = refl
join-is_slug (w ∷ []) h = ground arith
join-is_slug (w ∷ v ∷ ws) h =
    ground
      (arith, join-is_slug (v ∷ ws), all-append is_slug_char w (b'_' ∷ join (codes "_") (v ∷ ws)))

slug-is_slug : (path : Text) → all is_slug_char (slug path) ≡ true
unfolding slug slug_parts is_ascii_alphanumeric
slug-is_slug path =
    let parts = keep (λ p. not (is_empty p)) (split b'_' (map slug_char path)) in
    let h : are_slugs parts ≡ true =
      all-keep (λ w. all is_slug_char w) (λ p. not (is_empty p)) (split b'_' (map slug_char path))
        (split-are_slugs b'_' (map slug_char path) (all-slug_char path)) in
    ground (arith, join-is_slug parts h)

bytes-append : (s t : Text) → bytes (s ++ t) ≡ bytes s ++ bytes t
unfolding bytes
bytes-append [] t = refl
bytes-append (c ∷ s) t =
    ap (λ r. encode c ++ r) (bytes-append s t) ∙ sym (append_assoc (encode c) (bytes s) (bytes t))

encode-is_slug_char : (c : ℕ) → is_slug_char c ≡ true → encode c ≡ c ∷ []
unfolding encode is_ascii_alphanumeric is_ascii_digit
encode-is_slug_char c h = ground arith

bytes-is_slug : (t : Text) → all is_slug_char t ≡ true → bytes t ≡ t
unfolding bytes
bytes-is_slug [] h = refl
bytes-is_slug (c ∷ t) h =
    let (first, rest) = and_true h in
    rw (encode-is_slug_char c first) (ap (◌∷◌ c) (bytes-is_slug t rest))

are_name_bytes : (t : Text) → all is_slug_char t ≡ true → all is_name_byte t ≡ true
are_name_bytes [] h = refl
are_name_bytes (c ∷ t) h = ground (arith, are_name_bytes t)

valid-append :
    (b s : List ℕ)
    → first_is_alphanumeric b ≡ true
    → all is_name_byte (after_first b) ≡ true
    → all is_name_byte s ≡ true
    → (first_is_alphanumeric (b ++ s) ≡ true) × (all is_name_byte (after_first (b ++ s)) ≡ true)
valid-append [] s h k l = absurd (cc h)
valid-append (c ∷ b) s h k l = (h, all-append is_name_byte b s k l)

-- The new name of a volume, made of a valid name and any path, is itself a valid name, if it has
-- at most 128 bytes.
pub is_valid_name-converted_name :
    (name target : Text)
    → is_valid_name name ≡ true
    → length (bytes (converted_name name target)) ≤ 128
    → is_valid_name (converted_name name target) ≡ true
unfolding is_valid_name converted_name
is_valid_name-converted_name name target h short =
    let (letters, _) =
      and_true
        {a = first_is_alphanumeric (bytes name) && all is_name_byte (after_first (bytes name))} h in
    let (first, others) = and_true {a = first_is_alphanumeric (bytes name)} letters in
    let ends = b'_' ∷ slug target in
    let is_slug : all is_slug_char ends ≡ true = slug-is_slug target in
    let joined : bytes (name ++ ends) ≡ bytes name ++ ends =
      bytes-append name ends ∙ ap (λ t. bytes name ++ t) (bytes-is_slug ends is_slug) in
    let (a, b) = valid-append (bytes name) ends first others (are_name_bytes ends is_slug) in
    let a' : first_is_alphanumeric (bytes (name ++ ends)) ≡ true = rw joined a in
    let b' : all is_name_byte (after_first (bytes (name ++ ends))) ≡ true = rw joined b in
    ground (arith, a', b', short)
