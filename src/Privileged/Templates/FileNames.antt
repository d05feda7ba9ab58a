-- ===== src/Privileged/Templates/FileNames.antt =====
-- The names of the files that a template's backup and restoration use: each is the name of a file of
-- the directory, and no two are the same.
use unraid.Adopt.{templates_dir}
use unraid.Privileged.RunId.{
  slice, real_timestamp, drop, has_id_bytes, is_hex_lower, validate_run_id,
}
use unraid.Paths.{file_name, components}
use unraid.Names.{after_first, is_valid_name, first_is_alphanumeric, is_name_byte}
use unraid.Safefs.{is_component}
use unraid.Text.{starts_with, codes, text_eq, is_ascii_digit, is_ascii_alphanumeric, split, Text}
use unraid.Privileged.Templates.{in_dir}
use unraid.Text.Utf8.{encode, bytes}
use unraid.Base.{
  zero, suc, ◌+◌, ◌&&◌, and_true, take, ◌==◌, arith, refl, ◌++◌, List, Bool-cases, Bool, ◌≡◌, elem,
  all, ℕ, ok, true, false, [], ◌∷◌, inl, inr,
}
use unraid.Order.{list_ord, nat_ord}

abbrev pub is_plain : Text → Bool
is_plain t = all is_name_byte t

encode-plain : (c : ℕ) → all is_name_byte (encode c) ≡ true → is_name_byte c ≡ true
unfolding encode is_ascii_alphanumeric is_ascii_digit
encode-plain c h = ground arith

all-append_inv :
    (p : ℕ → Bool) (s t : List ℕ) → all p (s ++ t) ≡ true → (all p s ≡ true) × (all p t ≡ true)
all-append_inv p [] t h = (refl, h)
all-append_inv p (x ∷ s) t h = let (a, b) = all-append_inv p s t (ground arith) in (ground arith, b)

plain_bytes : (t : Text) → all is_name_byte (bytes t) ≡ true → is_plain t ≡ true
unfolding bytes
plain_bytes [] h = refl
plain_bytes (c ∷ t) h =
    let (a, b) = all-append_inv is_name_byte (encode c) (bytes t) h in
    let x = encode-plain c a in let y = plain_bytes t b in ground arith

elem-plain : (c : ℕ) → is_name_byte c ≡ false → (t : Text) → is_plain t ≡ true → elem c t ≡ false
elem-plain c h [] p = refl
elem-plain c h (x ∷ t) p =
    let rest = elem-plain c h t (ground arith) in
    elim (Bool-cases (c == x)) [
      | inl e ↦ let same : c ≡ x = ground arith in absurd (ground arith)
      | inr e ↦ rw e rest
    ]

split-plain : (t : Text) → elem b'/' t ≡ false → split b'/' t ≡ t ∷ []
unfolding split
split-plain [] h = refl
split-plain (x ∷ t) h = elim (Bool-cases (x == b'/')) [
  | inl e ↦ absurd (ground arith)
  | inr e ↦ rw e (rw (split-plain t (ground arith)) refl)
]

slash_free : (t : Text) → is_plain t ≡ true → elem b'/' t ≡ false
unfolding is_ascii_alphanumeric is_ascii_digit
slash_free = elem-plain b'/' refl

pub in_dir-plain :
    (t : Text)
    → is_plain t ≡ true
    → in_dir (templates_dir ++ (codes "/my-" ++ t)) ≡ codes "my-" ++ t
unfolding in_dir components file_name split starts_with text_eq
in_dir-plain t h = rw (split-plain t (slash_free t h)) refl

pub is_component-plain : (t : Text) → is_plain t ≡ true → is_component (codes "my-" ++ t) ≡ true
unfolding is_component text_eq is_ascii_alphanumeric is_ascii_digit
is_component-plain t h =
    let slash = slash_free t h in let zero_free = elem-plain 0 refl t h in ground arith

after_first-plain :
    (b : List ℕ)
    → first_is_alphanumeric b ≡ true
    → all is_name_byte (after_first b) ≡ true
    → all is_name_byte b ≡ true
after_first-plain [] h k = refl
after_first-plain (c ∷ b) h k = ground arith

pub name-plain : (name : Text) → is_valid_name name ≡ true → is_plain name ≡ true
unfolding is_valid_name
name-plain name h = plain_bytes name (after_first-plain (bytes name) (ground arith) (ground arith))

take_more :
    (p : ℕ → Bool) (n k : ℕ) (b : List ℕ)
    → all p (take n b) ≡ true
    → all p (take k (drop n b)) ≡ true
    → all p (take (n + k) b) ≡ true
take_more p zero k b h j = let e : 0 + k ≡ k = omega arith in rw e j
take_more p (suc n) k [] h j = let e : suc n + k ≡ suc (n + k) = omega arith in rw e refl
take_more p (suc n) k (x ∷ b) h j =
    let e : suc n + k ≡ suc (n + k) = omega arith in
    let rest = take_more p n k b (ground arith) j in rw e (ground arith)

take_rest :
    (p : ℕ → Bool) (n : ℕ) (b : List ℕ)
    → all p (take n b) ≡ true
    → all p (drop n b) ≡ true
    → all p b ≡ true
take_rest p zero b h j = j
take_rest p (suc n) [] h j = refl
take_rest p (suc n) (x ∷ b) h j = ground (arith, take_rest p n b)

all-weaken :
    (p q : ℕ → Bool)
    → ((c : ℕ) → p c ≡ true → q c ≡ true)
    → (t : List ℕ) → all p t ≡ true
    → all q t ≡ true
all-weaken p q f [] h = refl
all-weaken p q f (x ∷ t) h =
    let a = f x (ground arith) in let b = all-weaken p q f t (ground arith) in ground arith

digit_plain : (c : ℕ) → is_ascii_digit c ≡ true → is_name_byte c ≡ true
unfolding is_ascii_alphanumeric
digit_plain c h = ground arith

hex_plain : (c : ℕ) → is_hex_lower c ≡ true → is_name_byte c ≡ true
unfolding is_ascii_alphanumeric
hex_plain c h = ground arith

dash_plain : (c : ℕ) → (b'-' == c) ≡ true → is_name_byte c ≡ true
unfolding is_ascii_alphanumeric
dash_plain c h = ground arith

id_bytes-plain : (b : List ℕ) → has_id_bytes b ≡ true → all is_name_byte b ≡ true
unfolding has_id_bytes
id_bytes-plain b h =
    let digits = all-weaken is_ascii_digit is_name_byte digit_plain in
    let dash = all-weaken (◌==◌ b'-') is_name_byte dash_plain in
    let (_, h1) = and_true h in
    let (a, h2) = and_true h1 in
    let (d, h3) = and_true h2 in
    let (e, h4) = and_true h3 in
    let (g, i) = and_true h4 in
    let to_9 = take_more is_name_byte 8 1 b (digits (take 8 b) a) (dash (slice 8 1 b) d) in
    let to_15 = take_more is_name_byte 9 6 b to_9 (digits (slice 9 6 b) e) in
    let to_16 = take_more is_name_byte 15 1 b to_15 (dash (slice 15 1 b) g) in
    take_rest is_name_byte 16 b to_16 (all-weaken is_hex_lower is_name_byte hex_plain (drop 16 b) i)

pub id-plain : (id : Text) → validate_run_id id ≡ ok tt → is_plain id ≡ true
unfolding validate_run_id
id-plain id h = elim (Bool-cases (has_id_bytes (bytes id) && real_timestamp (take 15 id))) [
  | inl e ↦ plain_bytes id (id_bytes-plain (bytes id) (and_true e).0)
  | inr e ↦ absurd (cc (rw e at h))
]
