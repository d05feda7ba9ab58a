-- ===== src/Cache/Encoding.antt =====
-- The encoding of a value in a query is undone by the decoder, and has no `&`.
use unraid.Cache.Settled.{All-map}
use unraid.Text.Laws.{Lacks}
use unraid.Cache.{urlencode, encode_bytes, hex_upper, is_unreserved, encode_byte}
use unraid.Text.Utf8.{bytes, encode}
use unraid.Cache.Decode.{cons_byte, outside, decode_at, unhex}
use unraid.Base.{
  test_of_passes_below, ap, ◌+◌, and_true, [], ◌∙◌, ◌*◌, Bool, List, ◌∷◌, ◌%◌, ◌/◌, inr, inl,
  Bool-cases, refl, not, arith, ◌≡◌, all, ◌++◌, ◌==◌, option_eq, passes_below, ◌<◌, ℕ, All, some,
  true, false,
}
use unraid.Text.{is_ascii_digit, is_ascii_alphanumeric, Text}

-- Code points of Unicode.
abbrev pub InRange : Text → Type 0
InRange t = All (λ c. c < 0x110000) t

unhex_table : passes_below (λ d. option_eq ◌==◌ (unhex (hex_upper d)) (some d)) 16 ≡ true
unfolding unhex passes_below
unhex_table = refl

unhex-hex_upper : (d : ℕ) → d < 16 → unhex (hex_upper d) ≡ some d
unfolding unhex
unhex-hex_upper d h = ground arith

no_ampersand_table : passes_below (λ b. all (λ c. not (c == b'&')) (encode_byte b)) 256 ≡ true
unfolding encode_byte passes_below is_unreserved is_ascii_alphanumeric is_ascii_digit
no_ampersand_table = refl

unreserved_no_percent : (b : ℕ) → is_unreserved b ≡ true → (b == b'%') ≡ false
unfolding is_unreserved is_ascii_alphanumeric is_ascii_digit
unreserved_no_percent b h = ground arith

encode_range : (c : ℕ) → c < 0x110000 → All (λ b. b < 256) (encode c)
unfolding encode
encode_range c h = ground arith

decode_hex :
    (a b h l : ℕ) (t : Text)
    → unhex a ≡ some h
    → unhex b ≡ some l
    → decode_at outside (b'%' ∷ a ∷ b ∷ t) ≡ cons_byte (h * 16 + l) (decode_at outside t)
unfolding decode_at
decode_hex a b h l t p q = rw (p, q)

decode-encode_byte :
    (b : ℕ) (t : Text)
    → b < 256
    → decode_at outside (encode_byte b ++ t) ≡ cons_byte b (decode_at outside t)
unfolding encode_byte decode_at
decode-encode_byte b t h = elim (Bool-cases (is_unreserved b)) [
  | inl u ↦ rw (u, unreserved_no_percent b u)
  | inr u ↦
      let high : b / 16 < 16 = omega (arith, h) in
      let low : b % 16 < 16 = omega arith in
      let whole : b / 16 * 16 + b % 16 ≡ b = omega arith in
      rw u (
        decode_hex (hex_upper (b / 16)) (hex_upper (b % 16)) (b / 16) (b % 16) t
          (unhex-hex_upper (b / 16) high) (unhex-hex_upper (b % 16) low)
        ∙ ap (λ c. cons_byte c (decode_at outside t)) whole)
]

decode-encode_bytes :
    (bs : List ℕ) → All (λ b. b < 256) bs → decode_at outside (encode_bytes bs) ≡ some bs
unfolding encode_bytes decode_at
decode-encode_bytes [] h = refl
decode-encode_bytes (b ∷ bs) h =
    decode-encode_byte b (encode_bytes bs) h.0 ∙ ap (cons_byte b) (decode-encode_bytes bs h.1)

pub All-append :
    {A : Type 0} (P : A → Type 0) (xs ys : List A) → All P xs → All P ys → All P (xs ++ ys)
All-append P [] ys h g = g
All-append P (x ∷ xs) ys h g = (h.0, All-append P xs ys h.1 g)

bytes_range : (t : Text) → InRange t → All (λ b. b < 256) (bytes t)
unfolding bytes
bytes_range [] h = tt
bytes_range (c ∷ t) h =
    All-append (λ b. b < 256) (encode c) (bytes t) (encode_range c h.0) (bytes_range t h.1)

pub All-of_all :
    {A : Type 0} (p : A → Bool) (xs : List A) → all p xs ≡ true → All (λ x. p x ≡ true) xs
All-of_all p [] h = tt
All-of_all p (x ∷ xs) h = let (a, b) = and_true h in (a, All-of_all p xs b)

encode_byte-Lacks : (b : ℕ) → b < 256 → Lacks b'&' (encode_byte b)
encode_byte-Lacks b h =
    let lacks = λ (b : ℕ). all (λ c. not (c == b'&')) (encode_byte b) in
    All-map (λ c. not (c == b'&') ≡ true) (λ c. (c == b'&') ≡ false) (λ c g. ground (arith, g))
      (encode_byte b)
      (All-of_all (λ c. not (c == b'&')) (encode_byte b)
        (test_of_passes_below lacks 256 no_ampersand_table b h))

encode_bytes-Lacks : (bs : List ℕ) → All (λ b. b < 256) bs → Lacks b'&' (encode_bytes bs)
unfolding encode_bytes
encode_bytes-Lacks [] h = tt
encode_bytes-Lacks (b ∷ bs) h =
    All-append (λ x. (x == b'&') ≡ false) (encode_byte b) (encode_bytes bs)
      (encode_byte-Lacks b h.0) (encode_bytes-Lacks bs h.1)

pub urlencode-Lacks : (t : Text) → InRange t → Lacks b'&' (urlencode t)
unfolding urlencode
urlencode-Lacks t h = encode_bytes-Lacks (bytes t) (bytes_range t h)

pub decode-urlencode : (t : Text) → InRange t → decode_at outside (urlencode t) ≡ some (bytes t)
unfolding urlencode
decode-urlencode t h = decode-encode_bytes (bytes t) (bytes_range t h)
