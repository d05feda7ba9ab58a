-- ===== src/Cache/Query.antt =====
-- The query that emhttp is sent carries the fields of the form, and no others.
use mathlib.Core.List.{map-append}
use unraid.Map.{Map}
use unraid.Cache.Settled.{All-map}
use unraid.Text.Laws.{split-join, split_once-append, Lacks}
use unraid.Cache.{
  edit_fields, form_value, ShareCacheRequest, edit_query, form_values, urlencode, form_part,
  encode_bytes, is_unreserved, encode_byte,
}
use unraid.Text.Utf8.{bytes, encode}
use unraid.Cache.Decode.{read_query, read_fields, read_field}
use unraid.Base.{
  ltb, ◌&&◌, map, ap, and_true, [], ◌∙◌, Bool, List, ◌∷◌, refl, not, arith, ◌≡◌, all, ◌++◌, ◌==◌,
  ◌<◌, ℕ, All, some, true, false,
}
use unraid.Text.{codes, join, is_ascii_alphanumeric, Text}
use unraid.Cache.Encoding.{InRange, All-append, urlencode-Lacks, decode-urlencode, All-of_all}

-- A field as the form sends it.
abbrev pub sent_as : Text × Text → Text × List ℕ
sent_as (name, v) = (name, bytes v)

-- A name that a query may have.
abbrev IsName : Text → Type 0
IsName name = Lacks b'=' name × Lacks b'&' name

read_field-form_part :
    (name v : Text)
    → IsName name
    → InRange v
    → read_field (form_part (name, v)) ≡ some (name, bytes v)
unfolding read_field
read_field-form_part name v n h =
    rw (read_field, split_once-append b'=' name (urlencode v) n.0, decode-urlencode v h)

form_part-Lacks : (name v : Text) → IsName name → InRange v → Lacks b'&' (form_part (name, v))
form_part-Lacks name v n h =
    All-append (λ x. (x == b'&') ≡ false) name (b'=' ∷ urlencode v) n.1 (refl, urlencode-Lacks v h)

read_fields-form_parts :
    (fs : List (Text × Text))
    → All (λ f. IsName f.0 × InRange f.1) fs
    → read_fields (map form_part fs) ≡ some (map sent_as fs)
unfolding read_fields
read_fields-form_parts [] h = refl
read_fields-form_parts ((name, v) ∷ fs) h =
    rw (read_field-form_part name v h.0.0 h.0.1, read_fields-form_parts fs h.1)

form_parts-Lacks :
    (fs : List (Text × Text))
    → All (λ f. IsName f.0 × InRange f.1) fs
    → All (Lacks b'&') (map form_part fs)
form_parts-Lacks [] h = tt
form_parts-Lacks ((name, v) ∷ fs) h = (form_part-Lacks name v h.0.0 h.0.1, form_parts-Lacks fs h.1)

-- Fields that a query can carry are read back from it.
read_query-join :
    (f : Text × Text) (fs : List (Text × Text))
    → All (λ f. IsName f.0 × InRange f.1) (f ∷ fs)
    → read_query (join (codes "&") (map form_part (f ∷ fs))) ≡ some (map sent_as (f ∷ fs))
unfolding read_query
read_query-join f fs h =
    rw (split-join b'&' (form_part f) (map form_part fs) (form_parts-Lacks (f ∷ fs) h))
      (read_fields-form_parts (f ∷ fs) h)

has_name : Text → Bool
has_name name = all (λ c. not (c == b'=') && not (c == b'&')) name

has_name-IsName : (name : Text) → has_name name ≡ true → IsName name
unfolding has_name
has_name-IsName [] h = (tt, tt)
has_name-IsName (c ∷ name) h =
    let (here, rest) = and_true h in
    let (a, b) = and_true {a = not (c == b'=')} here in
    let (eqs, amps) = has_name-IsName name rest in
    ((ground (arith, a), eqs), (ground (arith, b), amps))

form_values-IsName :
    (current : Map Text Text) (req : ShareCacheRequest) (fields : List (Text × Text))
    → all (λ f. has_name f.0) fields ≡ true
    → All (λ f. InRange f.1) (map (form_value current req) fields)
    → All (λ f. IsName f.0 × InRange f.1) (map (form_value current req) fields)
form_values-IsName current req [] h r = tt
form_values-IsName current req ((field, key) ∷ fields) h r =
    let (a, b) = and_true h in
    ((has_name-IsName field a, r.0), form_values-IsName current req fields b r.1)

abbrev drop_first : {A : Type 0} → List A → List A
drop_first [] = []
drop_first (_ ∷ xs) = xs

-- What the query is to carry.
abbrev pub all_fields : Map Text Text → ShareCacheRequest → Text → List (Text × Text)
all_fields current req csrf =
    form_values current req
    ++ (codes "cmdEditShare", codes "Apply") ∷ (codes "csrf_token", csrf) ∷ []

pub below-InRange : (t : Text) → all (λ c. ltb c 0x110000) t ≡ true → InRange t
below-InRange t h =
    All-map (λ c. ltb c 0x110000 ≡ true) (λ c. c < 0x110000) (λ c g. ground (arith, g)) t
      (All-of_all (λ c. ltb c 0x110000) t h)

apply-InRange : InRange (codes "Apply")
apply-InRange = below-InRange (codes "Apply") refl

all_fields-IsName :
    (current : Map Text Text) (req : ShareCacheRequest) (csrf : Text)
    → All (λ f. InRange f.1) (form_values current req)
    → InRange csrf
    → All (λ f. IsName f.0 × InRange f.1) (all_fields current req csrf)
unfolding form_values has_name
all_fields-IsName current req csrf r s =
    All-append (λ f. IsName f.0 × InRange f.1) (form_values current req)
      ((codes "cmdEditShare", codes "Apply") ∷ (codes "csrf_token", csrf) ∷ [])
      (form_values-IsName current req edit_fields refl r)
      (
        (has_name-IsName (codes "cmdEditShare") refl, apply-InRange),
        ((has_name-IsName (codes "csrf_token") refl, s), tt),
      )

command_part : form_part (codes "cmdEditShare", codes "Apply") ≡ codes "cmdEditShare=Apply"
unfolding urlencode bytes encode encode_bytes encode_byte is_unreserved is_ascii_alphanumeric
command_part = refl

edit_query-join :
    (current : Map Text Text) (req : ShareCacheRequest) (csrf : Text)
    → edit_query current req csrf ≡ join (codes "&") (map form_part (all_fields current req csrf))
unfolding edit_query
edit_query-join current req csrf = rw (map-append, command_part)

-- The query that emhttp is sent is read back as the fields of the form with their values, the
-- command and the token, and nothing else, whatever code points of Unicode the values have.
pub edit_query-read_query :
    (current : Map Text Text) (req : ShareCacheRequest) (csrf : Text)
    → All (λ f. InRange f.1) (form_values current req)
    → InRange csrf
    → read_query (edit_query current req csrf) ≡ some (map sent_as (all_fields current req csrf))
unfolding form_values
edit_query-read_query current req csrf r s =
    ap read_query (edit_query-join current req csrf)
    ∙ read_query-join (form_value current req (codes "shareName", codes "name"))
        (drop_first (all_fields current req csrf)) (all_fields-IsName current req csrf r s)
