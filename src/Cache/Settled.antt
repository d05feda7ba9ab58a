-- ===== src/Cache/Settled.antt =====
-- The check passes exactly when emhttp has written what was asked, and nothing else.
use unraid.Map.Extent.{contains_key-some}
use unraid.Map.Laws.{contains_key-get, Ordering-cases}
use unraid.Cache.ReadBack.{
  changed, sent_but, sent_problem, kept_problem, key_problem, wanted_problem, each_problem, wanted,
  Problem,
}
use unraid.Cache.{ShareCacheRequest}
use mathlib.Core.Path.{subst}
use unraid.Base.{
  if◌then◌else◌, Option, arith, inr, Option-cases, ◌⊎◌, inl, refl, ◌↔◌, ◌∷◌, [], ◌++◌, ◌≡◌, List,
  All, none, some,
}
use unraid.Text.{text_eq_iff, Text, text_eq}
use unraid.Map.{Map, get}
use unraid.Order.{list_ord, nat_ord, Ord}

-- The keys that were asked for are at their new values, every other key that was there is
-- unchanged, and a new key holds the value that was sent for it, if one was.
pub record Settled (before after sent : Map Text Text) (req : ShareCacheRequest) : Type 0 where
  pub set : (k v : Text) → get (wanted req) k ≡ some v → get after k ≡ some v
  pub kept : (k v : Text) → get (wanted req) k ≡ none → get before k ≡ some v → get after k ≡ some v
  pub new :
      (k v a : Text)
      → get (wanted req) k ≡ none
      → get before k ≡ none
      → get sent k ≡ some v
      → get after k ≡ some a
      → v ≡ a

pub append-nil_inv : {A : Type 0} (xs ys : List A) → xs ++ ys ≡ [] → (xs ≡ []) × (ys ≡ [])
append-nil_inv [] ys h = (refl, h)
append-nil_inv (x ∷ xs) ys h = cc h

pub no_problem :
    {A : Type 0} (f : A → List Problem) (xs : List A)
    → (each_problem f xs ≡ []) ↔ All (λ x. f x ≡ []) xs
no_problem f [] = (λ h. tt, λ h. refl)
no_problem f (x ∷ xs) = (
  (λ h. let (a, b) = append-nil_inv (f x) (each_problem f xs) h in (a, (no_problem f xs).0 b)),
  (λ h. rw (h.0, (no_problem f xs).1 h.1)),
)

module _ {K V : Type 0} ⦃o : Ord K⦄ where
  pub get-first :
      (j : K) (w : V) (m : Map K V) (k : K) (v : V)
      → get ((j, w) ∷ m) k ≡ some v
      → ((j ≡ k) × (w ≡ v)) ⊎ (get m k ≡ some v)
  unfolding get
  get-first j w m k v h = elim (Ordering-cases (o.cmp j k)) [
    | inl c ↦ inr (rw (get, c) at h)
    | inr (inl c) ↦ inl (o.cmp_eq j k c, cc (rw (get, c) at h))
    | inr (inr c) ↦ inr (rw (get, c) at h)
  ]

  pub All-lookup :
      (P : K → V → Type 0) (m : Map K V) (k : K) (v : V)
      → All (λ e. P e.0 e.1) m
      → get m k ≡ some v
      → P k v
  unfolding get
  All-lookup P [] k v a h = cc h
  All-lookup P ((j, w) ∷ m) k v a h = elim (get-first j w m k v h) [
    | inl (e, f) ↦ subst (λ i. P i v) e (subst (λ u. P j u) f a.0)
    | inr rest ↦ All-lookup P m k v a.1 rest
  ]

pub All-of_each : {A : Type 0} (P : A → Type 0) → ((x : A) → P x) → (xs : List A) → All P xs
All-of_each P h [] = tt
All-of_each P h (x ∷ xs) = (h x, All-of_each P h xs)

pub All-map :
    {A : Type 0} (P Q : A → Type 0) → ((x : A) → P x → Q x) → (xs : List A) → All P xs → All Q xs
All-map P Q h [] a = tt
All-map P Q h (x ∷ xs) a = (h x a.0, All-map P Q h xs a.1)

pub wanted_problem_iff :
    (after : Map Text Text) (k v : Text)
    → (wanted_problem after (k, v) ≡ []) ↔ (get after k ≡ some v)
unfolding wanted_problem
wanted_problem_iff after k v = elim (Option-cases (get after k)) [
  | inl h ↦ rw h (λ g. cc g, λ g. cc g)
  | inr (a, h) ↦ rw h (ground (arith, text_eq_iff a v))
]

-- What a key that was not asked for is to hold.
pub record Unchanged (before after sent : Map Text Text) (k : Text) : Type 0 where
  pub kept : (v : Text) → get before k ≡ some v → get after k ≡ some v
  pub new : (v a : Text) → get before k ≡ none → get sent k ≡ some v → get after k ≡ some a → v ≡ a

unless_eq : (s t : Text) (p : Problem) → ((if text_eq s t then [] else p ∷ []) ≡ []) ↔ (s ≡ t)
unless_eq s t p = ground (arith, text_eq_iff s t)

sent_problem_iff :
    (k : Text) (s a : Option Text)
    → (sent_problem k s a ≡ []) ↔ ((v w : Text) → s ≡ some v → a ≡ some w → v ≡ w)
sent_problem_iff k none a = (λ _ v w h g. cc h, λ _. refl)
sent_problem_iff k (some s) none = (λ _ v w h g. cc g, λ _. refl)
sent_problem_iff k (some s) (some a) =
    let (there, back) = unless_eq s a (sent_but k s a) in
    ((λ e v w h g. cc (there e, h, g)), (λ h. back (h s a refl refl)))

kept_problem_iff :
    (k : Text) (b a s : Option Text)
    → (kept_problem k b a s ≡ []) ↔ (
        ((v : Text) → b ≡ some v → a ≡ some v)
        × ((v w : Text) → b ≡ none → s ≡ some v → a ≡ some w → v ≡ w))
kept_problem_iff k none a s =
    let (there, back) = sent_problem_iff k s a in
    ((λ e. (λ v h. cc h, λ v w _. there e v w)), (λ h. back (λ v w. h.1 v w refl)))
kept_problem_iff k (some b) none s = ((λ e. cc e), (λ h. cc (h.0 b refl)))
kept_problem_iff k (some b) (some a) s =
    let (there, back) = unless_eq b a (changed k (some b) (some a)) in
    ((λ e. (λ v h. cc (there e, h), λ v w h. cc h)), (λ h. back (cc (h.0 b refl))))

pub key_problem_iff :
    (wants before after sent : Map Text Text) (k : Text)
    → (key_problem wants before after sent k ≡ [])
      ↔ (get wants k ≡ none → Unchanged before after sent k)
unfolding key_problem
key_problem_iff wants before after sent k = elim (Option-cases (get wants k)) [
  | inl h ↦
      let (there, back) = kept_problem_iff k (get before k) (get after k) (get sent k) in
      rw (contains_key-get wants k h) (
        (λ e _. record { kept = (there e).0; new = (there e).1 }),
        (λ u. back ((u h).kept, (u h).new)),
      )
  | inr (v, h) ↦ rw (contains_key-some wants k v h) ((λ _ g. absurd (cc (h, g))), (λ _. refl))
]
