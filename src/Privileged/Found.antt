-- ===== src/Privileged/Found.antt =====
-- The first element of a list with a result, and whether an element passes a test.
use unraid.Base.{Has}
use unraid.Base.{arith}
use unraid.Privileged.{find_map}
use unraid.Base.{
  ◌∙◌, refl, ◌↔◌, ◌++◌, Option-cases, Bool-cases, All, any, ◌≡◌, ap, Bool, List, Option, true, [],
  ◌∷◌, inl, inr,
}
use unraid.Order.{list_ord, nat_ord}
use unraid.Base.{none, some}

-- A list with the element that answers, after elements that do not.
pub record First {A B : Type 0} (f : A → Option B) (xs : List A) (b : B) : Type 0 where
  pub before : List A
  pub found : A
  pub after : List A
  pub splits : xs ≡ before ++ found ∷ after
  pub passes : All (λ x. f x ≡ none) before
  pub answers : f found ≡ some b

module _ {A B : Type 0} (f : A → Option B) where
  First-cons : (x : A) (xs : List A) (b : B) → f x ≡ none → First f xs b → First f (x ∷ xs) b
  First-cons x xs b h r = record {
    before = x ∷ r.before;
    found = r.found;
    after = r.after;
    splits = ap (◌∷◌ x) r.splits;
    passes = (h, r.passes);
    answers = r.answers;
  }

  find_map-First : (xs : List A) (b : B) → find_map f xs ≡ some b → First f xs b
  unfolding find_map
  find_map-First [] b h = cc h
  find_map-First (x ∷ xs) b h = elim (Option-cases (f x)) [
    | inl e ↦ First-cons x xs b e (find_map-First xs b (rw (e, find_map) at h))
    | inr (y, e) ↦
        let same : some y ≡ some b = rw (e, find_map) at h in
        record {
          before = [];
          found = x;
          after = xs;
          splits = refl;
          passes = tt;
          answers = e ∙ same;
        }
  ]

  find_map-before :
      (before after : List A) (x : A) (b : B)
      → All (λ y. f y ≡ none) before
      → f x ≡ some b
      → find_map f (before ++ x ∷ after) ≡ some b
  unfolding find_map
  find_map-before [] after x b h e = rw e refl
  find_map-before (y ∷ before) after x b h e = rw h.0 (find_map-before before after x b h.1 e)

  pub find_map-found : (xs : List A) (b : B) → (find_map f xs ≡ some b) ↔ First f xs b
  find_map-found xs b = (
    find_map-First xs b,
    (λ r. rw r.splits (find_map-before r.before r.after r.found b r.passes r.answers)),
  )

pub all_map :
    {A : Type 0} {P Q : A → Type 0} (xs : List A) → ((x : A) → P x → Q x) → All P xs → All Q xs
all_map [] f r = tt
all_map (x ∷ xs) f r = (f x r.0, all_map xs f r.1)

module _ {A : Type 0} (p : A → Bool) where
  Has-cons : (P : A → Type 0) (x : A) (xs : List A) → Has P xs → Has P (x ∷ xs)
  Has-cons P x xs r = record {
    before = x ∷ r.before;
    found = r.found;
    after = r.after;
    splits = ap (◌∷◌ x) r.splits;
    holds = r.holds;
  }

  any-Has : (xs : List A) → any p xs ≡ true → Has (λ x. p x ≡ true) xs
  any-Has [] h = cc h
  any-Has (x ∷ xs) h = elim (Bool-cases (p x)) [
    | inl e ↦ record { before = []; found = x; after = xs; splits = refl; holds = e }
    | inr e ↦ Has-cons (λ x. p x ≡ true) x xs (any-Has xs (rw e at h))
  ]

  any-before : (before after : List A) (x : A) → p x ≡ true → any p (before ++ x ∷ after) ≡ true
  any-before [] after x e = rw e refl
  any-before (y ∷ before) after x e = ground (arith, any-before before after x e)

  pub any-holds : (xs : List A) → (any p xs ≡ true) ↔ Has (λ x. p x ≡ true) xs
  any-holds xs = (any-Has xs, (λ r. rw r.splits (any-before r.before r.after r.found r.holds)))
