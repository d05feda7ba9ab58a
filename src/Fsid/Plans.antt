-- ===== src/Fsid/Plans.antt =====
-- The loop over the shares that move: each gets an fsid that nothing else has.
use mathlib.Core.Path.{subst}
use unraid.Text.Laws.{Text-cases}
use unraid.Text.{text_eq_iff, text_eq, Text}
use unraid.Base.{
  ◌||◌, refl, ◌⊎◌, Bool-cases, [], ◌∷◌, ◌-◌, length, suc, inr, arith, ◌≢◌, Option-cases, ◌∙◌, ◌+◌,
  ◌<◌, sym, ◌≤◌, inl, true, some, false, Bool, ◌≡◌, Option, ℕ, List,
}
use unraid.Fsid.{probe, fsid_base, fsid_span, hashed_fsid, Plan, place, place_share, place_moving}
use unraid.Fsid.Probe.{probe-free}
use unraid.Map.{contains_key, get, add}
use unraid.Map.Laws.{
  get-insert_self, get-insert_ne, contains_key-insert_self, contains_key-insert,
  not-contains_key-insert,
}
use unraid.Order.{nat_ord, list_ord}

-- The fsids of a plan are in use.
abbrev pub Covers : Plan → Type 0
Covers p = (s : Text) (f : ℕ) → get p.out s ≡ some f → contains_key p.used f ≡ true

pub place-Covers : (p : Plan) (s : Text) (f : ℕ) → Covers p → Covers (place p s f)
unfolding add
place-Covers p s f c t g h = elim (Text-cases s t) [
  | inl e ↦
      let found : some f ≡ some g = sym (get-insert_self s f p.out) ∙ (rw (← e) at h) in
      ground (arith, contains_key-insert_self f tt p.used)
  | inr n ↦ contains_key-insert f tt p.used g (c t g (sym (get-insert_ne s f p.out t n) ∙ h))
]

-- Whether a share is among the entries.
abbrev pub listed : Text → List (Text × Option ℕ) → Bool
listed s [] = false
listed s ((t, _) ∷ es) = text_eq t s || listed s es

-- No share is listed twice.
abbrev pub Distinct : List (Text × Option ℕ) → Type 0
Distinct [] = Unit
Distinct ((s, _) ∷ es) = (listed s es ≡ false) × Distinct es

pub place_share-some :
    (key : Text) (p : Plan) (share : Text) (q : Plan)
    → place_share key p share ≡ some q
    → (f : ℕ) × (q ≡ place p share f)
      × (contains_key p.used f ≡ false)
      × (fsid_base ≤ f)
      × (f < fsid_base + fsid_span)
unfolding place_share hashed_fsid
place_share-some key p share q e =
    elim (Option-cases (probe (suc (length p.used)) p.used (hashed_fsid key share - fsid_base))) [
      | inl none_found ↦ absurd (ground (arith, none_found))
      | inr (off, found) ↦
          let (free, bound) =
            probe-free (suc (length p.used)) p.used (hashed_fsid key share - fsid_base) off
              (omega arith) found in
          (fsid_base + off, ground (arith, found), free, omega arith, omega arith)
    ]

-- What the loop leaves: the shares that it went over have fsids that were not in use and that no
-- other share has, and the other shares keep theirs.
pub record Moved (p q : Plan) (es : List (Text × Option ℕ)) : Type 0 where
  pub covers : Covers q
  pub kept : (s : Text) → listed s es ≡ false → get q.out s ≡ get p.out s
  pub new :
      (s : Text) (f : ℕ)
      → listed s es ≡ true
      → get q.out s ≡ some f
      → (contains_key p.used f ≡ false) × (fsid_base ≤ f) × (f < fsid_base + fsid_span)
  pub alone :
      (s t : Text) (f : ℕ)
      → listed s es ≡ true
      → s ≢ t
      → get q.out s ≡ some f
      → get q.out t ≢ some f

Moved-nil : (p : Plan) → Covers p → Moved p p []
Moved-nil p c = record { covers = c; kept = λ s h. refl; new = λ s f h. cc; alone = λ s t f h. cc }

-- One share placed on a free fsid, and then the rest.
module _ (p q : Plan) (s₀ : Text) (f₀ : ℕ) (c₀ : Option ℕ) (es : List (Text × Option ℕ))
    (covers : Covers p) (once : listed s₀ es ≡ false) (free : contains_key p.used f₀ ≡ false)
    (low : fsid_base ≤ f₀) (high : f₀ < fsid_base + fsid_span)
    (later : Moved (place p s₀ f₀) q es) where
  -- A share of the list is the first one, or one of the rest.
  listed-cons : (s : Text) → listed s ((s₀, c₀) ∷ es) ≡ true → (s₀ ≡ s) ⊎ (listed s es ≡ true)
  listed-cons s h = elim (Text-cases s₀ s) [
    | inl e ↦ inl e
    | inr n ↦ inr (ground (arith, text_eq_iff s₀ s))
  ]

  unlisted-cons : (s : Text) → listed s ((s₀, c₀) ∷ es) ≡ false → (s₀ ≢ s) × (listed s es ≡ false)
  unlisted-cons s h = ground (arith, text_eq_iff s₀ s)

  first_held : get q.out s₀ ≡ some f₀
  first_held = later.kept s₀ once ∙ get-insert_self s₀ f₀ p.out

  first_used : contains_key (place p s₀ f₀).used f₀ ≡ true
  unfolding add
  first_used = contains_key-insert_self f₀ tt p.used

  kept-cons : (s : Text) → listed s ((s₀, c₀) ∷ es) ≡ false → get q.out s ≡ get p.out s
  kept-cons s h =
      let (other, rest) = unlisted-cons s h in later.kept s rest ∙ get-insert_ne s₀ f₀ p.out s other

  new-cons :
      (s : Text) (f : ℕ)
      → listed s ((s₀, c₀) ∷ es) ≡ true
      → get q.out s ≡ some f
      → (contains_key p.used f ≡ false) × (fsid_base ≤ f) × (f < fsid_base + fsid_span)
  unfolding add
  new-cons s f h e = elim (listed-cons s h) [
    | inl same ↦ ground (arith, first_held)
    | inr rest ↦
        let (fresh, l, u) = later.new s f rest e in
        (not-contains_key-insert f₀ tt p.used f fresh, l, u)
  ]

  -- The first share's fsid is held by no other share.
  first_alone : (t : Text) → s₀ ≢ t → get q.out t ≢ some f₀
  first_alone t n e = elim (Bool-cases (listed t es)) [
    | inl rest ↦ let (fresh, _, _) = later.new t f₀ rest e in ground (arith, first_used)
    | inr other ↦
        let held : get p.out t ≡ some f₀ =
          sym (get-insert_ne s₀ f₀ p.out t n) ∙ (sym (later.kept t other) ∙ e) in
        ground (arith, covers t f₀ held)
  ]

  alone-cons :
      (s t : Text) (f : ℕ)
      → listed s ((s₀, c₀) ∷ es) ≡ true
      → s ≢ t
      → get q.out s ≡ some f
      → get q.out t ≢ some f
  alone-cons s t f h n e = elim (listed-cons s h) [
    | inl same ↦
        let value : f₀ ≡ f = ground (arith, first_held) in rw (← value) (first_alone t (rw same n))
    | inr rest ↦ later.alone s t f rest n e
  ]

  Moved-cons : Moved p q ((s₀, c₀) ∷ es)
  Moved-cons = record {
    covers = later.covers;
    kept = kept-cons;
    new = new-cons;
    alone = alone-cons;
  }

pub place_moving-Moved :
    (key : Text) (es : List (Text × Option ℕ)) (p q : Plan)
    → Distinct es
    → Covers p
    → place_moving key p es ≡ some q
    → Moved p q es
unfolding place_moving
place_moving-Moved key [] p q d c e =
    let same : p ≡ q = ground arith in subst (λ r. Moved p r []) same (Moved-nil p c)
place_moving-Moved key ((s, f) ∷ es) p q d c e = elim (Option-cases (place_share key p s)) [
  | inl stuck ↦ absurd (ground (arith, stuck))
  | inr (r, placed) ↦
      let (f₀, here, free, low, high) = place_share-some key p s r placed in
      let rest : place_moving key (place p s f₀) es ≡ some q = ground (arith, placed) in
      let later = place_moving-Moved key es (place p s f₀) q d.1 (place-Covers p s f₀ c) rest in
      Moved-cons p q s f₀ f es c d.0 free low high later
]
