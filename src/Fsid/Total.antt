-- ===== src/Fsid/Total.antt =====
-- The plan is made: neither loop panics or runs on, and every share gets an fsid.
use unraid.Text.{Text}
use unraid.Base.{
  inr, inl, suc, none, Option-cases, refl, not, ◌-◌, arith, some, true, keep, ◌≤◌, All, ◌≡◌, ◌∷◌,
  ◌<◌, Bool, ◌+◌, length, Option, ℕ, [], List,
}
use unraid.Fsid.{
  hashed_fsid, fsid_base, fsid_span, Current, is_fixed, Plan, place_share, place_moving,
  place_fixed, plan_fsids, fixed, moving, fresh, probe, place,
}
use unraid.Fsid.Probe.{probe-returns}
use unraid.Fsid.Laws.{keep-cons, All-keep}
use unraid.Map.{Map, Set, contains_key, add}
use unraid.Map.Laws.{length-insert, contains_key-insert, contains_key-insert_self}
use unraid.Order.{list_eq, nat_ord, list_ord}

-- The second plan has the shares of the first, and those of the entries.
record Grown (p q : Plan) (es : List (Text × Option ℕ)) : Type 0 where
  older : (s : Text) → contains_key p.out s ≡ true → contains_key q.out s ≡ true
  placed : All (λ e. contains_key q.out e.0 ≡ true) es

Grown-nil : (p : Plan) → Grown p p []
Grown-nil p = record { older = λ s h. h; placed = tt }

Grown-cons :
    (p q : Plan) (s : Text) (f : ℕ) (c : Option ℕ) (es : List (Text × Option ℕ))
    → Grown (place p s f) q es
    → Grown p q ((s, c) ∷ es)
Grown-cons p q s f c es g = record {
  older = λ t h. g.older t (contains_key-insert s f p.out t h);
  placed = (g.older s (contains_key-insert_self s f p.out), g.placed);
}

fixed_total :
    (key : Text) (es : List (Text × Option ℕ)) (p : Plan)
    → All (λ e. is_fixed key e ≡ true) es
    → (q : Plan) × (place_fixed p es ≡ some q)
      × (length q.used ≤ length p.used + length es)
      × Grown p q es
unfolding place_fixed add
fixed_total key [] p a = (p, refl, omega arith, Grown-nil p)
fixed_total key ((s, none) ∷ es) p a = cc a.0
fixed_total key ((s, some f) ∷ es) p a =
    let (q, e, l, g) = fixed_total key es (place p s f) a.1 in
    (q, e, omega (arith, l, length-insert f tt p.used), Grown-cons p q s f (some f) es g)

share_total :
    (key : Text) (p : Plan) (s : Text)
    → length p.used < fsid_span
    → (f : ℕ) × (place_share key p s ≡ some (place p s f))
unfolding place_share hashed_fsid
share_total key p s h =
    let off = hashed_fsid key s - fsid_base in
    elim (Option-cases (probe (suc (length p.used)) p.used off)) [
      | inl stuck ↦ absurd (probe-returns p.used off (omega arith) h stuck)
      | inr (r, found) ↦ (fsid_base + r, ground (arith, found))
    ]

moving_total :
    (key : Text) (es : List (Text × Option ℕ)) (p : Plan)
    → length p.used + length es ≤ fsid_span
    → (q : Plan) × (place_moving key p es ≡ some q) × Grown p q es
unfolding place_moving add
moving_total key [] p h = (p, refl, Grown-nil p)
moving_total key ((s, c) ∷ es) p h =
    let (f, here) = share_total key p s (omega arith) in
    let (q, e, g) = moving_total key es (place p s f) (omega (arith, length-insert f tt p.used)) in
    (q, ground (arith, here, e), Grown-cons p q s f c es g)

older_keys :
    (p q : Plan) (es fs : List (Text × Option ℕ))
    → Grown p q es
    → All (λ e. contains_key p.out e.0 ≡ true) fs
    → All (λ e. contains_key q.out e.0 ≡ true) fs
older_keys p q es [] g a = tt
older_keys p q es ((s, c) ∷ fs) g a = (g.older s a.0, older_keys p q es fs g a.1)

length_parts :
    (p : Text × Option ℕ → Bool) (es : List (Text × Option ℕ))
    → length (keep p es) + length (keep (λ e. not (p e)) es) ≡ length es
length_parts p [] = omega arith
length_parts p (e ∷ es) = ground (arith, length_parts p es)

-- A property of the keys of both parts holds of the keys of the map.
both_parts :
    (p : Text × Option ℕ → Bool) (es : Current) (m : Map Text ℕ) (s : Text)
    → All (λ e. contains_key m e.0 ≡ true) (keep p es)
    → All (λ e. contains_key m e.0 ≡ true) (keep (λ e. not (p e)) es)
    → contains_key es s ≡ true
    → contains_key m s ≡ true
unfolding contains_key
both_parts p [] m s a b h = cc
both_parts p ((t, c) ∷ es) m s a b h =
    let (ha, ra) = keep-cons p (λ e. contains_key m e.0 ≡ true) (t, c) es a in
    let (hb, rb) = keep-cons (λ e. not (p e)) (λ e. contains_key m e.0 ≡ true) (t, c) es b in
    ground (arith, list_eq t s, both_parts p es m s ra rb, ha, hb)

-- With fewer fsids reserved than the range has left for the shares, the plan is made, and every
-- share is in it.
pub plan_fsids-total :
    (key : Text) (current : Current) (reserved : Set ℕ)
    → length reserved + length current ≤ fsid_span
    → (out : Map Text ℕ) × (plan_fsids key current reserved ≡ some out)
      × ((s : Text) → contains_key current s ≡ true → contains_key out s ≡ true)
unfolding plan_fsids
plan_fsids-total key current reserved h =
    let (p, first, l, g) =
      fixed_total key (fixed key current) (fresh reserved) (All-keep (is_fixed key) current) in
    let (q, second, g') =
      moving_total key (moving key current) p
        (omega (arith, l, length_parts (is_fixed key) current)) in
    (
      q.out,
      ground (arith, first, second),
      λ s c.
          both_parts (is_fixed key) current q.out s
            (older_keys p q (moving key current) (fixed key current) g' g.placed) g'.placed c,
    )
