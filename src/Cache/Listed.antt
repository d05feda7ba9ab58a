-- ===== src/Cache/Listed.antt =====
-- The share of a name that shares.ini lists.
use unraid.Cache.Ini.{parse_shares_ini, ShareCache}
use unraid.Text.{text_eq, text_eq_iff, Text}
use unraid.Cache.Plan.{first_share, is_share, list_in}
use unraid.Base.{
  sym, ap, ◌∙◌, refl, Bool-cases, ◌≢◌, ◌⊎◌, ◌++◌, All, ◌≡◌, keep, List, ok, [], ◌∷◌, inl, inr,
}
use unraid.Order.{list_ord, nat_ord}
use unraid.Text.Laws.{not-text_eq}
use unraid.Base.{some}

-- The first share of the name in shares.ini.
pub record Listed (text name : Text) (current : ShareCache) : Type 0 where
  pub before : List ShareCache
  pub after : List ShareCache
  pub splits : parse_shares_ini text ≡ before ++ current ∷ after
  pub is_first : All (λ s. s.share ≢ name) before
  pub named : current.share ≡ name

-- The shares of a name that are listed, the first of them first.
kept_first :
    (name : Text) (l : List ShareCache) (current : ShareCache) (more : List ShareCache)
    → keep (is_share name) l ≡ current ∷ more
    → (before : List ShareCache) × (after : List ShareCache) × (l ≡ before ++ current ∷ after)
      × All (λ s. s.share ≢ name) before
      × (current.share ≡ name)
kept_first name [] current more h = cc h
kept_first name (s ∷ l) current more h = elim (Bool-cases (text_eq s.share name)) [
  | inl e ↦
      let same : s ≡ current = cc (rw e at h) in
      (
        [],
        l,
        ap (λ x. x ∷ l) same,
        tt,
        ap (λ x. x.share) (sym same) ∙ (text_eq_iff s.share name).0 e,
      )
  | inr e ↦
      let (before, after, splits, others, named) = kept_first name l current more (rw e at h) in
      let other : s.share ≢ name = λ q. cc ((text_eq_iff s.share name).1 q, e) in
      (s ∷ before, after, ap (◌∷◌ s) splits, (other, others), named)
]

keeps_first :
    (name : Text) (before after : List ShareCache) (current : ShareCache)
    → All (λ s. s.share ≢ name) before
    → current.share ≡ name
    → (more : List ShareCache) × (keep (is_share name) (before ++ current ∷ after) ≡ current ∷ more)
keeps_first name [] after current others named =
    (keep (is_share name) after, rw ((text_eq_iff current.share name).1 named) refl)
keeps_first name (s ∷ before) after current others named =
    let (more, e) = keeps_first name before after current others.1 named in
    (more, rw (not-text_eq s.share name others.0) e)

listed_or_not :
    (l : List ShareCache) → (l ≡ []) ⊎ ((s : ShareCache) × (ss : List ShareCache) × (l ≡ s ∷ ss))
listed_or_not [] = inl refl
listed_or_not (s ∷ ss) = inr (s, ss, refl)

pub list_in-Listed :
    (text name : Text) (shares : List ShareCache) (current : ShareCache)
    → list_in text (some name) ≡ ok shares
    → first_share name shares ≡ ok current
    → Listed text name current
unfolding list_in
list_in-Listed text name shares current h g =
    elim (listed_or_not (keep (is_share name) (parse_shares_ini text))) [
      | inl e ↦ absurd (cc (rw e at h))
      | inr (s, ss, e) ↦
          let all : shares ≡ s ∷ ss = cc (rw e at h) in
          let same : s ≡ current = cc (rw all at g) in
          let (before, after, splits, others, named) =
            kept_first name (parse_shares_ini text) current ss (e ∙ ap (λ x. x ∷ ss) same) in
          record {
            before = before;
            after = after;
            splits = splits;
            is_first = others;
            named = named;
          }
    ]

pub Listed-list_in :
    (text name : Text) (current : ShareCache)
    → Listed text name current
    → (more : List ShareCache) × (list_in text (some name) ≡ ok (current ∷ more))
unfolding list_in
Listed-list_in text name current l =
    let (more, e) = keeps_first name l.before l.after current l.is_first l.named in
    (more, rw l.splits (rw e refl))
