-- ===== src/Cache/Accepted.antt =====
-- The requests that `ShareCacheRequest::new` accepts.
use unraid.Cache.{
  invalid_use_cache, use_cache_modes, nothing_to_set, validate_pool, validate_some_pool, is_none,
  validate_mode, ShareCacheRequest, validate_share_name, new_request,
}
use unraid.Text.{text_eq_iff, text_eq, codes, Text, contains}
use unraid.Cache.Plan.{SetArgs}
use unraid.Base.{
  arith, sym, ap, Bool-cases, ◌&&◌, ◌⊎◌, ◌↔◌, refl, ◌≡◌, guard, not, Option, Bool, Result, ok, err,
  true, false, [], ◌∷◌, inl, inr,
}
use mathlib.Core.Path.{subst}
use unraid.Order.{list_ord, nat_ord}
use unraid.Base.{◌>>=◌}
use unraid.Base.{none, some}

abbrev pub request_of : SetArgs → ShareCacheRequest
request_of args = record {
  share = args.share;
  use_cache = args.use_cache;
  cache_pool = args.cache_pool;
  floor_kib = args.floor_kib;
}

-- A valid share name, something to change, one of the four modes if there is a mode, and a valid pool
-- if there is a pool.
pub record Acceptable (args : SetArgs) : Type 0 where
  pub is_share_name : validate_share_name args.share ≡ ok tt
  pub changes : ¬ ((args.use_cache ≡ none) × (args.cache_pool ≡ none) × (args.floor_kib ≡ none))
  pub is_mode :
      (m : Text)
      → args.use_cache ≡ some m
      → (m ≡ codes "no") ⊎ ((m ≡ codes "yes") ⊎ ((m ≡ codes "only") ⊎ (m ≡ codes "prefer")))
  pub is_pool : (p : Text) → args.cache_pool ≡ some p → validate_pool p ≡ ok tt

pub bind_ok :
    {E A B : Type 0} (r : Result E A) (f : A → Result E B) (b : B)
    → r >>= f ≡ ok b
    → (a : A) × (r ≡ ok a) × (f a ≡ ok b)
bind_ok (ok a) f b h = (a, refl, h)
bind_ok (err e) f b h = cc h

guard_iff : {E : Type 0} (t : Bool) (e : E) → (guard t e ≡ ok tt) ↔ (t ≡ true)
guard_iff true e = (λ _. refl, λ _. refl)
guard_iff false e = (λ h. cc h, λ h. cc h)

contains_four :
    (a b c d m : Text)
    → (contains (a ∷ b ∷ c ∷ d ∷ []) m ≡ true) ↔ ((m ≡ a) ⊎ ((m ≡ b) ⊎ ((m ≡ c) ⊎ (m ≡ d))))
unfolding contains
contains_four a b c d m = (
  (λ h. elim (Bool-cases (text_eq a m)) [
    | inl e ↦ inl (sym ((text_eq_iff a m).0 e))
    | inr e ↦ elim (Bool-cases (text_eq b m)) [
      | inl k ↦ inr (inl (sym ((text_eq_iff b m).0 k)))
      | inr k ↦ elim (Bool-cases (text_eq c m)) [
        | inl j ↦ inr (inr (inl (sym ((text_eq_iff c m).0 j))))
        | inr j ↦ elim (Bool-cases (text_eq d m)) [
          | inl i ↦ inr (inr (inr (sym ((text_eq_iff d m).0 i))))
          | inr i ↦ absurd (ground (arith, h, e, k, j, i))
        ]
      ]
    ]
  ]),
  (λ r. elim r [
    | inl e ↦ let h = (text_eq_iff a m).1 (sym e) in ground (arith, h)
    | inr (inl e) ↦ let h = (text_eq_iff b m).1 (sym e) in ground (arith, h)
    | inr (inr (inl e)) ↦ let h = (text_eq_iff c m).1 (sym e) in ground (arith, h)
    | inr (inr (inr e)) ↦ let h = (text_eq_iff d m).1 (sym e) in ground (arith, h)
  ]),
)

mode_iff :
    (u : Option Text)
    → (validate_mode u ≡ ok tt) ↔ (
        (m : Text)
        → u ≡ some m
        → (m ≡ codes "no") ⊎ ((m ≡ codes "yes") ⊎ ((m ≡ codes "only") ⊎ (m ≡ codes "prefer"))))
mode_iff none = (λ _ m e. absurd (cc e), λ _. refl)
mode_iff (some u) =
    let four = contains_four (codes "no") (codes "yes") (codes "only") (codes "prefer") u in
    let test = guard_iff (contains use_cache_modes u) (invalid_use_cache u) in
    (
      (λ h m e.
          let same : u ≡ m = cc e in
          subst
            (λ x.
              (x ≡ codes "no") ⊎ ((x ≡ codes "yes") ⊎ ((x ≡ codes "only") ⊎ (x ≡ codes "prefer"))))
            same (four.0 (test.0 h))),
      (λ k. test.1 (four.1 (k u refl))),
    )

pool_iff :
    (c : Option Text)
    → (validate_some_pool c ≡ ok tt) ↔ ((p : Text) → c ≡ some p → validate_pool p ≡ ok tt)
pool_iff none = (λ _ p e. absurd (cc e), λ _. refl)
pool_iff (some c) = (
  (λ h p e. let same : c ≡ p = cc e in subst (λ x. validate_pool x ≡ ok tt) same h),
  (λ k. k c refl),
)

changes_iff :
    {A B C : Type 0} (a : Option A) (b : Option B) (c : Option C)
    → (not (is_none a && is_none b && is_none c) ≡ true) ↔ ¬ ((a ≡ none) × (b ≡ none) × (c ≡ none))
changes_iff none none none = (λ h. cc h, λ k. absurd (k (refl, refl, refl)))
changes_iff none none (some c) = (λ _ e. cc e.2, λ _. refl)
changes_iff none (some b) c = (λ _ e. cc e.1, λ _. refl)
changes_iff (some a) b c = (λ _ e. cc e.0, λ _. refl)

-- A request is made exactly of acceptable fields, and has these fields.
pub new_request-Acceptable :
    (args : SetArgs) (req : ShareCacheRequest)
    → (new_request args.share args.use_cache args.cache_pool args.floor_kib ≡ ok req)
      ↔ (Acceptable args × (req ≡ request_of args))
unfolding new_request
new_request-Acceptable args req =
    let some_change =
      not (is_none args.use_cache && is_none args.cache_pool && is_none args.floor_kib) in
    let changed = changes_iff args.use_cache args.cache_pool args.floor_kib in
    (
      (λ h.
          let (_, name, h₁) = bind_ok (validate_share_name args.share) _ req h in
          let (_, change, h₂) = bind_ok (guard some_change nothing_to_set) _ req h₁ in
          let (_, mode, h₃) = bind_ok (validate_mode args.use_cache) _ req h₂ in
          let (_, pool, h₄) = bind_ok (validate_some_pool args.cache_pool) _ req h₃ in
          (
            record {
              is_share_name = name;
              changes = changed.0 ((guard_iff some_change nothing_to_set).0 change);
              is_mode = (mode_iff args.use_cache).0 mode;
              is_pool = (pool_iff args.cache_pool).0 pool;
            },
            cc h₄,
          )),
      (λ r. rw r.0.is_share_name (
          rw (changed.1 r.0.changes) (
            rw ((mode_iff args.use_cache).1 r.0.is_mode)
              (rw ((pool_iff args.cache_pool).1 r.0.is_pool) (ap ok (sym r.1)))))),
    )
