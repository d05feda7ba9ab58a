-- ===== src/Cache/Check.antt =====
-- The check passes exactly when emhttp has written what was asked, and nothing else.
use unraid.Cache.Keys.{contains_key-all_keys}
use unraid.Map.Laws.{IsSorted-extend}
use unraid.Map.Extent.{get_of_contains_key, All-get}
use unraid.Cache.Settled.{
  All-of_each, All-lookup, key_problem_iff, wanted_problem_iff, All-map, append-nil_inv, no_problem,
  Settled,
}
use unraid.Cache.ReadBack.{
  all_keys, wanted, wanted_problem, key_problem, each_problem, Problem, check_read_back,
}
use unraid.Cache.{cfg_updates, ShareCacheRequest}
use unraid.Base.{inr, inl, ◌⊎◌, refl, ◌∷◌, ◌++◌, Result, [], ◌↔◌, ◌≡◌, List, some, ok, err}
use unraid.Text.{Text}
use unraid.Map.{Map, get}
use unraid.Order.{list_ord, nat_ord}

module _ (before after sent : Map Text Text) (req : ShareCacheRequest) where
  abbrev wanted_problems : List Problem
  wanted_problems = each_problem (wanted_problem after) (wanted req)

  abbrev key_problems : List Problem
  key_problems =
      each_problem (λ e. key_problem (wanted req) before after sent e.0) (all_keys before after)

  Settled-none : wanted_problems ≡ [] → key_problems ≡ [] → Settled before after sent req
  Settled-none h g =
      let wants = (no_problem (wanted_problem after) (wanted req)).0 h in
      let others =
        (no_problem (λ e. key_problem (wanted req) before after sent e.0) (all_keys before after)).0
          g in
      let at = λ (k v : Text) (there : (get before k ≡ some v) ⊎ (get after k ≡ some v)).
        (key_problem_iff (wanted req) before after sent k).0 (
          All-lookup (λ j _. key_problem (wanted req) before after sent j ≡ [])
            (all_keys before after) k tt others
            (get_of_contains_key (all_keys before after) k
              (contains_key-all_keys before after k v there))) in
      record {
        set = λ k v w.
            (wanted_problem_iff after k v).0
              (All-lookup (λ j u. wanted_problem after (j, u) ≡ []) (wanted req) k v wants w);
        kept = λ k v w b. (at k v (inl b) w).kept v b;
        new = λ k v a w b s c. (at k a (inr c) w).new v a b s c;
      }

  none-Settled : Settled before after sent req → (wanted_problems ≡ []) × (key_problems ≡ [])
  none-Settled s = (
    (no_problem (wanted_problem after) (wanted req)).1 (
        All-map (λ e. get (wanted req) e.0 ≡ some e.1) (λ e. wanted_problem after e ≡ [])
          (λ e h. (wanted_problem_iff after e.0 e.1).1 (s.set e.0 e.1 h)) (wanted req)
          (All-get (wanted req) (IsSorted-extend (cfg_updates req) [] tt))),
    (no_problem (λ e. key_problem (wanted req) before after sent e.0) (all_keys before after)).1 (
        All-of_each (λ e. key_problem (wanted req) before after sent e.0 ≡ [])
          (λ e.
            (key_problem_iff (wanted req) before after sent e.0).1
              (λ w. record { kept = λ v. s.kept e.0 v w; new = λ v a b. s.new e.0 v a w b }))
          (all_keys before after)),
  )

  passes_iff :
      (ps : List Problem)
      → (elim ps as (λ _. Result (List Problem) (Unit {0})) [ [] ↦ ok tt | p ∷ qs ↦ err (p ∷ qs) ]
          ≡ ok tt)
        ↔ (ps ≡ [])
  passes_iff [] = (λ _. refl, λ _. refl)
  passes_iff (p ∷ ps) = (λ h. cc h, λ h. cc h)

  -- The check of what emhttp has written passes exactly when the keys that were asked for are at
  -- their new values, every other key that was there is unchanged, and a new key holds the value
  -- that was sent for it, if one was.
  pub check_read_back-Settled :
      (check_read_back before after sent req ≡ ok tt) ↔ Settled before after sent req
  unfolding check_read_back
  check_read_back-Settled =
      let (there, back) = passes_iff (wanted_problems ++ key_problems) in
      (
        (λ h.
            let (w, k) = append-nil_inv wanted_problems key_problems (there h) in Settled-none w k),
        (λ s. let (w, k) = none-Settled s in back (rw (w, k))),
      )
