-- ===== src/Cache/Planned.antt =====
-- A planned change is one that the root side accepts, of a share that is there.
use unraid.Cache.Listed.{list_in-Listed, Listed-list_in, Listed}
use unraid.Base.{◌≢◌, ◌↔◌}
use unraid.Order.{list_ord, nat_ord}
use unraid.Text.Laws.{is_empty_iff}
use unraid.Cache.Accepted.{new_request-Acceptable, Acceptable, request_of, bind_ok}
use unraid.Adopt.{priv_set_share_cache, PrivilegedOp}
use unraid.Cache.{new_request, ShareCacheRequest, RequestError}
use unraid.Cache.Ini.{ShareCache}
use unraid.Cache.Plan.{
  needs_pool, is_pooled, plan_of, first_share, of_request, op_for, plan_in, SetArgs, list_in,
}
use mathlib.Core.Path.{subst}
use unraid.Base.{
  ◌∙◌, sym, ◌⊎◌, ap, [], inr, inl, Bool-cases, refl, ◌≡◌, guard, Result, Bool, some, true, false,
  ok, err, get_or,
}
use unraid.Text.{is_empty, codes, text_eq_iff, Text, text_eq}

guard_ok : {E : Type 0} (t : Bool) (e : E) (u : Unit {0}) → guard t e ≡ ok u → t ≡ true
guard_ok true e u h = refl
guard_ok false e u h = cc h

-- A change is planned: of a share that is listed, with a request that root accepts, which is that of
-- the operation's fields, and with a pool unless the mode is to be `no`.
pub record Planned (text : Text) (args : SetArgs) (current : ShareCache) (req : ShareCacheRequest)
    (op : PrivilegedOp) : Type 0 where
  pub listed : Listed text args.share current
  pub acceptable : Acceptable args
  pub makes : req ≡ request_of args
  pub asks : op ≡ priv_set_share_cache req.share req.use_cache req.cache_pool req.floor_kib
  pub pooled :
      (get_or req.use_cache current.use_cache ≡ codes "no")
      ⊎ (get_or req.cache_pool current.cache_pool ≢ [])

pooled_iff :
    (req : ShareCacheRequest) (current : ShareCache)
    → (is_pooled req current ≡ true) ↔ (
        (get_or req.use_cache current.use_cache ≡ codes "no")
        ⊎ (get_or req.cache_pool current.cache_pool ≢ []))
pooled_iff req current =
    let mode = text_eq_iff (get_or req.use_cache current.use_cache) (codes "no") in
    let pool = is_empty_iff (get_or req.cache_pool current.cache_pool) in
    elim (Bool-cases (text_eq (get_or req.use_cache current.use_cache) (codes "no"))) [
      | inl e ↦ (λ _. inl (mode.0 e), λ _. rw e refl)
      | inr e ↦ (
        (λ h. inr (λ q. cc (pool.1 q, rw e at h))),
        (λ r. rw e (elim r [
          | inl m ↦ absurd (cc (mode.1 m, e))
          | inr p ↦ elim (Bool-cases (is_empty (get_or req.cache_pool current.cache_pool))) [
            | inl k ↦ absurd (p (pool.0 k))
            | inr k ↦ rw k refl
          ]
        ])),
      )
    ]

of_request-ok :
    {A : Type 0} (r : Result RequestError A) (a : A) → (of_request r ≡ ok a) ↔ (r ≡ ok a)
of_request-ok (ok b) a = (λ h. cc h, λ h. cc h)
of_request-ok (err e) a = (λ h. cc h, λ h. cc h)

abbrev ask : SetArgs → PrivilegedOp
ask args = priv_set_share_cache args.share args.use_cache args.cache_pool args.floor_kib

op_for-Acceptable :
    (args : SetArgs) (req : ShareCacheRequest) (op : PrivilegedOp)
    → op_for args ≡ ok (req, op)
    → Acceptable args × (req ≡ request_of args) × (op ≡ ask args)
unfolding op_for
op_for-Acceptable args req op h =
    let made = new_request args.share args.use_cache args.cache_pool args.floor_kib in
    let (r, b, done) = bind_ok (of_request made) _ (req, op) h in
    let same : r ≡ req = cc done in
    let (good, is_of) = (new_request-Acceptable args r).0 ((of_request-ok made r).0 b) in
    (good, sym same ∙ is_of, cc done)

Acceptable-op_for :
    (args : SetArgs) → Acceptable args → op_for args ≡ ok (request_of args, ask args)
unfolding op_for
Acceptable-op_for args good =
    let made = new_request args.share args.use_cache args.cache_pool args.floor_kib in
    let accepted = (new_request-Acceptable args (request_of args)).1 (good, refl) in
    rw ((of_request-ok made (request_of args)).1 accepted) refl

plan_of-Listed :
    (text : Text) (req r : ShareCacheRequest) (op o : PrivilegedOp) (current : ShareCache)
    → plan_of text req op ≡ ok (current, r, o)
    → Listed text req.share current × (is_pooled req current ≡ true) × (req ≡ r) × (op ≡ o)
unfolding plan_of
plan_of-Listed text req r op o current h =
    let (shares, l, h₁) = bind_ok (list_in text (some req.share)) _ _ h in
    let (c, f, h₂) = bind_ok (first_share req.share shares) _ _ h₁ in
    let (u, g, h₃) =
      bind_ok (guard (is_pooled req c) (needs_pool (get_or req.use_cache c.use_cache))) _ _ h₂ in
    let same : c ≡ current = cc h₃ in
    (
      list_in-Listed text req.share shares current l (f ∙ ap ok same),
      subst (λ x. is_pooled req x ≡ true) same (guard_ok (is_pooled req c) _ u g),
      cc h₃,
      cc h₃,
    )

Listed-plan_of :
    (text : Text) (req : ShareCacheRequest) (op : PrivilegedOp) (current : ShareCache)
    → Listed text req.share current
    → is_pooled req current ≡ true
    → plan_of text req op ≡ ok (current, req, op)
unfolding plan_of
Listed-plan_of text req op current l p =
    let (more, e) = Listed-list_in text req.share current l in rw e (rw p refl)

module _ (text : Text) (args : SetArgs) (current : ShareCache) (req : ShareCacheRequest)
    (op : PrivilegedOp) where
  planned : plan_in text args ≡ ok (current, req, op) → Planned text args current req op
  unfolding plan_in
  planned h =
      let (made, a, h₁) = bind_ok (op_for args) _ _ h in
      let (listed, pooled, r, o) = plan_of-Listed text made.0 req made.1 op current h₁ in
      let (good, is_of, asked) = op_for-Acceptable args made.0 made.1 a in
      let is_request : req ≡ request_of args = sym r ∙ is_of in
      record {
        listed = subst (λ x. Listed text x current) (ap (λ x. x.share) is_of) listed;
        acceptable = good;
        makes = is_request;
        asks =
            sym o
            ∙ asked
            ∙ ap (λ x. priv_set_share_cache x.share x.use_cache x.cache_pool x.floor_kib)
                (sym is_request);
        pooled = (pooled_iff req current).0 (subst (λ x. is_pooled x current ≡ true) r pooled);
      }

  makes_plan : Planned text args current req op → plan_in text args ≡ ok (current, req, op)
  unfolding plan_in
  makes_plan p =
      let pooled =
        subst (λ x. is_pooled x current ≡ true) p.makes ((pooled_iff req current).1 p.pooled) in
      let asked : ask args ≡ op =
        ap (λ x. priv_set_share_cache x.share x.use_cache x.cache_pool x.floor_kib) (sym p.makes)
        ∙ sym p.asks in
      rw (Acceptable-op_for args p.acceptable) (
        Listed-plan_of text (request_of args) (ask args) current p.listed pooled
        ∙ ap (λ r. ok (current, r, ask args)) (sym p.makes)
        ∙ ap (λ o. ok (current, req, o)) asked)

  -- A change is planned exactly if its fields are acceptable, its share is listed, and the share will
  -- have a pool unless its mode is `no`. The plan then has the first listed share of the name, the
  -- request with the fields, and the operation with the fields of the request.
  pub plan_in-Planned :
      (plan_in text args ≡ ok (current, req, op)) ↔ Planned text args current req op
  plan_in-Planned = (planned, makes_plan)
