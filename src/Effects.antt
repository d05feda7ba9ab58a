-- ===== src/Effects.antt =====
-- Effects that may fail: what they answer, and the state that they leave.
use unraid.Base.{
  refl, if◌then◌else◌, ap, Result-cases, Result, Bool, ok, err, true, false, inl, inr,
}
use unraid.Order.{list_ord, nat_ord}
use mathlib.Core.Path.{◌≡◌}

abbrev pub Effect : Type 0 → Type 0 → Type 0 → Type 0
Effect E S A = S → Result E A × S

module _ {E S : Type 0} where
  infixl 5 ◌>>=◌
  -- `?`: what follows an effect that succeeded.
  unfoldable pub ◌>>=◌ : {A B : Type 0} → Effect E S A → (A → Effect E S B) → Effect E S B
  (act >>= next) s = let (res, s') = act s in elim res [ err e ↦ (err e, s') | ok a ↦ next a s' ]

  infixl 5 ◌>>◌
  abbrev pub ◌>>◌ : {B : Type 0} → Effect E S (Unit {0}) → Effect E S B → Effect E S B
  first >> next = first >>= λ _. next

  abbrev pub lift : {A : Type 0} → Result E A → Effect E S A
  lift res s = (res, s)

  -- `bail!`
  abbrev pub fail : {A : Type 0} → E → Effect E S A
  fail e = lift (err e)

  abbrev pub give : {A : Type 0} → A → Effect E S A
  give a = lift (ok a)

  -- `if test { bail!(e) }`
  abbrev pub fail_if : Bool → E → Effect E S (Unit {0})
  fail_if test e = if test then fail e else give tt

  abbrev pub ask_state : Effect E S S
  ask_state s = (ok s, s)

  pub bind_step :
      {A B : Type 0} (act : Effect E S A) (next : A → Effect E S B) (s : S) (a : A) (s' : S)
      (r : Result E B × S)
      → act s ≡ (ok a, s')
      → next a s' ≡ r
      → (act >>= next) s ≡ r
  unfolding ◌>>=◌
  bind_step act next s a s' r h k = rw (h, ◌>>=◌) (rw h k)

  pub bind-inv :
      {A B : Type 0} (act : Effect E S A) (next : A → Effect E S B) (s : S) (b : B) (s' : S)
      → (act >>= next) s ≡ (ok b, s')
      → (a : A) × (t : S) × (act s ≡ (ok a, t)) × (next a t ≡ (ok b, s'))
  unfolding ◌>>=◌
  bind-inv act next s b s' h = elim (Result-cases (act s).0) [
    | inl (a, e) ↦ (a, (act s).1, ap (λ r. (r, (act s).1)) e, rw (◌>>=◌, e) at h)
    | inr (m, e) ↦ absurd (cc (rw (◌>>=◌, e) at h))
  ]

  pub lift-inv :
      {A : Type 0} (res : Result E A) (s : S) (a : A) (s' : S)
      → lift res s ≡ (ok a, s')
      → (res ≡ ok a) × (s ≡ s')
  lift-inv res s a s' h = (ap (λ t. t.0) h, ap (λ t. t.1) h)

  pub fail_if-inv :
      (test : Bool) (e : E) (s : S) (u : Unit {0}) (s' : S)
      → fail_if test e s ≡ (ok u, s')
      → (test ≡ false) × (s ≡ s')
  fail_if-inv true e s u s' h = absurd (cc h)
  fail_if-inv false e s u s' h = (refl, ap (λ t. t.1) h)
