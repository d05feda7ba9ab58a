-- ===== src/Ownership/Safe.antt =====
-- What a plan without blockers converts.
use unraid.Ownership.Convertible.{free_or_taken, Convertible}
use unraid.Base.{Has}
use unraid.Base.{append_assoc, some}
use unraid.Inspect.{volumes}
use unraid.Map.Pigeonhole.{AreDistinct}
use unraid.Map.Laws.{contains_key-insert_self, contains_key-insert}
use unraid.Base.{Option-cases, ◌∙◌, ap, sym}
use mathlib.Core.Path.{subst}
use unraid.Map.{add, contains_key, Set}
use unraid.Inspect.{volumes, short_name, ContainerInspect, MountPoint, problem_if}
use unraid.Text.{codes, contains, Text}
use unraid.Names.{is_valid_name, validate_name}
use unraid.Ownership.{Conversion}
use unraid.Ownership.Conversions.{
  no_conversions, convert_all, convert_mount, Conversions, convert, plan_conversions, not_plain,
  conversion, name_problems, anonymous_in, conversion_problems, lowercase, is_passed, Surroundings,
}
use unraid.Base.{
  not-false_inv, Bool-cases, arith, refl, ◌≢◌, ◌≡◌, is_nil, All, not, map, ◌++◌, List, Bool, true,
  false, [], ◌∷◌, inl, inr,
}
use unraid.Order.{list_ord, nat_ord}

-- The key under which the names of volumes are compared.
abbrev pub new_key : Conversion → Text
new_key cv = lowercase cv.new

module _ {ℓ} {A : Type ℓ} where
  append-nil_inv : (xs ys : List A) → xs ++ ys ≡ [] → (xs ≡ []) × (ys ≡ [])
  append-nil_inv [] ys h = (refl, h)
  append-nil_inv (x ∷ xs) ys h = absurd (cc h)

  problem_if-none : (test : Bool) (p : A) → problem_if test p ≡ [] → test ≡ false
  problem_if-none true p h = absurd (cc h)
  problem_if-none false p h = refl

  is_nil-inv : (xs : List A) → not (is_nil xs) ≡ false → xs ≡ []
  is_nil-inv [] h = refl
  is_nil-inv (x ∷ xs) h = absurd (cc h)

  map-nil_inv : {B : Type ℓ} (f : A → B) (xs : List A) → map f xs ≡ [] → xs ≡ []
  map-nil_inv f [] h = refl
  map-nil_inv f (x ∷ xs) h = absurd (cc h)

All-snoc :
    {A : Type 0} (P : A → Type 0) (xs : List A) (y : A) → All P xs → P y → All P (xs ++ y ∷ [])
All-snoc P [] y h p = (p, tt)
All-snoc P (x ∷ xs) y h p = (h.0, All-snoc P xs y h.1 p)

AreDistinct-snoc :
    (xs : List Text) (y : Text) → AreDistinct xs → All (λ x. x ≢ y) xs → AreDistinct (xs ++ y ∷ [])
AreDistinct-snoc [] y d a = (tt, tt)
AreDistinct-snoc (x ∷ xs) y d a =
    (All-snoc (λ z. z ≢ x) xs y d.0 (λ e. a.0 (sym e)), AreDistinct-snoc xs y d.1 a.1)

name_problems-none :
    (old new : Text)
    → name_problems old (validate_name (codes "volume") new) ≡ []
    → is_valid_name new ≡ true
unfolding validate_name
name_problems-none old new h = elim (Bool-cases (is_valid_name new)) [
  | inl e ↦ e
  | inr n ↦ absurd (cc (rw n at h))
]

is_passed-false :
    (sur : Surroundings) (old : Text)
    → is_passed sur old ≡ false
    → (contains sur.skip old ≡ false) × (anonymous_in sur.volumes old ≡ true)
unfolding is_passed
is_passed-false sur old h = ground arith

-- Each element of a list is in it.
each_in :
    {A : Type 0} (all before xs : List A) → all ≡ before ++ xs → All (λ x. Has (λ y. y ≡ x) all) xs
each_in all before [] h = tt
each_in all before (x ∷ xs) h = (
  record { before = before; found = x; after = xs; splits = h; holds = refl },
  each_in all (before ++ x ∷ []) xs (h ∙ sym (append_assoc before (x ∷ []) xs)),
)

module _ (sur : Surroundings) (name : Text) (mounts : List MountPoint) where
  -- A mount without problems gives a conversion that may be made, under a name that is not taken.
  conversion-Convertible :
      (taken : Set Text) (old : Text) (m : MountPoint)
      → Has (λ x. x ≡ m) mounts
      → m.name ≡ some old
      → is_passed sur old ≡ false
      → conversion_problems sur name taken old m ≡ []
      → Convertible sur name mounts (conversion sur name old m)
        × (contains_key taken (new_key (conversion sur name old m)) ≡ false)
  unfolding conversion_problems conversion
  conversion-Convertible taken old m i n p h =
      let (plain, h₁) = append-nil_inv _ _ h in
      let (alone, h₂) = append-nil_inv _ _ h₁ in
      let (safe, h₃) = append-nil_inv _ _ h₂ in
      let (valid, h₄) = append-nil_inv _ _ h₃ in
      let (untaken, free) = append-nil_inv _ _ h₄ in
      let (asked, anonymous) = is_passed-false sur old p in
      (
        record {
          mount = m;
          is_mounted = i;
          is_named = n;
          has_target = refl;
          keeps_mode = refl;
          has_name = refl;
          has_labels = refl;
          is_anonymous = anonymous;
          is_asked = asked;
          is_local = map-nil_inv not_plain _ plain;
          is_alone = is_nil-inv _ (problem_if-none _ _ alone);
          has_safe_path = not-false_inv _ (problem_if-none _ _ safe);
          is_valid = name_problems-none old _ valid;
          is_free = free_or_taken sur (conversion sur name old m) refl (problem_if-none _ _ free);
        },
        problem_if-none _ _ untaken,
      )

  -- What holds in the loop, as long as there is no blocker.
  record IsSafe (c : Conversions) : Type 0 where
    pub convertible : All (Convertible sur name mounts) c.out
    pub distinct : AreDistinct (map new_key c.out)
    pub noted : All (λ cv. contains_key c.taken (new_key cv) ≡ true) c.out

  new_keys-ne :
      (key : Text) (taken : Set Text) (cvs : List Conversion)
      → contains_key taken key ≡ false
      → All (λ cv. contains_key taken (new_key cv) ≡ true) cvs
      → All (λ x. x ≢ key) (map new_key cvs)
  new_keys-ne key taken [] h a = tt
  new_keys-ne key taken (cv ∷ cvs) h a = (
    λ same. absurd (cc (sym (subst (λ k. contains_key taken k ≡ true) same a.0) ∙ h)),
    new_keys-ne key taken cvs h a.1,
  )

  noted-add :
      (key : Text) (taken : Set Text) (cvs : List Conversion)
      → All (λ cv. contains_key taken (new_key cv) ≡ true) cvs
      → All (λ cv. contains_key (add key taken) (new_key cv) ≡ true) cvs
  unfolding add
  noted-add key taken [] a = tt
  noted-add key taken (cv ∷ cvs) a =
      (contains_key-insert key tt taken (new_key cv) a.0, noted-add key taken cvs a.1)

  map-append_one :
      (cvs : List Conversion) (cv : Conversion)
      → map new_key (cvs ++ cv ∷ []) ≡ map new_key cvs ++ new_key cv ∷ []
  map-append_one [] cv = refl
  map-append_one (x ∷ cvs) cv = ap (◌∷◌ (new_key x)) (map-append_one cvs cv)

  convert-IsSafe :
      (c : Conversions) (old : Text) (m : MountPoint)
      → Has (λ x. x ≡ m) mounts
      → m.name ≡ some old
      → is_passed sur old ≡ false
      → conversion_problems sur name c.taken old m ≡ []
      → IsSafe c
      → IsSafe (convert sur name c old m)
  unfolding convert conversion add
  convert-IsSafe c old m q n p h i =
      let cv = conversion sur name old m in
      let (good, fresh) = conversion-Convertible c.taken old m q n p h in
      record {
        convertible = All-snoc (Convertible sur name mounts) c.out cv i.convertible good;
        distinct = subst AreDistinct (sym (map-append_one c.out cv)) (
            AreDistinct-snoc (map new_key c.out) (new_key cv) i.distinct
              (new_keys-ne (new_key cv) c.taken c.out fresh i.noted));
        noted =
            All-snoc (λ x. contains_key (add (new_key cv) c.taken) (new_key x) ≡ true) c.out cv
              (noted-add (new_key cv) c.taken c.out i.noted)
              (contains_key-insert_self (new_key cv) tt c.taken);
      }

  -- While the loop goes on, blockers are only added.
  abbrev SafeUnlessBlocked : Conversions → Type 0
  SafeUnlessBlocked c = c.blockers ≡ [] → IsSafe c

  convert-SafeUnlessBlocked :
      (c : Conversions) (old : Text) (m : MountPoint)
      → Has (λ x. x ≡ m) mounts
      → m.name ≡ some old
      → is_passed sur old ≡ false
      → SafeUnlessBlocked c
      → SafeUnlessBlocked (convert sur name c old m)
  unfolding convert
  convert-SafeUnlessBlocked c old m q n p i h =
      let (before, now) =
        append-nil_inv c.blockers (conversion_problems sur name c.taken old m) h in
      convert-IsSafe c old m q n p now (i before)

  convert_mount-SafeUnlessBlocked :
      (c : Conversions) (m : MountPoint)
      → Has (λ x. x ≡ m) mounts
      → SafeUnlessBlocked c
      → SafeUnlessBlocked (convert_mount sur name c m)
  unfolding convert_mount
  convert_mount-SafeUnlessBlocked c m q i = elim (Option-cases m.name) [
    | inl e ↦ rw (e, convert_mount) i
    | inr (old, e) ↦ elim (Bool-cases (is_passed sur old)) [
      | inl p ↦ rw (e, p, convert_mount) i
      | inr p ↦ rw (e, p, convert_mount) (convert-SafeUnlessBlocked c old m q e p i)
    ]
  ]

  convert_all-SafeUnlessBlocked :
      (c : Conversions) (ms : List MountPoint)
      → All (λ m. Has (λ x. x ≡ m) mounts) ms
      → SafeUnlessBlocked c
      → SafeUnlessBlocked (convert_all sur name c ms)
  unfolding convert_all
  convert_all-SafeUnlessBlocked c [] q i = i
  convert_all-SafeUnlessBlocked c (m ∷ ms) q i =
      convert_all-SafeUnlessBlocked (convert_mount sur name c m) ms q.1
        (convert_mount-SafeUnlessBlocked c m q.0 i)

-- If the plan has no blocker, each of its conversions is of a mount of the container that may be
-- converted, to a volume that is free or may be reused, and no two get the same name.
pub plan_conversions-Convertible :
    (c : ContainerInspect) (sur : Surroundings)
    → (plan_conversions c sur).1 ≡ []
    → All (Convertible sur (short_name c) (volumes c)) (plan_conversions c sur).0
      × AreDistinct (map new_key (plan_conversions c sur).0)
unfolding plan_conversions
plan_conversions-Convertible c sur h =
    let safe =
      convert_all-SafeUnlessBlocked sur (short_name c) (volumes c) no_conversions (volumes c)
        (each_in (volumes c) [] (volumes c) refl)
        (λ _. record { convertible = tt; distinct = tt; noted = tt }) h in
    (safe.convertible, safe.distinct)
