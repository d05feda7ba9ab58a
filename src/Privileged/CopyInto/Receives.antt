-- ===== src/Privileged/CopyInto/Receives.antt =====
-- When a volume may receive the data of an anonymous one.

use unraid.Spec.Diff.Gate.{words_eq_iff}
use unraid.Spec.Diff.{words_eq}
use unraid.Inspect.{volumes}
use unraid.Ownership.{labels_eq, labels_eq_iff, volume_labels}
use unraid.Privileged.Found.{all_map, find_map-found}
use unraid.Privileged.CopyInto.{problem_at, label_problem, copy_into_problem, destination_of}
use unraid.Inspect.{
  labels_of, short_name, is_anonymous, is_named, VolumeInspect, MountPoint, ContainerInspect,
}
use unraid.Text.{text_eq_iff, Text}
use unraid.Base.{
  ◌∙◌, ap, All, refl, ◌++◌, Bool-cases, Option-cases, if◌then◌else◌, ◌↔◌, ◌≡◌, List, true, [], ◌∷◌,
  inl, inr,
}
use unraid.Order.{list_ord, nat_ord}
use unraid.Base.{none, some}

-- The container's first mount of a volume, and where it mounts it.
pub record MountsAt (c : ContainerInspect) (volume destination : Text) : Type 0 where
  pub before : List MountPoint
  pub mount : MountPoint
  pub after : List MountPoint
  pub splits : volumes c ≡ before ++ mount ∷ after
  pub is_first : All (λ m. ¬ (m.name ≡ some volume)) before
  pub named : mount.name ≡ some volume
  pub at : mount.destination ≡ destination

-- The source is an anonymous volume that only the container uses, and the target carries the labels
-- of the container at the path where the container mounts the source.
pub record MayReceive (c : ContainerInspect) (from : VolumeInspect) (users : List Text)
    (to : VolumeInspect) : Type 0 where
  pub anonymous : is_anonymous from ≡ true
  pub only_user : users ≡ short_name c ∷ []
  pub destination : Text
  pub mounted : MountsAt c from.name destination
  pub labeled : labels_of to ≡ volume_labels (short_name c) destination

is_named_iff :
    (volume : Text) (m : MountPoint) → (is_named volume m ≡ true) ↔ (m.name ≡ some volume)
is_named_iff volume m = elim (Option-cases m.name) [
  | inl e ↦ (λ h. absurd (cc (rw e at h)), λ h. absurd (cc (e, h)))
  | inr (n, e) ↦ (
    (λ h. e ∙ ap some ((text_eq_iff n volume).0 (rw e at h))),
    (λ h. let same : n ≡ volume = cc (e, h) in rw e ((text_eq_iff n volume).1 same)),
  )
]

mounts_elsewhere :
    (volume : Text) (m : MountPoint)
    → ((if is_named volume m then some m.destination else none) ≡ none) ↔ ¬ (m.name ≡ some volume)
mounts_elsewhere volume m = elim (Bool-cases (is_named volume m)) [
  | inl e ↦ (λ h. absurd (cc (rw e at h)), λ h. absurd (h ((is_named_iff volume m).0 e)))
  | inr e ↦ (λ _ n. cc ((is_named_iff volume m).1 n, e), λ _. rw e refl)
]

mounts_here :
    (volume destination : Text) (m : MountPoint)
    → ((if is_named volume m then some m.destination else none) ≡ some destination)
      ↔ ((m.name ≡ some volume) × (m.destination ≡ destination))
mounts_here volume destination m = elim (Bool-cases (is_named volume m)) [
  | inl e ↦ (
    (λ h. (
      (is_named_iff volume m).0 e,
      let same : some m.destination ≡ some destination = rw e at h in cc same,
    )),
    (λ r. rw e (ap some r.1)),
  )
  | inr e ↦ ((λ h. absurd (cc (rw e at h))), (λ r. absurd (cc ((is_named_iff volume m).1 r.0, e))))
]

destination_of-MountsAt :
    (c : ContainerInspect) (volume destination : Text)
    → (destination_of c volume ≡ some destination) ↔ MountsAt c volume destination
unfolding destination_of
destination_of-MountsAt c volume destination =
    let answer = λ (m : MountPoint). if is_named volume m then some m.destination else none in
    let found = find_map-found answer (volumes c) destination in
    (
      (λ h.
          let r = found.0 h in
          let here = (mounts_here volume destination r.found).0 r.answers in
          record {
            before = r.before;
            mount = r.found;
            after = r.after;
            splits = r.splits;
            is_first = all_map r.before (λ m. (mounts_elsewhere volume m).0) r.passes;
            named = here.0;
            at = here.1;
          }),
      (λ r. found.1 record {
        before = r.before;
        found = r.mount;
        after = r.after;
        splits = r.splits;
        passes = all_map r.before (λ m. (mounts_elsewhere volume m).1) r.is_first;
        answers = (mounts_here volume destination r.mount).1 (r.named, r.at);
      }),
    )

label_problem-none :
    (name destination : Text) (to : VolumeInspect)
    → (label_problem name to destination ≡ none) ↔ (labels_of to ≡ volume_labels name destination)
unfolding label_problem
label_problem-none name destination to =
    let same = labels_eq_iff (labels_of to) (volume_labels name destination) in
    elim (Bool-cases (labels_eq (labels_of to) (volume_labels name destination))) [
      | inl e ↦ (λ _. same.0 e, λ _. rw e refl)
      | inr e ↦ (λ h. absurd (cc (rw e at h)), λ h. absurd (cc (same.1 h, e)))
    ]

module _ (c : ContainerInspect) (from : VolumeInspect) (users : List Text)
    (to : VolumeInspect) where
  received :
      is_anonymous from ≡ true
      → words_eq users (short_name c ∷ []) ≡ true
      → problem_at (short_name c) from.name to (destination_of c from.name) ≡ none
      → MayReceive c from users to
  received a w h = elim (Option-cases (destination_of c from.name)) [
    | inl e ↦ absurd (cc (rw e at h))
    | inr (destination, e) ↦ record {
      anonymous = a;
      only_user = (words_eq_iff users (short_name c ∷ [])).0 w;
      destination = destination;
      mounted = (destination_of-MountsAt c from.name destination).0 e;
      labeled = (label_problem-none (short_name c) destination to).0 (rw e at h);
    }
  ]

  allowed : MayReceive c from users to → copy_into_problem c from users to ≡ none
  unfolding copy_into_problem
  allowed r = rw r.anonymous (
      rw ((words_eq_iff users (short_name c ∷ [])).1 r.only_user) (
        rw ((destination_of-MountsAt c from.name r.destination).1 r.mounted)
          ((label_problem-none (short_name c) r.destination to).1 r.labeled)))

  -- A volume may receive another's data exactly if the other is an anonymous volume that only the
  -- container uses, and it carries the container's labels at the path of the container's first mount
  -- of the other.
  pub copy_into_problem-MayReceive :
      (copy_into_problem c from users to ≡ none) ↔ MayReceive c from users to
  unfolding copy_into_problem
  copy_into_problem-MayReceive = elim (Bool-cases (is_anonymous from)) [
    | inr a ↦ (λ h. absurd (cc (rw a at h)), λ r. absurd (cc (a, r.anonymous)))
    | inl a ↦ elim (Bool-cases (words_eq users (short_name c ∷ []))) [
      | inr w ↦ (
        (λ h. absurd (cc (rw w at (rw a at h)))),
        (λ r. absurd (cc ((words_eq_iff users (short_name c ∷ [])).1 r.only_user, w))),
      )
      | inl w ↦ (λ h. received a w (rw w at (rw a at h)), λ r. allowed r)
    ]
  ]
