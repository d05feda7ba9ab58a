-- ===== src/Spec/Diff/Entries.antt =====
-- When the differences of maps and sets are all intended: when there are none.
use unraid.Map.Extent.{All-contains_key, All-get, All-held, map_eq}
use unraid.Map.{contains_key, get, IsSorted, Map, Set}
use unraid.Text.{Text, text_eq_iff, text_eq_refl}
use unraid.Base.{
  ◌++◌, List, refl, inr, inl, Option-cases, some, arith, [], ◌∷◌, true, ◌≡◌, ◌↔◌, All,
}
use unraid.Order.{Ord, nat_ord, list_ord}
use unraid.Spec.Diff.{
  extra_entries, missing_entries, Delta, diff_map, diff_set, difference, Message, Shown,
}

-- No difference blocks.
abbrev pub AllIntended : List Delta → Type 0
AllIntended ds = All (λ d. d.intended ≡ true) ds

pub AllIntended-append :
    (xs ys : List Delta) → AllIntended (xs ++ ys) ↔ (AllIntended xs × AllIntended ys)
AllIntended-append [] ys = (λ h. (tt, h), λ h. h.1)
AllIntended-append (x ∷ xs) ys =
    let (to, from) = AllIntended-append xs ys in
    (λ h. ((h.0, (to h.1).0), (to h.1).1), λ h. (h.0.0, from (h.0.1, h.1)))

module _ (what : Text) (show : Text → Text → Text) where
  -- Every entry of the first map is in the second.
  missing_entries_sound :
      (want got : Map Text Text)
      → AllIntended (missing_entries what show want got)
      → All (λ e. get got e.0 ≡ some e.1) want
  unfolding missing_entries
  missing_entries_sound [] got h = tt
  missing_entries_sound ((k, v) ∷ want) got h = elim (Option-cases (get got k)) [
    | inl absent ↦ absurd (ground (arith, absent))
    | inr (g, found) ↦ ground (arith, found, text_eq_iff g v, missing_entries_sound want got)
  ]

  missing_entries-nil :
      (want got : Map Text Text)
      → All (λ e. get got e.0 ≡ some e.1) want
      → missing_entries what show want got ≡ []
  unfolding missing_entries
  missing_entries-nil [] got h = refl
  missing_entries-nil ((k, v) ∷ want) got h =
      rw h.0 (ground (arith, text_eq_refl v, missing_entries-nil want got h.1))

  extra_entries_sound :
      (got want : Map Text Text)
      → AllIntended (extra_entries what show got want)
      → All (λ e. contains_key want e.0 ≡ true) got
  unfolding extra_entries
  extra_entries_sound [] want h = tt
  extra_entries_sound ((k, g) ∷ got) want h = ground (arith, extra_entries_sound got want)

  extra_entries-nil :
      (got want : Map Text Text)
      → All (λ e. contains_key want e.0 ≡ true) got
      → extra_entries what show got want ≡ []
  unfolding extra_entries
  extra_entries-nil [] want h = refl
  extra_entries-nil ((k, g) ∷ got) want h = rw h.0 (extra_entries-nil got want h.1)

  pub diff_map_iff :
      (want got : Map Text Text)
      → IsSorted want
      → IsSorted got
      → AllIntended (diff_map what show want got) ↔ (want ≡ got)
  unfolding diff_map
  diff_map_iff want got s t = (
    λ h.
        let (a, b) =
          (AllIntended-append (missing_entries what show want got)
              (extra_entries what show got want)).0
            h in
        map_eq want got s t (missing_entries_sound want got a) (extra_entries_sound got want b),
    λ e.
        let held : All (λ x. get got x.0 ≡ some x.1) want = rw e (All-get got t) in
        let back : All (λ x. get want x.0 ≡ some x.1) got = rw (← e) (All-get want s) in
        rw
          (
            missing_entries-nil want got held,
            extra_entries-nil got want (All-contains_key got want back),
          )
          tt,
  )

module _ {K : Type 0} ⦃o : Ord K⦄ where
  difference_sound :
      (say : K → Message) (m n : Set K)
      → AllIntended (difference say m n)
      → All (λ e. contains_key n e.0 ≡ true) m
  unfolding difference
  difference_sound say [] n h = tt
  difference_sound say ((k, u) ∷ m) n h = ground (arith, difference_sound say m n)

  difference-nil :
      (say : K → Message) (m n : Set K)
      → All (λ e. contains_key n e.0 ≡ true) m
      → difference say m n ≡ []
  unfolding difference
  difference-nil say [] n h = refl
  difference-nil say ((k, u) ∷ m) n h = rw h.0 (difference-nil say m n h.1)

  pub diff_set_iff :
      (what : Text) (show : K → Shown) (want got : Set K)
      → IsSorted want
      → IsSorted got
      → AllIntended (diff_set what show want got) ↔ (want ≡ got)
  unfolding diff_set
  diff_set_iff what show want got s t = (
    λ h.
        let (a, b) =
          (AllIntended-append (difference (λ k. Message.item_missing what (show k)) want got) _).0
            h in
        map_eq want got s t (All-held want got (difference_sound _ want got a))
          (difference_sound _ got want b),
    λ e.
        let held : All (λ x. get got x.0 ≡ some x.1) want = rw e (All-get got t) in
        let back : All (λ x. get want x.0 ≡ some x.1) got = rw (← e) (All-get want s) in
        rw
          (
            difference-nil _ want got (All-contains_key want got held),
            difference-nil _ got want (All-contains_key got want back),
          )
          tt,
  )
