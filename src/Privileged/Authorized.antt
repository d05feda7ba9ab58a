-- ===== src/Privileged/Authorized.antt =====
-- The callers that `authorize` lets through, by the lines of passwd and of group.
use unraid.Base.{Has, Has-map}
use unraid.Adopt.{PrivilegedOp}
use unraid.Base.{◌==◌, ok}
use unraid.Base.{any, ◌||◌}
use unraid.Base.{Option-cases, Bool-cases, [], inl, inr}
use unraid.Privileged.Found.{find_map-found, all_map, First, any-holds}
use unraid.Text.Numbers.{parse_unsigned}
use unraid.Text.{text_eq_refl, text_eq, text_eq_iff, trim, split, lines, Text}
use unraid.Privileged.{
  root, policy, root_or_docker_group, find_map, is_allowed, CallerPolicy, is_let_in, authorize,
  may_start_containers, lets_in, account_of, docker_group, same_group, is_number,
}
use unraid.Base.{refl, sym, ◌∙◌, All, ◌⊎◌, ap, ◌++◌, arith, ◌↔◌, ◌≡◌, List, Option, ℕ, true, ◌∷◌}
use unraid.Order.{list_ord, nat_ord}
use unraid.Base.{none, some}

-- A line of passwd that is an entry of `uid`: the name of the user and the primary group, which is
-- unknown if it is not a number.
pub record PasswdEntry (uid : ℕ) (line user : Text) (gid : Option ℕ) : Type 0 where
  pub password : Text
  pub id : Text
  pub primary : Text
  pub later : List Text
  pub fields : split b':' line ≡ user ∷ password ∷ id ∷ primary ∷ later
  pub is_uid : parse_unsigned 32 id ≡ some uid
  pub is_gid : parse_unsigned 32 primary ≡ gid

-- A line of group that is the entry of the docker group and has the user in it: its number is that
-- of the user's primary group, or the user is among its members.
pub record DockerEntry (user : Text) (gid : Option ℕ) (line : Text) : Type 0 where
  pub password : Text
  pub id : Text
  pub members : Text
  pub later : List Text
  pub fields : split b':' line ≡ docker_group ∷ password ∷ id ∷ members ∷ later
  pub enters :
      ((n : ℕ) × (gid ≡ some n) × (parse_unsigned 32 id ≡ some n))
      ⊎ Has (λ m. trim m ≡ user) (split b',' members)

-- The caller's first entry in passwd, and an entry in group that has the user in it.
pub record DockerMember (uid : ℕ) (passwd group : Text) : Type 0 where
  pub user : Text
  pub gid : Option ℕ
  pub before : List Text
  pub entry : Text
  pub after : List Text
  pub splits : lines passwd ≡ before ++ entry ∷ after
  pub is_first : All (λ l. ¬ ((u : Text) × (g : Option ℕ) × PasswdEntry uid l u g)) before
  pub account : PasswdEntry uid entry user gid
  pub group_entry : Has (DockerEntry user gid) (lines group)

is_number_iff : (o : Option ℕ) (n : ℕ) → (is_number o n ≡ true) ↔ (o ≡ some n)
unfolding is_number
is_number_iff none n = ground arith
is_number_iff (some m) n = ground arith

same_group_iff :
    (a b : Option ℕ) → (same_group a b ≡ true) ↔ ((n : ℕ) × (a ≡ some n) × (b ≡ some n))
unfolding same_group
same_group_iff none b = (λ h. cc h, λ s. cc s.1)
same_group_iff (some a) none = (λ h. cc h, λ s. cc s.2)
same_group_iff (some a) (some b) = (
  (λ h. (a, refl, let e : b ≡ a = ground arith in ap some e)),
  (λ s. let e : some a ≡ some b = s.1 ∙ sym s.2 in ground arith),
)

of_fields :
    (uid : ℕ) (line user : Text) (gid : Option ℕ) (fs : List Text)
    → split b':' line ≡ fs
    → account_of uid fs ≡ some (user, gid)
    → PasswdEntry uid line user gid
unfolding account_of
of_fields uid line user gid [] e h = cc h
of_fields uid line user gid (_ ∷ []) e h = cc h
of_fields uid line user gid (_ ∷ _ ∷ []) e h = cc h
of_fields uid line user gid (_ ∷ _ ∷ _ ∷ []) e h = cc h
of_fields uid line user gid (u ∷ password ∷ id ∷ primary ∷ later) e h =
    elim (Bool-cases (is_number (parse_unsigned 32 id) uid)) [
      | inl t ↦
          let same : some (u, parse_unsigned 32 primary) ≡ some (user, gid) = rw t at h in
          let name : u ≡ user = cc same in
          let number : parse_unsigned 32 primary ≡ gid = cc same in
          record {
            password = password;
            id = id;
            primary = primary;
            later = later;
            fields = e ∙ ap (λ n. n ∷ password ∷ id ∷ primary ∷ later) name;
            is_uid = (is_number_iff (parse_unsigned 32 id) uid).0 t;
            is_gid = number;
          }
      | inr t ↦ let same : none ≡ some (user, gid) = rw t at h in absurd (cc same)
    ]

account_of-PasswdEntry :
    (uid : ℕ) (line user : Text) (gid : Option ℕ)
    → (account_of uid (split b':' line) ≡ some (user, gid)) ↔ PasswdEntry uid line user gid
unfolding account_of
account_of-PasswdEntry uid line user gid = (
  of_fields uid line user gid (split b':' line) refl,
  (λ r.
      rw r.fields
        (rw ((is_number_iff (parse_unsigned 32 r.id) uid).1 r.is_uid) (rw r.is_gid refl))),
)

no_account :
    (uid : ℕ) (line : Text)
    → (account_of uid (split b':' line) ≡ none)
      ↔ ¬ ((u : Text) × (g : Option ℕ) × PasswdEntry uid line u g)
no_account uid line = (
  (λ h r. absurd (cc (h, (account_of-PasswdEntry uid line r.0 r.1).1 r.2))),
  (λ h. elim (Option-cases (account_of uid (split b':' line))) [
    | inl e ↦ e
    | inr ((u, g), e) ↦ absurd (h (u, g, (account_of-PasswdEntry uid line u g).0 e))
  ]),
)

are_members :
    (user : Text) (ms : List Text)
    → (any (λ m. text_eq (trim m) user) ms ≡ true) ↔ Has (λ m. trim m ≡ user) ms
are_members user ms = (
  (λ h.
      Has-map (λ m. (text_eq_iff (trim m) user).0)
        ((any-holds (λ m. text_eq (trim m) user) ms).0 h)),
  (λ r.
      (any-holds (λ m. text_eq (trim m) user) ms).1
        (Has-map (λ m. (text_eq_iff (trim m) user).1) r)),
)

enters_iff :
    (user : Text) (gid : Option ℕ) (id members : Text)
    → ((same_group gid (parse_unsigned 32 id)
          || any (λ m. text_eq (trim m) user) (split b',' members))
        ≡ true)
      ↔ (((n : ℕ) × (gid ≡ some n) × (parse_unsigned 32 id ≡ some n))
          ⊎ Has (λ m. trim m ≡ user) (split b',' members))
enters_iff user gid id members =
    let same = same_group_iff gid (parse_unsigned 32 id) in
    let listed = are_members user (split b',' members) in
    elim (Bool-cases (same_group gid (parse_unsigned 32 id))) [
      | inl e ↦ (λ _. inl (same.0 e), λ _. rw e refl)
      | inr e ↦ (
        (λ h. inr (listed.0 (rw e at h))),
        (λ r. rw e (elim r [ inl s ↦ absurd (cc (same.1 s, e)) | inr s ↦ listed.1 s ])),
      )
    ]

lets_in_fields :
    (user : Text) (gid : Option ℕ) (line : Text) (fs : List Text)
    → split b':' line ≡ fs
    → lets_in (user, gid) fs ≡ true
    → DockerEntry user gid line
unfolding lets_in
lets_in_fields user gid line [] e h = cc h
lets_in_fields user gid line (_ ∷ []) e h = cc h
lets_in_fields user gid line (_ ∷ _ ∷ []) e h = cc h
lets_in_fields user gid line (_ ∷ _ ∷ _ ∷ []) e h = cc h
lets_in_fields user gid line (name ∷ password ∷ id ∷ members ∷ later) e h = record {
  password = password;
  id = id;
  members = members;
  later = later;
  fields =
      e
      ∙ ap (λ n. n ∷ password ∷ id ∷ members ∷ later)
          ((text_eq_iff name docker_group).0 (ground arith));
  enters = (enters_iff user gid id members).0 (ground arith);
}

lets_in-DockerEntry :
    (user : Text) (gid : Option ℕ) (line : Text)
    → (lets_in (user, gid) (split b':' line) ≡ true) ↔ DockerEntry user gid line
unfolding lets_in
lets_in-DockerEntry user gid line = (
  lets_in_fields user gid line (split b':' line) refl,
  (λ r.
      rw r.fields
        (rw (text_eq_refl docker_group) ((enters_iff user gid r.id r.members).1 r.enters))),
)

lets_one_in :
    (user : Text) (gid : Option ℕ) (group : List Text)
    → (any (λ l. lets_in (user, gid) (split b':' l)) group ≡ true)
      ↔ Has (DockerEntry user gid) group
lets_one_in user gid group = (
  (λ h.
      Has-map (λ l. (lets_in-DockerEntry user gid l).0)
        ((any-holds (λ l. lets_in (user, gid) (split b':' l)) group).0 h)),
  (λ r.
      (any-holds (λ l. lets_in (user, gid) (split b':' l)) group).1
        (Has-map (λ l. (lets_in-DockerEntry user gid l).1) r)),
)

module _ (uid : ℕ) (passwd group : Text) where
  member_of_account :
      (user : Text) (gid : Option ℕ)
      → First (λ l. account_of uid (split b':' l)) (lines passwd) (user, gid)
      → Has (DockerEntry user gid) (lines group)
      → DockerMember uid passwd group
  member_of_account user gid r entered = record {
    user = user;
    gid = gid;
    before = r.before;
    entry = r.found;
    after = r.after;
    splits = r.splits;
    is_first = all_map r.before (λ l. (no_account uid l).0) r.passes;
    account = (account_of-PasswdEntry uid r.found user gid).0 r.answers;
    group_entry = entered;
  }

  account_of_member :
      (m : DockerMember uid passwd group)
      → First (λ l. account_of uid (split b':' l)) (lines passwd) (m.user, m.gid)
  account_of_member m = record {
    before = m.before;
    found = m.entry;
    after = m.after;
    splits = m.splits;
    passes = all_map m.before (λ l. (no_account uid l).1) m.is_first;
    answers = (account_of-PasswdEntry uid m.entry m.user m.gid).1 m.account;
  }

  account_let_in :
      (is_let_in (find_map (λ l. account_of uid (split b':' l)) (lines passwd)) (lines group)
        ≡ true)
      ↔ DockerMember uid passwd group
  account_let_in = (
    (λ h. elim (Option-cases (find_map (λ l. account_of uid (split b':' l)) (lines passwd))) [
      | inl e ↦ absurd (cc (rw e at h))
      | inr ((user, gid), e) ↦
          member_of_account user gid
            ((find_map-found (λ l. account_of uid (split b':' l)) (lines passwd) (user, gid)).0 e)
            ((lets_one_in user gid (lines group)).0 (rw e at h))
    ]),
    (λ m.
        rw
          ((find_map-found (λ l. account_of uid (split b':' l)) (lines passwd) (m.user, m.gid)).1
            (account_of_member m))
          ((lets_one_in m.user m.gid (lines group)).1 m.group_entry)),
  )

  may_start_containers-Member :
      (may_start_containers uid passwd group ≡ true) ↔ ((uid ≡ 0) ⊎ DockerMember uid passwd group)
  unfolding may_start_containers
  may_start_containers-Member = elim (Bool-cases (uid == 0)) [
    | inl e ↦ (λ _. inl (ground arith), λ _. rw e refl)
    | inr e ↦ (
      (λ h. inr (account_let_in.0 (rw e at h))),
      (λ r. rw e (elim r [ inl z ↦ absurd (ground arith) | inr m ↦ account_let_in.1 m ])),
    )
  ]

  is_allowed-Member :
      (p : CallerPolicy)
      → (is_allowed p uid passwd group ≡ true)
        ↔ ((uid ≡ 0) ⊎ ((p ≡ root_or_docker_group) × DockerMember uid passwd group))
  is_allowed-Member root =
      ((λ h. inl (ground arith)), (λ r. elim r [ inl z ↦ ground arith | inr m ↦ absurd (cc m.0) ]))
  is_allowed-Member root_or_docker_group = (
    (λ h. elim (may_start_containers-Member.0 h) [ inl z ↦ inl z | inr m ↦ inr (refl, m) ]),
    (λ r. may_start_containers-Member.1 (elim r [ inl z ↦ inl z | inr m ↦ inr m.1 ])),
  )

  -- An operation is let through exactly if its caller is root, or if the operation is open to the
  -- docker group and the caller is in it: the caller's first entry in passwd names a user that an
  -- entry of the docker group lists, or a primary group that is that entry's.
  pub authorize-Allowed :
      (op : PrivilegedOp)
      → (authorize op uid passwd group ≡ ok tt)
        ↔ ((uid ≡ 0) ⊎ ((policy op ≡ root_or_docker_group) × DockerMember uid passwd group))
  unfolding authorize
  authorize-Allowed op = elim (Bool-cases (is_allowed (policy op) uid passwd group)) [
    | inl e ↦ (λ _. (is_allowed-Member (policy op)).0 e, λ _. rw e refl)
    | inr e ↦ (
      (λ h. absurd (cc (rw e at h))),
      (λ r. absurd (cc ((is_allowed-Member (policy op)).1 r, e))),
    )
  ]
