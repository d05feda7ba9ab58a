-- ===== src/Spec/Diff/Gate.antt =====
-- What the fidelity gate lets through: exactly the specs that agree.
use unraid.Text.{text_eq_iff, text_eq, Text}
use unraid.Base.{
  some, none, ◌++◌, refl, false, ◌∷◌, arith, true, [], ◌↔◌, ℕ, bool_eq, ◌≡◌, option_eq, List,
  Option, Bool,
}
use unraid.Spec.Diff.Entries.{AllIntended, AllIntended-append, diff_map_iff, diff_set_iff}
use unraid.Spec.Agrees.{IsOrdered, HostnameAgrees, RestartAgrees, PidsLimitAgrees, Agrees}
use unraid.Spec.{RunSpec, mount_ord}
use unraid.Order.{nat_ord, list_ord}
use unraid.Spec.Diff.{
  diff, diff_value, diff_hostname, diff_restart, words_eq, diff_pids_limit, unmodelled, Delta,
  Shown, DiffMode, Masks, adopt, set_icon,
}

bool_eq_iff : (a b : Bool) → (bool_eq a b ≡ true) ↔ (a ≡ b)
bool_eq_iff a b = ground arith

option_text_iff : (a b : Option Text) → (option_eq text_eq a b ≡ true) ↔ (a ≡ b)
option_text_iff none none = ground arith
option_text_iff none (some b) = ground arith
option_text_iff (some a) none = ground arith
option_text_iff (some a) (some b) = ground (arith, text_eq_iff a b)

pub words_eq_iff : (s t : List Text) → (words_eq s t ≡ true) ↔ (s ≡ t)
unfolding words_eq
words_eq_iff [] [] = ground arith
words_eq_iff [] (b ∷ t) = ground arith
words_eq_iff (a ∷ s) [] = ground arith
words_eq_iff (a ∷ s) (b ∷ t) = ground (arith, text_eq_iff a b, words_eq_iff s t)

diff_value_iff :
    {P : Type 0} (what : Text) (same : Bool) (a b : Shown)
    → (same ≡ true) ↔ P
    → AllIntended (diff_value what same a b) ↔ P
diff_value_iff what true a b e = (λ h. e.0 refl, λ p. tt)
diff_value_iff what false a b e = (λ h. cc h.0, λ p. cc (e.1 p))

diff_hostname_iff :
    (a b : Option Text) (a_default b_default : Bool)
    → AllIntended (diff_hostname a a_default b b_default) ↔ HostnameAgrees a a_default b b_default
unfolding diff_hostname
diff_hostname_iff none none ad bd = ground arith
diff_hostname_iff none (some b) ad bd = ground arith
diff_hostname_iff (some a) none ad bd = ground arith
diff_hostname_iff (some a) (some b) ad bd = ground (arith, text_eq_iff a b)

diff_restart_iff :
    (a b : Option Text) (mode : DiffMode)
    → AllIntended (diff_restart a b mode) ↔ RestartAgrees a b mode
unfolding diff_restart
diff_restart_iff none none mode = ground arith
diff_restart_iff none (some b) mode = ground arith
diff_restart_iff (some a) none adopt = ground arith
diff_restart_iff (some a) none set_icon = ground arith
diff_restart_iff (some a) (some b) mode = ground (arith, text_eq_iff a b)

diff_pids_limit_iff : (a b : Option ℕ) → AllIntended (diff_pids_limit a b) ↔ PidsLimitAgrees a b
unfolding diff_pids_limit
diff_pids_limit_iff none none = ground arith
diff_pids_limit_iff none (some b) = ground arith
diff_pids_limit_iff (some a) none = ground arith
diff_pids_limit_iff (some a) (some b) = ground arith

unmodelled_iff : (os : List Text) → AllIntended (unmodelled os) ↔ (os ≡ [])
unfolding unmodelled
unmodelled_iff [] = ground arith
unmodelled_iff (o ∷ os) = ground arith

-- The differences of two parts, one after the other.
both :
    {P Q : Type 0} (xs ys : List Delta)
    → AllIntended xs ↔ P
    → AllIntended ys ↔ Q
    → AllIntended (xs ++ ys) ↔ (P × Q)
both xs ys p q =
    let (to, from) = AllIntended-append xs ys in
    (λ h. (p.0 (to h).0, q.0 (to h).1), λ h. from (p.1 h.0, q.1 h.1))

-- The fields of `Agrees`, one after the other.
abbrev Parts : RunSpec → RunSpec → DiffMode → Type 0
Parts want got mode =
    (want.name ≡ got.name)
    × ((want.image ≡ got.image)
        × ((want.network ≡ got.network)
            × ((want.privileged ≡ got.privileged)
                × (HostnameAgrees want.hostname want.hostname_is_default got.hostname
                      got.hostname_is_default
                    × ((want.ports ≡ got.ports)
                        × ((want.env ≡ got.env)
                            × ((want.tz ≡ got.tz)
                                × ((want.mounts ≡ got.mounts)
                                    × ((want.tmpfs ≡ got.tmpfs)
                                        × ((want.log_driver ≡ got.log_driver)
                                            × ((want.log_opts ≡ got.log_opts)
                                                × ((want.gpus ≡ got.gpus)
                                                    × (RestartAgrees want.restart got.restart mode
                                                        × (PidsLimitAgrees want.pids_limit
                                                            got.pids_limit
                                                            × ((want.labels ≡ got.labels)
                                                            × ((want.cmd ≡ got.cmd)
                                                            × ((got.other ≡ []))))))))))))))))))

Parts-iff : (want got : RunSpec) (mode : DiffMode) → Parts want got mode ↔ Agrees want got mode
Parts-iff want got mode = (
  λ h. record {
    name = h.0;
    image = h.1.0;
    network = h.1.1.0;
    privileged = h.1.1.1.0;
    hostname = h.1.1.1.1.0;
    ports = h.1.1.1.1.1.0;
    env = h.1.1.1.1.1.1.0;
    tz = h.1.1.1.1.1.1.1.0;
    mounts = h.1.1.1.1.1.1.1.1.0;
    tmpfs = h.1.1.1.1.1.1.1.1.1.0;
    log_driver = h.1.1.1.1.1.1.1.1.1.1.0;
    log_opts = h.1.1.1.1.1.1.1.1.1.1.1.0;
    gpus = h.1.1.1.1.1.1.1.1.1.1.1.1.0;
    restart = h.1.1.1.1.1.1.1.1.1.1.1.1.1.0;
    pids_limit = h.1.1.1.1.1.1.1.1.1.1.1.1.1.1.0;
    labels = h.1.1.1.1.1.1.1.1.1.1.1.1.1.1.1.0;
    cmd = h.1.1.1.1.1.1.1.1.1.1.1.1.1.1.1.1.0;
    other = h.1.1.1.1.1.1.1.1.1.1.1.1.1.1.1.1.1;
  },
  λ a. (
    a.name,
    (
      a.image,
      (
        a.network,
        (
          a.privileged,
          (
            a.hostname,
            (
              a.ports,
              (
                a.env,
                (
                  a.tz,
                  (
                    a.mounts,
                    (
                      a.tmpfs,
                      (
                        a.log_driver,
                        (
                          a.log_opts,
                          (a.gpus, (a.restart, (a.pids_limit, (a.labels, (a.cmd, a.other))))),
                        ),
                      ),
                    ),
                  ),
                ),
              ),
            ),
          ),
        ),
      ),
    ),
  ),
)

iff_trans : {P Q R : Type 0} → P ↔ Q → Q ↔ R → P ↔ R
iff_trans p q = (λ h. q.0 (p.0 h), λ h. p.1 (q.1 h))

-- No difference blocks exactly when the rendered spec agrees with the live one: equal in every
-- field that is compared, but for the intended changes of the hostname, the restart policy and the
-- process limit, and with no flag that is not modelled.
pub diff-Agrees :
    (r : Masks) (want got : RunSpec) (mode : DiffMode)
    → IsOrdered want
    → IsOrdered got
    → AllIntended (diff r want got mode) ↔ Agrees want got mode
unfolding diff
diff-Agrees r want got mode s t =
    iff_trans
      (both _ _ (diff_value_iff _ _ _ _ (text_eq_iff want.name got.name)) (
        both _ _ (diff_value_iff _ _ _ _ (text_eq_iff want.image got.image)) (
          both _ _ (diff_value_iff _ _ _ _ (text_eq_iff want.network got.network)) (
            both _ _ (diff_value_iff _ _ _ _ (bool_eq_iff want.privileged got.privileged)) (
              both _ _
                (diff_hostname_iff want.hostname got.hostname want.hostname_is_default
                  got.hostname_is_default)
                (both _ _ (diff_set_iff _ _ want.ports got.ports s.ports t.ports) (
                  both _ _ (diff_map_iff _ _ want.env got.env s.env t.env) (
                    both _ _ (diff_value_iff _ _ _ _ (text_eq_iff want.tz got.tz)) (
                      both _ _ (diff_set_iff _ _ want.mounts got.mounts s.mounts t.mounts) (
                        both _ _ (diff_map_iff _ _ want.tmpfs got.tmpfs s.tmpfs t.tmpfs) (
                          both _ _
                            (diff_value_iff _ _ _ _ (text_eq_iff want.log_driver got.log_driver))
                            (both _ _
                              (diff_map_iff _ _ want.log_opts got.log_opts s.log_opts t.log_opts)
                              (both _ _
                                (diff_value_iff _ _ _ _ (option_text_iff want.gpus got.gpus))
                                (both _ _ (diff_restart_iff want.restart got.restart mode) (
                                  both _ _ (diff_pids_limit_iff want.pids_limit got.pids_limit) (
                                    both _ _
                                      (diff_map_iff _ _ want.labels got.labels s.labels t.labels)
                                      (both _ _
                                        (diff_value_iff _ _ _ _ (words_eq_iff want.cmd got.cmd))
                                        (unmodelled_iff got.other))))))))))))))))))
      (Parts-iff want got mode)
