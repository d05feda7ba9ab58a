-- ===== src/Vm/Live.antt =====
-- The verbs that drive this machine's libvirt go on exactly when it runs.
use unraid.Vm.{
  probe_pid, local_view, gate, require_with, probe_stack, enabled, daemon_stopped,
  image_not_mounted, stale_pid, running, stack_of, local_virt_support, daemon_stopped,
  image_not_mounted, virt_of, is_libvirtd, named_pid, is_refused, stale_pid, running, daemon_fault,
  ApiView, VmManager, managed_state, LocalFiles, LibvirtStack, assess,
}
use unraid.Base.{
  refl, guard, ◌↔◌, arith, inr, inl, Bool-cases, ◌&&◌, ◌||◌, not, ℕ, ◌≡◌, Bool, Option, none, some,
  ok, true, false,
}
use unraid.Text.{codes, contains}

-- What a live libvirt is: /etc/libvirt is mounted, the pid file names a process, that process is
-- libvirtd, and the flags of the CPU do not say that it has no virtualization.
pub record Live (f : LocalFiles) : Type 0 where
  pub mounted : contains f.mount_targets (codes "/etc/libvirt") ≡ true
  pub pid : ℕ
  pub named : named_pid f ≡ some pid
  pub alive : is_libvirtd f pid ≡ true
  pub capable : is_refused (local_virt_support f) ≡ false

abbrev pub runs : LibvirtStack → Bool
runs (running _) = true
runs _ = false

abbrev pub is_enabled : Option VmManager → Bool
is_enabled (some enabled) = true
is_enabled _ = false

managed_state_available :
    (m : Option VmManager) (s : LibvirtStack) (l : Bool)
    → (managed_state m s l).is_available ≡ (runs s || is_enabled m)
unfolding managed_state daemon_fault
managed_state_available m (running pid) l = ground arith
managed_state_available m image_not_mounted l = ground arith
managed_state_available m daemon_stopped l = ground arith
managed_state_available m (stale_pid pid) l = ground arith

-- Virtual machines can be managed exactly when the CPU is not known to lack virtualization, and
-- libvirt runs on this machine or the manager is reported to be enabled.
pub assess-is_available :
    (api : ApiView) (f : LocalFiles)
    → (assess api f).is_available
      ≡ (not (is_refused (virt_of api f)) && (runs (stack_of api f) || is_enabled api.vm_manager))
unfolding assess
assess-is_available api f = elim (Bool-cases (is_refused (virt_of api f))) [
  | inl h ↦ rw h
  | inr h ↦ rw h (managed_state_available api.vm_manager (stack_of api f) api.local)
]

probe_pid-runs :
    (f : LocalFiles) (o : Option ℕ)
    → (runs (probe_pid f o) ≡ true) ↔ ((pid : ℕ) × (o ≡ some pid) × (is_libvirtd f pid ≡ true))
probe_pid-runs f none = (λ h. cc h, λ live. cc live.1)
probe_pid-runs f (some p) = elim (Bool-cases (is_libvirtd f p)) [
  | inl h ↦ (λ _. (p, refl, h), λ _. rw h refl)
  | inr h ↦ (
    (λ g. absurd (cc (rw h at g))),
    (λ live. let same : live.0 ≡ p = cc live.1 in absurd (cc (rw same at live.2, h))),
  )
]

Live-stack :
    (f : LocalFiles)
    → (runs (probe_stack f) ≡ true) ↔ (
        (contains f.mount_targets (codes "/etc/libvirt") ≡ true)
        × ((pid : ℕ) × (named_pid f ≡ some pid) × (is_libvirtd f pid ≡ true)))
unfolding probe_stack
Live-stack f = elim (Bool-cases (contains f.mount_targets (codes "/etc/libvirt"))) [
  | inl h ↦
      let (there, back) = probe_pid-runs f (named_pid f) in
      rw h ((λ g. (refl, there g)), (λ live. back live.1))
  | inr h ↦ rw h ((λ g. cc g), (λ live. cc live.0))
]

guard_iff : {E : Type 0} (t : Bool) (e : E) → (guard t e ≡ ok tt) ↔ (t ≡ true)
guard_iff true e = (λ _. refl, λ _. refl)
guard_iff false e = (λ h. cc h, λ h. cc h)

is_available-local :
    (f : LocalFiles)
    → ((assess local_view f).is_available ≡ true)
      ↔ ((is_refused (local_virt_support f) ≡ false) × (runs (probe_stack f) ≡ true))
is_available-local f = ground (arith, assess-is_available local_view f)

-- A verb that drives this machine's libvirt goes on exactly when it is live.
pub require_with-Live : (f : LocalFiles) → (require_with local_view f ≡ ok tt) ↔ Live f
unfolding require_with gate
require_with-Live f =
    let a = assess local_view f in
    let (passed, passes) = guard_iff a.is_available a in
    let (there, back) = is_available-local f in
    let (in_use, is_used) = Live-stack f in
    (
      (λ h.
          let (capable, stack) = there (passed h) in
          let (mounted, (pid, named, alive)) = in_use stack in
          record { mounted = mounted; pid = pid; named = named; alive = alive; capable = capable }),
      (λ live.
          passes (back (live.capable, is_used (live.mounted, (live.pid, live.named, live.alive))))),
    )
