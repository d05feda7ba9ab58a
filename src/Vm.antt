-- ===== src/Vm.antt =====
-- src/vm_availability.rs and src/libvirt_stack.rs: whether this host's virtual machines can be
-- managed.
pub mod Live
mod Tests
use unraid.Base.{
  ◌||◌, any, [], guard, ◌++◌, keep, ◌&&◌, Bool, Result, List, ℕ, if◌then◌else◌, ◌∷◌, Option, none,
  some, ok, err, true, false, get_or,
}
use unraid.Text.{Text, codes, contains, lines, split_whitespace, starts_with, trim, text_eq}
use unraid.Text.Numbers.{parse_unsigned, decimal}

pub data LibvirtStack : Type 0 where
  running : (pid : ℕ) → LibvirtStack
  image_not_mounted daemon_stopped : LibvirtStack
  stale_pid : (pid : ℕ) → LibvirtStack

pub data VmManager : Type 0 where
  enabled disabled unavailable_ : VmManager

pub data VmUnavailableReason : Type 0 where
  unsupported_host manager_disabled libvirt_not_running manager_state_unknown : VmUnavailableReason

pub record VmRemediation : Type 0 where
  pub automatic : Bool
  pub steps : List Text
  pub warning : Option Text

pub record VmAvailability : Type 0 where
  pub is_available : Bool
  pub reason : Option VmUnavailableReason
  pub detail : Text
  pub remediation : Option VmRemediation
  pub virtiofsd : Bool

pub record ApiView : Type 0 where
  pub cpu_flags : Option (List Text)
  pub vm_manager : Option VmManager
  pub local : Bool

-- The files that the local probes read: where file systems are mounted, `libvirtd.pid`, `comm` of a
-- process, `cpuinfo`, and whether virtiofsd is installed.
pub record LocalFiles : Type 0 where
  pub mount_targets : List Text
  pub pid_file : Option Text
  pub comm : ℕ → Option Text
  pub cpuinfo : Option Text
  pub has_virtiofsd : Bool

-- What the pid file names.
unfoldable pub named_pid : LocalFiles → Option ℕ
named_pid f = elim f.pid_file [ none ↦ none | some t ↦ parse_unsigned 32 (trim t) ]

abbrev pub is_libvirtd : LocalFiles → ℕ → Bool
is_libvirtd f pid = text_eq (trim (get_or (f.comm pid) [])) (codes "libvirtd")

abbrev pub probe_pid : LocalFiles → Option ℕ → LibvirtStack
probe_pid f none = daemon_stopped
probe_pid f (some pid) = if is_libvirtd f pid then running pid else stale_pid pid

unfoldable pub probe_stack : LocalFiles → LibvirtStack
probe_stack f =
    if contains f.mount_targets (codes "/etc/libvirt")
    then probe_pid f (named_pid f)
    else image_not_mounted

unfoldable pub has_virt_flag : List Text → Bool
has_virt_flag flags = any (λ f. text_eq f (codes "vmx") || text_eq f (codes "svm")) flags

abbrev flag_lines : List Text → Option Bool
flag_lines [] = none
flag_lines (l ∷ ls) = some (any (λ t. has_virt_flag (split_whitespace t)) (l ∷ ls))

unfoldable pub local_virt_support : LocalFiles → Option Bool
local_virt_support f = elim f.cpuinfo [
  | none ↦ none
  | some t ↦ flag_lines (keep (starts_with (codes "flags")) (lines t))
]

abbrev unavailable : VmUnavailableReason → Text → List Text → Option Text → VmAvailability
unavailable reason detail steps warning = record {
  is_available = false;
  reason = some reason;
  detail = detail;
  remediation = some (record { automatic = false; steps = steps; warning = warning });
  virtiofsd = false;
}

abbrev pub available : Text → VmAvailability
available detail = record {
  is_available = true;
  reason = none;
  detail = detail;
  remediation = none;
  virtiofsd = false;
}

abbrev settings_page : Text
settings_page = codes "Unraid GUI -> Settings -> VM Manager"

unfoldable pub daemon_fault : LibvirtStack → Option VmAvailability
daemon_fault daemon_stopped = some (
    unavailable libvirt_not_running
      (codes "libvirt.img is mounted at /etc/libvirt but libvirtd has no pid file.")
      (settings_page ∷ codes "Set Enable VMs = No, Apply, then Yes, Apply" ∷ []) none)
daemon_fault (stale_pid pid) = some (
    unavailable libvirt_not_running
      (codes "libvirtd.pid names pid "
        ++ (decimal pid ++ codes ", which is not a running libvirtd."))
      (codes "Check /var/log/libvirt/libvirtd.log for the crash"
        ∷ (settings_page ++ codes ": set Enable VMs = No, Apply, then Yes, Apply")
        ∷ [])
      none)
daemon_fault (running _) = none
daemon_fault image_not_mounted = none

abbrev enable_warning : Text
enable_warning =
    codes
      "Do NOT enable by editing /boot/config/domain.cfg and running rc.libvirt start: /etc/libvirt stays empty until VM Manager creates and mounts libvirt.img, so libvirt dies on missing virtlogd.conf/virtlockd.conf."

abbrev manager_is_disabled : VmAvailability
manager_is_disabled =
    unavailable manager_disabled
      (codes "Unraid VM Manager is disabled, or its libvirt.img is missing.")
      (settings_page
        ∷ codes "Enable VMs = Yes"
        ∷ codes "Apply (creates libvirt.img, populates /etc/libvirt, starts libvirtd)"
        ∷ [])
      (some enable_warning)

abbrev unsupported : VmAvailability
unsupported =
    unavailable unsupported_host
      (codes
        "This host's CPU exposes no virtualization extensions (vmx/svm). A host that is itself a VM needs nested virtualization from its hypervisor.")
      (codes "Enable VT-x/AMD-V in firmware, or nested virtualization on the parent hypervisor"
        ∷ codes "Reboot the host, then enable VM Manager"
        ∷ [])
      none

abbrev state_unknown : VmAvailability
state_unknown = record {
  is_available = false;
  reason = some manager_state_unknown;
  detail = codes "The endpoint's Unraid API answered but did not report VM Manager state.";
  remediation = none;
  virtiofsd = false;
}

abbrev local_state : LibvirtStack → VmAvailability
local_state stack = get_or (daemon_fault stack) manager_is_disabled

-- What the manager and the stack say, on a host that may have virtualization.
unfoldable pub managed_state : Option VmManager → LibvirtStack → Bool → VmAvailability
managed_state m (running pid) local =
    available (codes "libvirtd (pid " ++ (decimal pid ++ codes ") is running."))
managed_state (some enabled) stack local = available (codes "VM Manager is enabled and answering.")
managed_state (some _) stack local = local_state stack
managed_state none stack local = if local then local_state stack else state_unknown

abbrev pub virt_of : ApiView → LocalFiles → Option Bool
virt_of api f = elim api.cpu_flags [
  | some flags ↦ some (has_virt_flag flags)
  | none ↦ if api.local then local_virt_support f else none
]

abbrev pub stack_of : ApiView → LocalFiles → LibvirtStack
stack_of api f = if api.local then probe_stack f else image_not_mounted

abbrev pub is_refused : Option Bool → Bool
is_refused (some false) = true
is_refused _ = false

unfoldable pub assess : ApiView → LocalFiles → VmAvailability
assess api f =
    let a =
      if is_refused (virt_of api f)
      then unsupported
      else managed_state api.vm_manager (stack_of api f) api.local in
    record a { virtiofsd = api.local && f.has_virtiofsd }

unfoldable pub gate : VmAvailability → Result VmAvailability (Unit {0})
gate a = guard a.is_available a

abbrev pub local_view : ApiView
local_view = record { cpu_flags = none; vm_manager = none; local = true }

unfoldable pub require_with : ApiView → LocalFiles → Result VmAvailability (Unit {0})
require_with api f = gate (assess api f)
