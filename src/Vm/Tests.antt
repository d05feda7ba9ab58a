-- ===== src/Vm/Tests.antt =====
-- Hosts with and without a live libvirt.
use unraid.Vm.Live.{assess-is_available, is_enabled, runs, Live, require_with-Live}
use unraid.Text.Numbers.{parse_unsigned}
use unraid.Base.{
  ◌||◌, refl, ◌&&◌, ◌==◌, if◌then◌else◌, not, ◌↔◌, [], ◌≡◌, ◌∷◌, none, some, ok, true,
}
use unraid.Text.{lines, starts_with, split_whitespace, trim, text_eq, contains, codes}
use unraid.Vm.{
  stack_of, has_virt_flag, unsupported_host, manager_disabled, libvirt_not_running,
  local_virt_support, virt_of, is_refused, probe_stack, daemon_fault, named_pid, local_view,
  managed_state, assess, require_with, LocalFiles,
}

abbrev host : LocalFiles
host = record {
  mount_targets = codes "/" ∷ codes "/etc/libvirt" ∷ [];
  pid_file = some (codes "4242\n");
  comm = λ pid. if pid == 4242 then some (codes "libvirtd\n") else none;
  cpuinfo = some (codes "model : x\nflags : fpu svm\n");
  has_virtiofsd = true;
}

host-Live : Live host
unfolding contains text_eq named_pid parse_unsigned trim local_virt_support lines starts_with
    has_virt_flag split_whitespace
host-Live = record { mounted = refl; pid = 4242; named = refl; alive = refl; capable = refl }

require_with-Live_example : (require_with local_view host ≡ ok tt) ↔ Live host
require_with-Live_example = require_with-Live host

host_passes : require_with local_view host ≡ ok tt
host_passes = (require_with-Live host).1 host-Live

assess-is_available_example : (assess local_view host).is_available ≡ (
    not (is_refused (virt_of local_view host))
    && (runs (stack_of local_view host) || is_enabled local_view.vm_manager))
assess-is_available_example = assess-is_available local_view host

-- A pid file that names a process that is gone.
reasons :
    ((assess local_view (record host { comm = λ _. none })).reason ≡ some libvirt_not_running)
    × ((assess local_view (record host { mount_targets = [] })).reason ≡ some manager_disabled)
    × ((assess local_view (record host { cpuinfo = some (codes "flags : fpu") })).reason
        ≡ some unsupported_host)
unfolding assess managed_state daemon_fault probe_stack contains text_eq named_pid parse_unsigned
    trim local_virt_support lines starts_with has_virt_flag split_whitespace
reasons = (refl, refl, refl)
