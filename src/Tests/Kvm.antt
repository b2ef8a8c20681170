-- ===== src/Tests/Kvm.antt =====
-- The KVM checks on a machine that works and on one that refuses the device.
use fc_preflight.Prelude.{false, ◌||◌, ◌≡◌}
use fc_preflight.Text.{codes}
use fc_preflight.Report.{Report, new_report}
use fc_preflight.Gate.{has_blocking_kvm_failure}
use fc_preflight.Kvm.{check_kvm}
use fc_preflight.Kvm.Blocking.{kvm_unusable, check_kvm_gate}
use fc_preflight.Kvm.Descriptors.{check_kvm_closes}
use fc_preflight.Tests.Machines.{bare, unprivileged}

abbrev fresh : Report
fresh = new_report (codes "host") (codes "2026-09-15T00:00:00Z") false

check_kvm_gate_example :
    has_blocking_kvm_failure (check_kvm unprivileged fresh)
    ≡ has_blocking_kvm_failure fresh || kvm_unusable unprivileged
check_kvm_gate_example = check_kvm_gate unprivileged fresh

check_kvm_closes_example : (check_kvm bare fresh).open_fds ≡ fresh.open_fds
check_kvm_closes_example = check_kvm_closes bare fresh
