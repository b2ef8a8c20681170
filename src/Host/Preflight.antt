-- ===== src/Host/Preflight.antt =====
-- host_linux.go: the whole preflight stage.
pub mod Verdict
use fc_preflight.Report.{Check, ◌>>◌}
use fc_preflight.Host.Machine.{Machine}
use fc_preflight.Host.Platform.{check_platform}
use fc_preflight.Host.Virt.{check_virt_posture}
use fc_preflight.Host.Cpu.{check_cpu}
use fc_preflight.Kvm.{check_kvm}
use fc_preflight.Host.Tuning.{check_kvm_tuning}
use fc_preflight.Host.Devices.{check_devices, check_host_firewall}
use fc_preflight.Host.Syscalls.{check_syscalls}
use fc_preflight.Host.Memory.{check_cgroups, check_memory}
use fc_preflight.Host.Config.{check_host_kernel_config}

-- runPreflight
unfoldable pub run_preflight : Machine → Check
run_preflight m = do
  check_platform m
  check_virt_posture m
  check_cpu m
  check_kvm m
  check_kvm_tuning m
  check_devices m
  check_syscalls m
  check_host_firewall m
  check_cgroups m
  check_memory m
  check_host_kernel_config m
