-- ===== src/Host/Syscalls.antt =====
-- host_linux.go: the system calls that block devices, snapshots and the sandbox need.
pub mod Effect
use fc_preflight.Prelude.{
  ℕ, Bool, not, Option, none, some, List, [], ◌∷◌, ◌++◌, ◌==◌, if◌then◌else◌,
}
use fc_preflight.Text.{Bytes, codes, equal, contains}
use fc_preflight.Status.{Status}
use fc_preflight.Report.{Check, ◌>>◌, addf, fail, warn, open_fd, close_fd}
use fc_preflight.Host.Machine.{Arch, amd64, arm64, other, arch_name, Machine, read_file_default}

-- A row of syscallNR.
pub record SyscallNumbers : Type 0 where
  pub userfaultfd : ℕ
  pub io_uring_setup : ℕ

-- syscallNR[runtime.GOARCH]
unfoldable pub syscall_numbers : Arch → Option SyscallNumbers
syscall_numbers amd64 = some (record { userfaultfd = 323; io_uring_setup = 425 })
syscall_numbers arm64 = some (record { userfaultfd = 282; io_uring_setup = 425 })
syscall_numbers (other name) = none

abbrev pub eperm : ℕ
eperm = 1

abbrev pub enosys : ℕ
enosys = 38

abbrev pub cloexec : ℕ
cloexec = 0x80000

pub check_io_uring : Machine → ℕ → Check
check_io_uring m nr =
    let disabled = read_file_default m (codes "/proc/sys/kernel/io_uring_disabled") (codes "0") in
    if (m.sys_call nr 0).1 == enosys
    then warn (codes "host.io_uring") (codes "io_uring available")
        (codes "io_uring_setup returns ENOSYS")
        (codes
            "Firecracker's 'Async' block engine needs io_uring. Without it, fall back to the Sync "
          ++ codes "engine -- correct, but with worse block throughput than a Fly host.")
    else if not (equal disabled (codes "0"))
    then warn (codes "host.io_uring") (codes "io_uring available")
        (codes "syscall present but kernel.io_uring_disabled = " ++ disabled)
        (codes "Set kernel.io_uring_disabled=0, or plan on the Sync block engine.")
    else addf (codes "host.io_uring") (codes "io_uring available") Status.pass
        (codes "io_uring_setup present and not disabled")

-- The switch on the errno; at 0 the descriptor is closed again.
pub report_userfaultfd : Machine → ℕ → ℕ → Check
report_userfaultfd m fd e =
    if e == enosys
    then warn (codes "host.userfaultfd") (codes "userfaultfd available")
        (codes "userfaultfd returns ENOSYS")
        (codes
            "This kernel lacks CONFIG_USERFAULTFD. Lazy snapshot restore is not possible; restores "
          ++ codes "must page in the whole guest memory up front.")
    else if e == eperm
    then warn (codes "host.userfaultfd") (codes "userfaultfd available")
        (codes "userfaultfd returns EPERM (vm.unprivileged_userfaultfd = "
          ++ (read_file_default m (codes "/proc/sys/vm/unprivileged_userfaultfd") (codes "?")
              ++ codes ")"))
        (codes
            "Present but restricted to CAP_SYS_PTRACE. That is workable if the VMM runs privileged; "
          ++ codes "otherwise set vm.unprivileged_userfaultfd=1.")
    else if not (e == 0)
    then addf (codes "host.userfaultfd") (codes "userfaultfd available") Status.warn
        (codes "userfaultfd: " ++ m.errno_text e)
    else (do
      open_fd fd
      close_fd fd
      addf (codes "host.userfaultfd") (codes "userfaultfd available") Status.pass
          (codes "created and closed a userfaultfd"))

abbrev pub proc_status : Machine → Bytes
proc_status m = read_file_default m (codes "/proc/self/status") []

pub check_seccomp : Machine → Check
check_seccomp m =
    if contains (proc_status m) (codes "Seccomp:")
    then addf (codes "host.seccomp") (codes "seccomp-bpf available") Status.pass
        (codes "kernel reports per-thread seccomp state")
    else fail (codes "host.seccomp") (codes "seccomp-bpf available")
        (codes "no Seccomp field in /proc/self/status")
        (codes "Firecracker's sandbox is a seccomp-bpf filter. Needs CONFIG_SECCOMP_FILTER.")

-- checkSyscalls
pub check_syscalls : Machine → Check
check_syscalls m = elim (syscall_numbers m.arch) [
  | none ↦
      addf (codes "host.syscalls") (codes "Syscall probes") Status.skip
        (codes "no syscall table for " ++ arch_name m.arch)
  | some nrs ↦
      let probed = m.sys_call nrs.userfaultfd cloexec in
      do
        check_io_uring m nrs.io_uring_setup
        report_userfaultfd m probed.0 probed.1
        check_seccomp m
]
