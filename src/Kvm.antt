-- ===== src/Kvm.antt =====
-- kvm_linux.go: the KVM checks, from the device node to a vCPU.
pub mod Caps
pub mod Effect
pub mod Blocking
pub mod Descriptors
use fc_preflight.Prelude.{
  ℕ, Bool, true, false, not, ◌&&◌, Option, none, some, List, [], ◌∷◌, ◌++◌, ◌==◌, if◌then◌else◌,
}
use fc_preflight.Prelude.Int.{ℤ, pos}
use fc_preflight.Text.{Bytes, codes}
use fc_preflight.Text.Number.{itoa}
use fc_preflight.Text.Quote.{show_list}
use fc_preflight.Status.{Status}
use fc_preflight.Report.{
  Datum, Result, Report, Check, ◌>>◌, done, when, add_result, addf, fail, warn, blocked, open_fd,
  close_fd,
}
use fc_preflight.Host.Machine.{
  Arch, amd64, arm64, other, arch_name, OsError, is_permission, Outcome, ok, err, FileInfo, Machine,
}
use fc_preflight.Kvm.Caps.{Cap, amd64_caps, arm64_caps, sizing_caps, count_required}

-- _IO(KVMIO, n)
abbrev pub kvm_get_api_version : ℕ
kvm_get_api_version = 0xAE00

abbrev pub kvm_create_vm : ℕ
kvm_create_vm = 0xAE01

abbrev pub kvm_check_extension : ℕ
kvm_check_extension = 0xAE03

abbrev pub kvm_get_vcpu_mmap_size : ℕ
kvm_get_vcpu_mmap_size = 0xAE04

abbrev pub kvm_create_vcpu : ℕ
kvm_create_vcpu = 0xAE41

abbrev pub kvm_stable_api_version : ℕ
kvm_stable_api_version = 12

-- "/dev/kvm"
unfoldable pub dev_kvm : Bytes
dev_kvm = codes "/dev/kvm"

-- The switch on runtime.GOARCH; `none` is its default.
unfoldable pub caps_for : Arch → Option (List Cap)
caps_for amd64 = some amd64_caps
caps_for arm64 = some arm64_caps
caps_for (other name) = none

in_groups : ℕ → List ℕ → Bool
in_groups gid [] = false
in_groups gid (g ∷ gs) = let rest = in_groups gid gs in if g == gid then true else rest

owner_hint : List ℕ → Option ℕ → Bytes
unfolding in_groups
owner_hint gids none = codes "group membership could not be checked"
owner_hint gids (some gid) =
    if in_groups gid gids
    then codes "already in the device's group, so a re-login may be needed for it to take effect"
    else codes "not in the device's group (gid " ++ (itoa gid ++ codes ")")

device_hint : List ℕ → Outcome FileInfo → Bytes
unfolding owner_hint
device_hint gids (err e) = codes "group membership could not be checked"
device_hint gids (ok fi) = owner_hint gids fi.owner_gid

-- groupHint
unfoldable pub group_hint : Machine → Bytes
unfolding device_hint
group_hint m = elim m.groups [
  | err e ↦ codes "group membership could not be read"
  | ok gids ↦ device_hint gids (m.stat dev_kvm)
]

-- The last step: one vCPU on the new VM, closed at once.
check_vcpu : Machine → ℕ → Check
check_vcpu m vmfd = elim (m.ioctl vmfd kvm_create_vcpu 0) [
  | err e ↦
      fail (codes "kvm.create_vcpu") (codes "KVM_CREATE_VCPU")
        (codes "KVM_CREATE_VCPU: " ++ e.message)
        (codes "A VM was created but no vCPU could be attached to it. Check dmesg for a KVM error.")
  | ok vcpufd ↦ do
    open_fd vcpufd
    close_fd vcpufd
    addf (codes "kvm.create_vcpu") (codes "KVM_CREATE_VCPU") Status.pass (codes "created a vCPU fd")
]

-- A new VM; its descriptor is closed when the check returns.
check_vm : Machine → ℕ → Check
check_vm m kvm = elim (m.ioctl kvm kvm_create_vm 0) [
  | err e ↦
      fail (codes "kvm.create_vm") (codes "KVM_CREATE_VM") (codes "KVM_CREATE_VM: " ++ e.message) (
        codes "KVM answers queries but will not create a VM. This is the usual signature of "
        ++ codes
            "virtualization being present but disabled or already claimed by another hypervisor.")
  | ok vmfd ↦ do
    open_fd vmfd
    addf (codes "kvm.create_vm") (codes "KVM_CREATE_VM") Status.pass (codes "created a VM fd")
    check_vcpu m vmfd
    close_fd vmfd
]

check_mmap_size : Machine → ℕ → Check
check_mmap_size m kvm = elim (m.ioctl kvm kvm_get_vcpu_mmap_size 0) [
  | err e ↦ done
  | ok sz ↦
      addf (codes "kvm.vcpu_mmap_size") (codes "vCPU mmap size") Status.info
        (itoa sz ++ codes " bytes")
]

-- One round of the loop over the sizing capabilities.
check_sizing_cap : Machine → ℕ → Cap → Check
check_sizing_cap m kvm c = elim (m.ioctl kvm kvm_check_extension c.num) [
  | err e ↦ done
  | ok v ↦ add_result (record {
    id = codes "kvm.sizing." ++ c.name;
    title = c.name;
    status = Status.info;
    detail = itoa v ++ (codes " (" ++ (c.note ++ codes ")"));
    values = (codes "value", Datum.number (pos v)) ∷ [];
    remedy = [];
  })
]

check_sizing : Machine → ℕ → List Cap → Check
check_sizing m kvm [] = done
check_sizing m kvm (c ∷ cs) = do check_sizing_cap m kvm c; check_sizing m kvm cs

-- The answer about a capability, 0 if the query fails.
unfoldable pub cap_value : Machine → ℕ → Cap → ℕ
cap_value m kvm c = elim (m.ioctl kvm kvm_check_extension c.num) [ ok v ↦ v | err e ↦ 0 ]

-- The names of the required capabilities that are missing, as the loop collects them.
missing_required : Machine → ℕ → List Cap → List Bytes
missing_required m kvm [] = []
missing_required m kvm (c ∷ cs) =
    let rest = missing_required m kvm cs in
    if cap_value m kvm c == 0 && c.required then c.name ∷ rest else rest

-- The map `present` that the loop fills.
present_caps : Machine → ℕ → List Cap → List (Bytes × ℤ)
present_caps m kvm [] = []
present_caps m kvm (c ∷ cs) = (c.name, pos (cap_value m kvm c)) ∷ present_caps m kvm cs

-- What one round of the loop reports.
check_cap : Machine → ℕ → Cap → Check
check_cap m kvm c = when (cap_value m kvm c == 0 && not c.required) (
    warn (codes "kvm.cap." ++ c.name) (codes "KVM capability " ++ c.name)
      (c.name ++ (codes " (cap " ++ (itoa c.num ++ codes ") is not supported")))
      (codes "Not required to boot. " ++ c.note))

check_caps : Machine → ℕ → List Cap → Check
check_caps m kvm [] = done
check_caps m kvm (c ∷ cs) = do check_cap m kvm c; check_caps m kvm cs

check_missing : List Cap → List (Bytes × ℤ) → List Bytes → Check
check_missing caps present (n ∷ names) =
    fail (codes "kvm.caps.required") (codes "Firecracker-required KVM capabilities")
      (codes "missing: " ++ show_list (n ∷ names))
      (codes "Firecracker checks these at startup and exits. A host kernel this old or this "
        ++ codes "restricted cannot run Firecracker regardless of anything else in this report.")
check_missing caps present [] = add_result (record {
  id = codes "kvm.caps.required";
  title = codes "Firecracker-required KVM capabilities";
  status = Status.pass;
  detail = codes "all " ++ (itoa (count_required caps) ++ codes " present");
  values = (codes "capabilities", Datum.counts present) ∷ [];
  remedy = [];
})

-- All that follows the API version.
check_capabilities : Machine → List Cap → ℕ → Check
check_capabilities m caps kvm = do
  check_caps m kvm caps
  check_missing caps (present_caps m kvm caps) (missing_required m kvm caps)
  check_sizing m kvm sizing_caps
  check_mmap_size m kvm
  check_vm m kvm

check_api : Machine → List Cap → ℕ → Check
check_api m caps kvm = elim (m.ioctl kvm kvm_get_api_version 0) [
  | err e ↦
      fail (codes "kvm.api_version") (codes "KVM API version")
        (codes "KVM_GET_API_VERSION: " ++ e.message)
        (codes "The device opened but does not speak the KVM ioctl interface.")
  | ok v ↦
      if not (v == kvm_stable_api_version)
      then fail (codes "kvm.api_version") (codes "KVM API version")
          (codes "KVM_GET_API_VERSION returned "
            ++ (itoa v ++ (codes ", want " ++ itoa kvm_stable_api_version)))
          (codes "Firecracker refuses any value but 12. This kernel's KVM is not ABI-compatible.")
      else (do
        addf (codes "kvm.api_version") (codes "KVM API version") Status.pass (itoa v)
        check_capabilities m caps kvm)
]

-- A device that does not open: whose doing it is.
check_open_error : Machine → OsError → Check
check_open_error m e =
    if is_permission e && not (m.euid == 0)
    then blocked (codes "kvm.open") (codes "/dev/kvm openable")
        (e.message
          ++ (codes " (running as uid "
              ++ (itoa m.euid ++ (codes ", and " ++ (group_hint m ++ codes ")")))))
        (codes "Re-run with sudo. Everything below this point -- the capability checks, "
          ++ (codes "KVM_CREATE_VM and KVM_CREATE_VCPU -- needs the device open, and those are "
              ++ codes "the checks that actually decide whether Firecracker will run here."))
    else if is_permission e
    then fail (codes "kvm.open") (codes "/dev/kvm openable")
        (e.message ++ codes ", while running as root")
        (codes "Root was refused the device. Something beyond file permissions is blocking it -- "
          ++ codes "an LSM policy (AppArmor, SELinux) or a container seccomp profile. Check dmesg.")
    else fail (codes "kvm.open") (codes "/dev/kvm openable") (codes "open: " ++ e.message)
        (codes "KVM is present but refused to open. Check dmesg for a kvm module error.")

-- The device is closed when the check returns.
check_open : Machine → List Cap → Check
check_open m caps = elim (m.open_rw dev_kvm) [
  | err e ↦ check_open_error m e
  | ok kvm ↦ do
    open_fd kvm
    addf (codes "kvm.open") (codes "/dev/kvm openable") Status.pass
        (codes "opened O_RDWR as uid " ++ itoa m.euid)
    check_api m caps kvm
    close_fd kvm
]

check_device : Machine → List Cap → Check
check_device m caps = elim (m.stat dev_kvm) [
  | err e ↦ fail (codes "kvm.device") (codes "/dev/kvm present") e.message (
      codes "Load the kvm module for this CPU (modprobe kvm_intel or kvm_amd). On a nested host, "
      ++ (codes
            "virtualization must be exposed to this VM by the layer above -- on Azure that means a "
          ++ codes "VM size with nested virtualization, or a bare-metal SKU."))
  | ok fi ↦
      if not fi.char_device
      then fail (codes "kvm.device") (codes "/dev/kvm present")
          (codes "/dev/kvm is not a character device (mode " ++ (fi.mode ++ codes ")"))
          (codes "Something has replaced the device node. Expect a char device, major 10.")
      else (do
        addf (codes "kvm.device") (codes "/dev/kvm present") Status.pass
            (codes "character device, mode " ++ fi.perm)
        check_open m caps)
]

-- checkKVM
pub check_kvm : Machine → Check
check_kvm m = elim (caps_for m.arch) [
  | none ↦
      fail (codes "kvm.arch") (codes "Supported architecture")
        (codes "this tool knows amd64 and arm64, not " ++ arch_name m.arch)
        (codes "Run on an x86_64 or aarch64 host.")
  | some caps ↦ check_device m caps
]
