-- ===== src/Host/Virt.antt =====
-- host_linux.go: bare metal or nested, and the CPU's virtualization extensions.
pub mod Effect
use fc_preflight.Prelude.{
  ℕ, Bool, true, false, not, ◌&&◌, ◌||◌, Option, none, some, List, [], ◌∷◌, ◌++◌, map,
  if◌then◌else◌,
}
use fc_preflight.Text.{
  Bytes, codes, is_empty, cut, trim_space, equal, contains, scan_lines, large_buffer,
}
use fc_preflight.Text.Fields.{fields}
use fc_preflight.Text.Dict
use fc_preflight.Text.Dict.{Dict, member, add_members}
use fc_preflight.Status.{Status}
use fc_preflight.Report.{Datum, Check, ◌>>◌, add_result, addf, fail}
use fc_preflight.Host.Machine.{is_amd64, arch_name, ok, err, Output, Machine, read_file_default}

abbrev is_flags_key : Bytes → Bool
is_flags_key k = equal k (codes "flags") || equal k (codes "Features")

-- The loop of `cpuFlags`: it stops at the first line of flags.
flags_of_lines : List Bytes → List Bytes
flags_of_lines [] = []
flags_of_lines (l ∷ ls) =
    let rest = flags_of_lines ls in
    elim (cut l b':') [
      | none ↦ rest
      | some (k, v) ↦ if is_flags_key (trim_space k) then add_members (fields v) [] else rest
    ]

-- cpuFlags, a set
unfoldable pub cpu_flags : Machine → List Bytes
unfolding flags_of_lines
cpu_flags m = elim (m.read_file (codes "/proc/cpuinfo")) [
  | err e ↦ []
  | ok content ↦ flags_of_lines (scan_lines large_buffer content).0
]

-- hypervisorDMI
unfoldable pub hypervisor_dmi : List (Bytes × Bytes)
hypervisor_dmi =
    (codes "Microsoft Corporation", codes "Hyper-V / Azure")
    ∷ (codes "Apple Virtualization", codes "Apple Virtualization.framework")
    ∷ (codes "QEMU", codes "QEMU/KVM")
    ∷ (codes "Amazon EC2", codes "AWS Nitro")
    ∷ (codes "Google", codes "Google Compute Engine")
    ∷ (codes "VMware", codes "VMware")
    ∷ (codes "Xen", codes "Xen")
    ∷ (codes "KVM", codes "KVM")
    ∷ (codes "Bochs", codes "QEMU/Bochs")
    ∷ (codes "Parallels", codes "Parallels")
    ∷ (codes "innotek", codes "VirtualBox")
    ∷ (codes "Alibaba", codes "Alibaba Cloud")
    ∷ []

-- The named results of `detectHypervisor`.
pub record Posture : Type 0 where
  pub nested : Bool
  pub name : Bytes
  pub signals : Dict

flag_signal : Bool → Posture → Posture
flag_signal has_flag p =
    if has_flag
    then record p {
      nested = true;
      signals = Dict.insert (codes "cpu_flag") (codes "hypervisor") p.signals;
    }
    else p

-- The answer of systemd-detect-virt.
detect_virt : Bytes → Posture → Posture
detect_virt v p =
    let told = Dict.insert (codes "systemd_detect_virt") v p.signals in
    if not (is_empty v) && not (equal v (codes "none"))
    then record { nested = true; name = v; signals = told }
    else record p { signals = told }

virt_signal : Output → Posture → Posture
unfolding detect_virt
virt_signal o p = elim o.failure [ none ↦ detect_virt (trim_space o.out) p | some e ↦ p ]

-- The loop over the DMI table: the first entry that matches names the hypervisor.
dmi_match : Bytes → Bytes → List (Bytes × Bytes) → Option Bytes
dmi_match vendor product [] = none
dmi_match vendor product ((pattern_text, name) ∷ hs) =
    let rest = dmi_match vendor product hs in
    if contains vendor pattern_text || contains product pattern_text then some name else rest

dmi_signal : Bytes → Bytes → Posture → Posture
unfolding dmi_match
dmi_signal vendor product p =
    let told =
      Dict.insert (codes "dmi_product") product
        (Dict.insert (codes "dmi_vendor") vendor p.signals) in
    elim (dmi_match vendor product hypervisor_dmi) [
      | none ↦ record p { signals = told }
      | some name ↦ record { nested = true; name = name; signals = told }
    ]

name_unknown : Posture → Posture
name_unknown p =
    if p.nested && is_empty p.name
    then record p { name = codes "an unidentified hypervisor" }
    else p

-- detectHypervisor
unfoldable pub detect_hypervisor : Machine → Posture
unfolding flag_signal virt_signal dmi_signal name_unknown
detect_hypervisor m =
    let start =
      flag_signal (member (codes "hypervisor") (cpu_flags m))
        (record { nested = false; name = []; signals = [] }) in
    let asked = virt_signal (m.run (codes "systemd-detect-virt") []) start in
    let vendor = read_file_default m (codes "/sys/class/dmi/id/sys_vendor") [] in
    let product = read_file_default m (codes "/sys/class/dmi/id/product_name") [] in
    name_unknown (dmi_signal vendor product asked)

-- checkCPUVirtExtensions
pub check_cpu_virt_extensions : Machine → Bool → Check
check_cpu_virt_extensions m nested =
    if not (is_amd64 m.arch)
    then addf (codes "host.cpu_virt") (codes "CPU virtualization extensions") Status.info (
        codes "not a CPU-flag question on "
        ++ (arch_name m.arch
            ++ (codes "; virtualization availability is proven by the kvm.* "
                ++ codes "checks below, which create a real VM and vCPU")))
    else if member (codes "vmx") (cpu_flags m)
    then addf (codes "host.cpu_virt") (codes "CPU virtualization extensions") Status.pass
        (codes "vmx (Intel VT-x) present")
    else if member (codes "svm") (cpu_flags m)
    then addf (codes "host.cpu_virt") (codes "CPU virtualization extensions") Status.pass
        (codes "svm (AMD-V) present")
    else fail (codes "host.cpu_virt") (codes "CPU virtualization extensions")
        (codes "neither vmx nor svm in /proc/cpuinfo flags")
        (if nested
          then codes
              "This is a nested host and the outer hypervisor is not exposing virtualization "
            ++ (codes
                  "extensions to it. On Azure, use a VM size that supports nested virtualization "
                ++ codes "(Dv3/Ev3 and later, or a bare-metal SKU).")
          else codes
              "The CPU does not expose virtualization extensions. On bare metal, enable VT-x/AMD-V in firmware.")

-- The `Data` of the posture.
posture_values : Posture → List (Bytes × Datum)
posture_values p =
    (codes "nested", Datum.flag p.nested)
    ∷ (codes "hypervisor", Datum.text p.name)
    ∷ map (λ s. (s.0, Datum.text s.1)) p.signals

dmi_text : Posture → Bytes
dmi_text p =
    codes " (DMI: "
    ++ (Dict.get p.signals (codes "dmi_vendor")
        ++ (codes " " ++ (Dict.get p.signals (codes "dmi_product") ++ codes ")")))

pub report_posture : Machine → Posture → Check
report_posture m p =
    if not p.nested
    then add_result (record {
      id = codes "host.virt_posture";
      title = codes "Bare metal or nested";
      status = Status.pass;
      detail =
          let detail = codes "bare metal -- no virtualization signal" ++ dmi_text p in
          if not (is_amd64 m.arch)
          then detail
            ++ (codes "; note that aarch64 has no CPU flag for this, so this "
                ++ codes "rests on DMI and systemd-detect-virt alone")
          else detail;
      values = posture_values p;
      remedy = [];
    })
    else add_result (record {
      id = codes "host.virt_posture";
      title = codes "Bare metal or nested";
      status = Status.warn;
      detail = codes "NESTED -- this host is itself a guest of " ++ (p.name ++ dmi_text p);
      values = posture_values p;
      remedy =
          codes "Firecracker will run, but every guest VM exit is handled by the outer hypervisor "
          ++ (codes
                "as well as by KVM here. Expect materially worse exit-bound latency than a Fly bare-metal "
              ++ (codes
                    "host. Run the boot stage and compare boot_ms and the workload numbers before drawing "
                  ++ codes "a conclusion; that is what those measurements are for."));
    })

-- checkVirtPosture
pub check_virt_posture : Machine → Check
check_virt_posture m =
    let p = detect_hypervisor m in do report_posture m p; check_cpu_virt_extensions m p.nested
