-- ===== src/Host/Config.antt =====
-- host_linux.go: the configuration of the running kernel.
pub mod Effect
use fc_preflight.Prelude.{
  ℕ, suc, Bool, not, ◌&&◌, ◌||◌, true, false, Option, none, some, List, [], ◌∷◌, ◌++◌,
  if◌then◌else◌,
}
use fc_preflight.Text.{
  Bytes, codes, is_empty, equal, has_prefix, trim_space, trim, cut, join, scan_lines, large_buffer,
}
use fc_preflight.Text.Number.{itoa}
use fc_preflight.Text.Dict
use fc_preflight.Text.Dict.{Dict}
use fc_preflight.Status.{Status}
use fc_preflight.Report.{Check, ◌>>◌, done, when, addf, fail, warn}
use fc_preflight.Host.Machine.{is_amd64, OsError, Outcome, ok, err, Machine, read_file_default}
use fc_preflight.Host.Cpu.{or_dash}

-- One of hostKernelOptions.
pub record KernelOption : Type 0 where
  pub opt : Bytes
  pub required : Bool
  pub why : Bytes

option : Bytes → Bool → Bytes → KernelOption
option opt required why = record { opt = opt; required = required; why = why }

unfoldable pub host_kernel_options : List KernelOption
unfolding option
host_kernel_options =
    option (codes "CONFIG_KVM") true (codes "the hypervisor itself")
    ∷ option (codes "CONFIG_TUN") true (codes "tap devices for guest networking")
    ∷ option (codes "CONFIG_SECCOMP_FILTER") true (codes "Firecracker's sandbox")
    ∷ option (codes "CONFIG_CGROUPS") true (codes "resource bounding per microVM")
    ∷ option (codes "CONFIG_MEMCG") true (codes "memory bounding per microVM")
    ∷ option (codes "CONFIG_CPUSETS") true (codes "pinning microVMs to cores")
    ∷ option (codes "CONFIG_NET_NS") true (codes "network namespace per microVM (the jailer)")
    ∷ option (codes "CONFIG_PID_NS") true (codes "pid namespace per microVM (the jailer)")
    ∷ option (codes "CONFIG_EVENTFD") true (codes "ioeventfd/irqfd plumbing")
    ∷ option (codes "CONFIG_BLK_DEV_NBD") true
        (codes "network block devices, which back workload storage")
    ∷ option (codes "CONFIG_NF_TABLES") true (codes "nftables, for guest network filtering and NAT")
    ∷ option (codes "CONFIG_USERFAULTFD") false (codes "lazy snapshot restore")
    ∷ option (codes "CONFIG_IO_URING") false (codes "Firecracker's async block engine")
    ∷ option (codes "CONFIG_TRANSPARENT_HUGEPAGE") false (codes "guest memory backing")
    ∷ option (codes "CONFIG_KSM") false
        (codes "same-page merging across microVMs; optional density lever")
    ∷ option (codes "CONFIG_USER_NS") false (codes "unprivileged jailer configurations")
    ∷ []

-- countRequiredOpts
unfoldable pub count_required_opts : List KernelOption → ℕ
count_required_opts [] = 0
count_required_opts (o ∷ os) = let n = count_required_opts os in if o.required then suc n else n

-- One round of the loop over the lines of a configuration.
unfoldable pub config_line : Bytes → Dict → Dict
config_line l cfg =
    if is_empty l || has_prefix l (codes "#")
    then cfg
    else (elim (cut l b'=') [ none ↦ cfg | some (k, v) ↦ Dict.insert k (trim v b'"') cfg ])

unfoldable pub config_lines : List Bytes → Dict → Dict
unfolding config_line
config_lines [] cfg = cfg
config_lines (l ∷ ls) cfg = config_lines ls (config_line (trim_space l) cfg)

-- parseKernelConfig: the map, and the message of `sc.Err()`. `broken` is the error that reading the
-- text ended in; a line that is too long comes before it.
unfoldable pub parse_kernel_config : Bytes → Option OsError → Dict × Option Bytes
unfolding config_lines
parse_kernel_config content broken =
    let (ls, too_long) = scan_lines large_buffer content in
    (
      config_lines ls [],
      if too_long
          then some (codes "bufio.Scanner: token too long")
          else (elim broken [ none ↦ none | some e ↦ some e.message ]),
    )

-- The results of readKernelConfig: a map and where it is from, or an error.
pub data ConfigRead : Type 0 where
  config : Dict → Bytes → ConfigRead
  unreadable : Bytes → ConfigRead

parsed_from : Bytes → Dict × Option Bytes → ConfigRead
parsed_from src (cfg, none) = ConfigRead.config cfg src
parsed_from src (cfg, some message) = ConfigRead.unreadable message

config_file : Bytes → Outcome Bytes → ConfigRead
unfolding parsed_from
config_file path (err e) = ConfigRead.unreadable (codes "no /proc/config.gz and no " ++ path)
config_file path (ok content) = parsed_from path (parse_kernel_config content none)

boot_config : Machine → ConfigRead
unfolding config_file
boot_config m =
    let release = read_file_default m (codes "/proc/sys/kernel/osrelease") [] in
    let path = codes "/boot/config-" ++ release in config_file path (m.read_file path)

-- readKernelConfig
unfoldable pub read_kernel_config : Machine → ConfigRead
unfolding boot_config parsed_from
read_kernel_config m = elim (m.read_file (codes "/proc/config.gz")) [
  | err e ↦ boot_config m
  | ok b ↦ elim (m.gunzip b) [
    | none ↦ boot_config m
    | some (content, broken) ↦
        parsed_from (codes "/proc/config.gz") (parse_kernel_config content broken)
  ]
]

abbrev pub is_set : Bytes → Bool
is_set v = equal v (codes "y") || equal v (codes "m")

-- `v, ok := cfg[o.opt]; ok && (v == "y" || v == "m")`
abbrev pub enabled : Dict → Bytes → Bool
enabled cfg opt = elim (Dict.lookup opt cfg) [ none ↦ false | some v ↦ is_set v ]

option_text : KernelOption → Bytes
option_text o = o.opt ++ (codes " (" ++ (o.why ++ codes ")"))

-- missingReq (at true) and missingOpt (at false), as the loop collects them.
pub missing_options : Dict → Bool → List KernelOption → List Bytes
unfolding option_text
missing_options cfg required [] = []
missing_options cfg required (o ∷ os) =
    let rest = missing_options cfg required os in
    let wanted = if required then o.required else not o.required in
    if not (enabled cfg o.opt) && wanted then option_text o ∷ rest else rest

-- An option of the map, which is empty where it is missing.
abbrev pub has_vendor : Dict → Bool
has_vendor cfg =
    is_set (Dict.get cfg (codes "CONFIG_KVM_INTEL"))
    || is_set (Dict.get cfg (codes "CONFIG_KVM_AMD"))

vendor_missing : Bytes
vendor_missing =
    codes
      "CONFIG_KVM_INTEL or CONFIG_KVM_AMD (the per-vendor KVM module; CONFIG_KVM alone creates no /dev/kvm)"

-- What the x86 part appends to missingReq.
pub vendor_missing_req : Machine → Dict → List Bytes
vendor_missing_req m cfg =
    if is_amd64 m.arch && not (has_vendor cfg) then vendor_missing ∷ [] else []

pub check_vendor : Machine → Dict → Check
check_vendor m cfg = when (is_amd64 m.arch && has_vendor cfg) (
    addf (codes "host.kernel_config.vendor_kvm") (codes "Per-vendor KVM module") Status.pass (
      codes "CONFIG_KVM_INTEL="
      ++ (or_dash (Dict.get cfg (codes "CONFIG_KVM_INTEL"))
          ++ (codes " CONFIG_KVM_AMD=" ++ or_dash (Dict.get cfg (codes "CONFIG_KVM_AMD"))))))

pub report_required : Bytes → List Bytes → Check
report_required src (o ∷ missing) =
    fail (codes "host.kernel_config") (codes "Host kernel config")
      (codes "from " ++ (src ++ (codes ", missing required: " ++ join (o ∷ missing) (codes ", "))))
      (codes "Rebuild or replace the host kernel with these enabled.")
report_required src [] =
    addf (codes "host.kernel_config") (codes "Host kernel config") Status.pass (
      codes "from "
      ++ (src
          ++ (codes ", all "
              ++ (itoa (count_required_opts host_kernel_options)
                  ++ codes " required options present"))))

pub report_optional : List Bytes → Check
report_optional [] = done
report_optional (o ∷ missing) =
    warn (codes "host.kernel_config.optional") (codes "Host kernel config (optional)")
      (codes "absent: " ++ join (o ∷ missing) (codes ", "))
      (codes "None of these stop a microVM booting. Each one Fly has and this host does not is a "
        ++ codes "capability Fly would be giving up.")

pub report_config : Machine → Dict → Bytes → Check
report_config m cfg src = do
  check_vendor m cfg
  report_required src (missing_options cfg true host_kernel_options ++ vendor_missing_req m cfg)
  report_optional (missing_options cfg false host_kernel_options)

-- checkHostKernelConfig
pub check_host_kernel_config : Machine → Check
check_host_kernel_config m = elim (read_kernel_config m) [
  | unreadable message ↦
      addf (codes "host.kernel_config") (codes "Host kernel config") Status.skip (
        codes "not readable (" ++ (message ++ codes "); the direct probes above are authoritative"))
  | config cfg src ↦ report_config m cfg src
]
