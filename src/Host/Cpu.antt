-- ===== src/Host/Cpu.antt =====
-- host_linux.go: the identity of the CPU and the clock that guests will read.
pub mod Effect
use fc_preflight.Prelude.{ℕ, Bool, not, Option, none, some, List, [], ◌∷◌, ◌++◌, map, if◌then◌else◌}
use fc_preflight.Prelude.Int.{pos}
use fc_preflight.Text.{
  Bytes, codes, is_empty, cut, trim_space, equal, to_lower, scan_lines, large_buffer,
}
use fc_preflight.Text.Number.{itoa}
use fc_preflight.Text.Quote.{quote}
use fc_preflight.Text.Order.{sort_texts}
use fc_preflight.Text.Dict
use fc_preflight.Text.Dict.{Dict, member}
use fc_preflight.Status.{Status}
use fc_preflight.Report.{Datum, Check, ◌>>◌, add_result, addf, warn}
use fc_preflight.Host.Machine.{is_arm64, ok, err, Machine, read_file_default}
use fc_preflight.Host.Virt.{cpu_flags}

-- armImplementers
unfoldable pub arm_implementers : Dict
arm_implementers =
    (codes "0x41", codes "ARM Ltd")
    ∷ (codes "0x42", codes "Broadcom")
    ∷ (codes "0x43", codes "Cavium")
    ∷ (codes "0x44", codes "DEC")
    ∷ (codes "0x46", codes "Fujitsu")
    ∷ (codes "0x48", codes "HiSilicon")
    ∷ (codes "0x49", codes "Infineon")
    ∷ (codes "0x4e", codes "NVIDIA")
    ∷ (codes "0x50", codes "APM")
    ∷ (codes "0x51", codes "Qualcomm")
    ∷ (codes "0x53", codes "Samsung")
    ∷ (codes "0x56", codes "Marvell")
    ∷ (codes "0x61", codes "Apple")
    ∷ (codes "0x66", codes "Faraday")
    ∷ (codes "0x69", codes "Intel")
    ∷ (codes "0xc0", codes "Ampere")
    ∷ []

-- The switch of `cpuIdentity`, as a table.
identity_keys : Dict
identity_keys =
    (codes "model name", codes "model_name")
    ∷ (codes "vendor_id", codes "vendor")
    ∷ (codes "cpu family", codes "family")
    ∷ (codes "model", codes "model")
    ∷ (codes "stepping", codes "stepping")
    ∷ (codes "microcode", codes "microcode")
    ∷ (codes "CPU implementer", codes "implementer")
    ∷ (codes "CPU architecture", codes "architecture")
    ∷ (codes "CPU variant", codes "variant")
    ∷ (codes "CPU part", codes "part")
    ∷ (codes "CPU revision", codes "revision")
    ∷ []

-- `if _, seen := id[key]; !seen { id[key] = v }`
insert_first : Bytes → Bytes → Dict → Dict
insert_first key v id = elim (Dict.lookup key id) [ none ↦ Dict.insert key v id | some w ↦ id ]

identity_line : Bytes → Dict → Dict
unfolding insert_first identity_keys
identity_line l id = elim (cut l b':') [
  | none ↦ id
  | some (k, v) ↦ elim (Dict.lookup (trim_space k) identity_keys) [
    | none ↦ id
    | some key ↦ insert_first key (trim_space v) id
  ]
]

identity_lines : List Bytes → Dict → Dict
identity_lines [] id = id
identity_lines (l ∷ ls) id = identity_lines ls (identity_line l id)

-- cpuIdentity
unfoldable pub cpu_identity : Machine → Dict
unfolding identity_line identity_lines
cpu_identity m = elim (m.read_file (codes "/proc/cpuinfo")) [
  | err e ↦ []
  | ok content ↦ identity_lines (scan_lines large_buffer content).0 []
]

-- orDash
unfoldable pub or_dash : Bytes → Bytes
or_dash s = if is_empty s then codes "-" else s

arm_vendor : Dict → Bytes
arm_vendor id =
    let implementer = Dict.get id (codes "implementer") in
    let vendor = Dict.get arm_implementers (to_lower implementer) in
    if is_empty vendor then codes "implementer " ++ implementer else vendor

cpu_count : Machine → Bytes
cpu_count m = codes "), " ++ (itoa m.num_cpu ++ codes " logical CPUs")

cpu_text : Machine → Dict → Bytes
cpu_text m id =
    if is_arm64 m.arch
    then arm_vendor id
      ++ (codes " part "
          ++ (or_dash (Dict.get id (codes "part"))
              ++ (codes " rev "
                  ++ (or_dash (Dict.get id (codes "revision"))
                      ++ (codes " (arch "
                          ++ (or_dash (Dict.get id (codes "architecture")) ++ cpu_count m))))))
    else or_dash (Dict.get id (codes "model_name"))
      ++ (codes " ("
          ++ (or_dash (Dict.get id (codes "vendor"))
              ++ (codes " family "
                  ++ (or_dash (Dict.get id (codes "family"))
                      ++ (codes " model "
                          ++ (or_dash (Dict.get id (codes "model"))
                              ++ (codes " stepping "
                                  ++ (or_dash (Dict.get id (codes "stepping"))
                                      ++ (codes ", microcode "
                                          ++ (or_dash (Dict.get id (codes "microcode"))
                                              ++ cpu_count m))))))))))

cpu_values : Machine → Dict → List Bytes → List (Bytes × Datum)
cpu_values m id flags =
    let fields = map (λ s. (s.0, Datum.text s.1)) id in
    let named =
      if is_arm64 m.arch
      then (codes "vendor_name", Datum.text (arm_vendor id)) ∷ fields
      else fields in
    (codes "logical_cpus", Datum.number (pos m.num_cpu))
    ∷ (codes "flags", Datum.texts (sort_texts flags))
    ∷ named

-- One round of the loop over the TSC flags.
pub check_tsc_flag : List Bytes → Bytes → Bytes → Check
check_tsc_flag flags flag why =
    if member flag flags
    then addf (codes "host.tsc." ++ flag) (codes "CPU " ++ flag) Status.pass why
    else warn (codes "host.tsc." ++ flag) (codes "CPU " ++ flag)
        (flag ++ (codes " absent -- " ++ (why ++ codes " is not guaranteed")))
        (codes
            "Guest timekeeping relies on a stable TSC. Without this the host must fall back to a "
          ++ codes
              "slower clocksource and guest time can drift across a pause or a snapshot restore.")

clocksource_text : Bytes → Bytes → Bytes → Bytes
clocksource_text cur want avail =
    codes "current clocksource is "
    ++ (quote cur ++ (codes ", not " ++ (want ++ (codes " (available: " ++ (avail ++ codes ")")))))

pub check_arm_clocksource : Bytes → Bytes → Check
check_arm_clocksource cur avail =
    if equal cur (codes "arch_sys_counter")
    then addf (codes "host.clocksource") (codes "Host clocksource") Status.pass (
        codes "arch_sys_counter -- the architected generic timer, constant-rate and free-running "
        ++ (codes "by specification (available: " ++ (avail ++ codes ")")))
    else warn (codes "host.clocksource") (codes "Host clocksource")
        (clocksource_text cur (codes "arch_sys_counter") avail)
        (codes
            "On aarch64 the architected generic timer is the clocksource a guest can read cheaply. "
          ++ codes "Anything else is read through the hypervisor and costs an exit per timestamp.")

pub check_tsc_clocksource : Bytes → Bytes → Check
check_tsc_clocksource cur avail =
    if equal cur (codes "tsc")
    then addf (codes "host.clocksource") (codes "Host clocksource") Status.pass
        (codes "tsc (available: " ++ (avail ++ codes ")"))
    else warn (codes "host.clocksource") (codes "Host clocksource")
        (clocksource_text cur (codes "tsc") avail)
        (codes
            "A Fly host runs on tsc. On a nested Azure host this is commonly 'hyperv_clocksource_tsc_page', "
          ++ (codes
                "which is slower to read and is a per-read cost paid by every guest. Worth quantifying "
              ++ codes "in the boot stage before treating as acceptable."))

-- checkTimekeeping
pub check_timekeeping : Machine → List Bytes → Check
check_timekeeping m flags =
    let cur =
      read_file_default m (codes "/sys/devices/system/clocksource/clocksource0/current_clocksource")
        (codes "unknown") in
    let avail =
      read_file_default m
        (codes "/sys/devices/system/clocksource/clocksource0/available_clocksource")
        (codes "unknown") in
    if is_arm64 m.arch then check_arm_clocksource cur avail else (do
      check_tsc_flag flags (codes "constant_tsc") (codes "TSC does not vary with CPU frequency")
      check_tsc_flag flags (codes "nonstop_tsc") (codes "TSC does not stop in deep C-states")
      check_tsc_clocksource cur avail)

-- checkCPU
pub check_cpu : Machine → Check
check_cpu m =
    let id = cpu_identity m in
    let flags = cpu_flags m in
    do
      add_result (record {
        id = codes "host.cpu";
        title = codes "CPU identity";
        status = Status.info;
        detail = cpu_text m id;
        values = cpu_values m id flags;
        remedy = [];
      })
      check_timekeeping m flags
