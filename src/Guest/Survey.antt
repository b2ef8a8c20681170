-- ===== src/Guest/Survey.antt =====
-- guest_linux.go: what runGuest reads and measures before the disk and the network.
pub mod Drivers
use fc_preflight.Prelude.{ℕ, ◌*◌, ◌^◌, false, Option, none, some, List, [], ◌∷◌, ◌++◌, ◌==◌}
use fc_preflight.Prelude.Int.{pos}
use fc_preflight.Float.{Float64, FloatOps, zero_float}
use fc_preflight.Text.{Bytes, codes, trim_space, trim_right, split}
use fc_preflight.Text.Fields.{fields}
use fc_preflight.Text.Dict.{Dict, insert}
use fc_preflight.Host.Machine.{Machine, Outcome, ok, err}
use fc_preflight.Host.Memory.{mem_total_kb}
use fc_preflight.Guest.Types.{GuestReport}
use fc_preflight.Guest.Interface.{Kernel}
use fc_preflight.Guest.Net.{Conn}
use fc_preflight.Guest.Disk.{Drive}

-- What the guest asks of its surroundings: the machine, its process id, mount(2) (`some` for an
-- error), the names in a directory, links, floats and `%.1f`, the durations of the measurements, the
-- drive, the interface, the network by address, and json.Marshal of the report.
pub record GuestWorld : Type 0 where
  pub machine : Machine
  pub pid : ℕ
  pub mount : Bytes → Bytes → Bytes → Option Bytes
  pub read_dir : Bytes → Outcome (List Bytes)
  pub read_link : Bytes → Outcome Bytes
  pub ops : FloatOps
  pub show_tenth : Float64 → Bytes
  pub clock_ns : Float64
  pub hash_seconds : ℕ → Float64
  pub memory_seconds : Float64
  pub write_seconds : Float64
  pub read_seconds : Float64
  pub open_file : Bytes → Option Bytes
  pub drive : Drive
  pub kernel : Kernel
  pub join_host_port : Bytes → Bytes → Bytes
  pub dial : Bytes → ℕ → Option Bytes
  pub now : ℕ → ℕ
  pub dial_start : ℕ
  pub conn : Conn
  pub ping_micros : Float64
  pub send_seconds : Float64
  pub marshal : GuestReport → Bytes

-- guestLogPrefix
abbrev pub log_prefix : Bytes
log_prefix = codes "FCPF-LOG "

-- The report so far, and the lines on the console.
pub record GuestState : Type 0 where
  pub report : GuestReport
  pub lines : List Bytes

-- `&GuestReport{VirtioDevices: map[string]string{}}`
abbrev pub empty_report : GuestReport
empty_report = record {
  ok = false;
  errors = [];
  kernel_version = [];
  cmdline = [];
  cpus = 0;
  mem_total_kb = pos 0;
  clocksource = [];
  avail_clock = [];
  virtio_devices = [];
  uptime_at_start = zero_float;
  clock_read_ns = zero_float;
  cpu_hash_mbps = zero_float;
  cpu_hash_mbps_n = zero_float;
  mem_write_mbps = zero_float;
  disk_write_mbps = zero_float;
  disk_read_mbps = zero_float;
  net_echo_rtt_us = zero_float;
  net_throughput = zero_float;
  net_error = [];
}

-- guestLogf
unfoldable pub guest_log : Bytes → GuestState → GuestState
guest_log text st = record st { lines = st.lines ++ (log_prefix ++ text) ∷ [] }

-- The sources, targets and types of the mounts.
abbrev pub mounts : List (Bytes × Bytes × Bytes)
mounts =
    (codes "proc", codes "/proc", codes "proc")
    ∷ (codes "sysfs", codes "/sys", codes "sysfs")
    ∷ (codes "devtmpfs", codes "/dev", codes "devtmpfs")
    ∷ (codes "tmpfs", codes "/tmp", codes "tmpfs")
    ∷ []

-- The errors of the mounts, in order.
unfoldable pub mount_errors :
    (Bytes → Bytes → Bytes → Option Bytes) → List (Bytes × Bytes × Bytes) → List Bytes
unfolding codes
mount_errors mount [] = []
mount_errors mount ((src, dst, fs) ∷ rest) =
    let others = mount_errors mount rest in
    elim (mount src dst fs) [
      | some e ↦ (codes "mount " ++ (fs ++ (codes " on " ++ (dst ++ (codes ": " ++ e))))) ∷ others
      | none ↦ others
    ]

unfoldable pub last_part : List Bytes → Bytes
last_part [] = []
last_part (p ∷ []) = p
last_part (p ∷ q ∷ ps) = last_part (q ∷ ps)

-- The driver by the link of a device.
unfoldable pub driver_of : Outcome Bytes → Bytes
unfolding codes trim_right split last_part
driver_of (err e) = codes "(unbound)"
driver_of (ok link) = last_part (split (trim_right (λ c. c == b'/') link) b'/')

-- The loop over the devices.
unfoldable pub devices_of : (Bytes → Outcome Bytes) → List Bytes → Dict → Dict
unfolding insert driver_of codes
devices_of read_link [] devices = devices
devices_of read_link (name ∷ names) devices = devices_of read_link names (
    insert name
      (driver_of (read_link (codes "/sys/bus/virtio/devices/" ++ (name ++ codes "/driver"))))
      devices)

-- Without a listing there are no devices.
unfoldable pub listed : (Bytes → Outcome Bytes) → Outcome (List Bytes) → Dict
unfolding devices_of
listed read_link (err e) = []
listed read_link (ok names) = devices_of read_link names []

module _ (w : GuestWorld) where
  -- readGuestFile
  unfoldable pub read_guest_file : Bytes → Bytes
  read_guest_file path = elim (w.machine.read_file path) [ err e ↦ [] | ok content ↦ content ]

  unfoldable pub uptime_of : List Bytes → Float64
  uptime_of [] = zero_float
  uptime_of (f ∷ fs) = w.ops.parse_float f

  -- readUptime
  unfoldable pub read_uptime : Float64
  unfolding read_guest_file uptime_of codes fields
  read_uptime = uptime_of (fields (read_guest_file (codes "/proc/uptime")))

  -- measureClockRead, for the nanoseconds that 200000 readings took
  abbrev pub measure_clock_read : Float64
  measure_clock_read = w.ops.divide w.clock_ns (w.ops.of_ℤ (pos 200000))

  -- measureHash: 64 rounds of 1 MiB by each worker
  abbrev pub measure_hash : ℕ → Float64
  measure_hash workers = w.ops.divide (w.ops.of_ℤ (pos (workers * 64))) (w.hash_seconds workers)

  -- measureMemWrite: 8 passes over 64 MiB
  abbrev pub measure_mem_write : Float64
  measure_mem_write =
      w.ops.divide (w.ops.divide (w.ops.of_ℤ (pos (8 * (64 * 2 ^ 20)))) w.memory_seconds)
        (w.ops.of_ℤ (pos (2 ^ 20)))

  -- The report once the files and the devices are read and the machine is measured.
  unfoldable pub surveyed : GuestReport
  unfolding mount_errors read_guest_file read_uptime listed mem_total_kb trim_space codes
  surveyed = record empty_report {
    errors = mount_errors w.mount mounts;
    uptime_at_start = read_uptime;
    kernel_version = trim_space (read_guest_file (codes "/proc/sys/kernel/osrelease"));
    cmdline = trim_space (read_guest_file (codes "/proc/cmdline"));
    cpus = w.machine.num_cpu;
    mem_total_kb = mem_total_kb w.machine;
    clocksource = trim_space (
        read_guest_file (codes "/sys/devices/system/clocksource/clocksource0/current_clocksource"));
    avail_clock = trim_space (
        read_guest_file
          (codes "/sys/devices/system/clocksource/clocksource0/available_clocksource"));
    virtio_devices = listed w.read_link (w.read_dir (codes "/sys/bus/virtio/devices"));
    clock_read_ns = measure_clock_read;
    cpu_hash_mbps = measure_hash 1;
    cpu_hash_mbps_n = measure_hash w.machine.num_cpu;
    mem_write_mbps = measure_mem_write;
  }
