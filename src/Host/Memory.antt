-- ===== src/Host/Memory.antt =====
-- host_linux.go: cgroups, memory settings and the open-file limit.
pub mod Effect
use fc_preflight.Prelude.{
  ℕ, ◌+◌, ◌*◌, ◌/◌, ◌%◌, Bool, not, ◌&&◌, ◌||◌, Option, none, some, List, [], ◌∷◌, ◌++◌, ltb, ◌==◌,
  if◌then◌else◌,
}
use fc_preflight.Prelude.Int.{ℤ, pos, negsuc, lt_ℕ}
use fc_preflight.Text.{
  Bytes, codes, is_empty, equal, contains, has_prefix, scan_lines, default_buffer,
}
use fc_preflight.Text.Number.{itoa, itoa_ℤ, atoi, hex, parse_int_value}
use fc_preflight.Text.Quote.{show_list}
use fc_preflight.Text.Fields.{fields}
use fc_preflight.Text.Dict.{member}
use fc_preflight.Status.{Status}
use fc_preflight.Report.{Datum, Check, ◌>>◌, done, when, add_result, addf, fail, warn}
use fc_preflight.Host.Machine.{ok, err, Machine, read_file_default}

abbrev pub cgroup2_super_magic : ℕ
cgroup2_super_magic = 0x63677270

unfoldable pub wanted_controllers : List Bytes
wanted_controllers = codes "cpu" ∷ codes "cpuset" ∷ codes "memory" ∷ codes "io" ∷ codes "pids" ∷ []

-- The loop that collects `missing`.
pub missing_controllers : List Bytes → List Bytes → List Bytes
missing_controllers have [] = []
missing_controllers have (w ∷ ws) =
    let rest = missing_controllers have ws in if not (member w have) then w ∷ rest else rest

pub report_controllers : Bytes → List Bytes → Check
report_controllers controllers (c ∷ missing) =
    warn (codes "host.cgroups") (codes "cgroup v2 unified hierarchy")
      (codes "cgroup2 mounted but controllers missing: "
        ++ (show_list (c ∷ missing) ++ (codes " (have: " ++ (controllers ++ codes ")"))))
      (codes "Fly bounds each microVM's cpu, memory and io. Enable the missing controllers.")
report_controllers controllers [] =
    addf (codes "host.cgroups") (codes "cgroup v2 unified hierarchy") Status.pass
      (codes "controllers: " ++ controllers)

-- checkCgroups
pub check_cgroups : Machine → Check
check_cgroups m = elim (m.statfs_type (codes "/sys/fs/cgroup")) [
  | err e ↦
      fail (codes "host.cgroups") (codes "cgroup v2 unified hierarchy")
        (codes "statfs /sys/fs/cgroup: " ++ e.message)
        (codes "Mount the unified cgroup hierarchy at /sys/fs/cgroup.")
  | ok magic ↦
      let controllers = read_file_default m (codes "/sys/fs/cgroup/cgroup.controllers") [] in
      if not (magic == cgroup2_super_magic)
      then warn (codes "host.cgroups") (codes "cgroup v2 unified hierarchy")
          (codes "/sys/fs/cgroup is not cgroup2 (fs magic 0x" ++ (hex magic ++ codes ")"))
          (codes "Fly uses cgroup v2 exclusively. Boot with systemd.unified_cgroup_hierarchy=1.")
      else report_controllers controllers
          (missing_controllers (fields controllers) wanted_controllers)
]

-- The second field of the line, if it has two.
second_field : List Bytes → Option Bytes
second_field (a ∷ b ∷ rest) = some b
second_field _ = none

-- The loop over the lines of /proc/meminfo.
mem_total_lines : List Bytes → ℤ
mem_total_lines [] = pos 0
mem_total_lines (l ∷ ls) =
    let rest = mem_total_lines ls in
    if has_prefix l (codes "MemTotal:")
    then (elim (second_field (fields l)) [ none ↦ rest | some n ↦ parse_int_value n ])
    else rest

-- memTotalKB
unfoldable pub mem_total_kb : Machine → ℤ
unfolding mem_total_lines second_field
mem_total_kb m = elim (m.read_file (codes "/proc/meminfo")) [
  | err e ↦ pos 0
  | ok content ↦ mem_total_lines (scan_lines default_buffer content).0
]

-- Tenths of n KiB in GiB, rounded to the nearest, a tie to the even one.
tenths : ℕ → ℕ
tenths n =
    let q = n * 10 / 1048576 in
    let r = n * 10 % 1048576 in if ltb 524288 r || (r == 524288 && q % 2 == 1) then q + 1 else q

tenths_text : ℕ → Bytes
tenths_text t = itoa (t / 10) ++ (codes "." ++ itoa (t % 10))

-- `%.1f` of float64(total)/(1024*1024), which is exact below 2^53 KiB
gib_text : ℤ → Bytes
gib_text (pos n) = tenths_text (tenths n)
gib_text (negsuc n) = codes "-" ++ tenths_text (tenths (n + 1))

pub check_overcommit : Bytes → Check
check_overcommit overcommit =
    if equal overcommit (codes "2")
    then warn (codes "host.overcommit") (codes "Memory overcommit")
        (codes "vm.overcommit_memory = 2 (strict)")
        (codes
            "Firecracker allocates a guest's full memory as an anonymous mapping and relies on it "
          ++ codes
              "being lazily backed. Strict overcommit accounting will cap density far below a Fly host.")
    else addf (codes "host.overcommit") (codes "Memory overcommit") Status.pass
        (codes "vm.overcommit_memory = " ++ overcommit)

thp_always : Bytes → Bool
thp_always thp = contains thp (codes "[always]")

pub check_thp : Bytes → Check
check_thp thp = when (not (is_empty thp)) (
    add_result (record {
      id = codes "host.thp";
      title = codes "Transparent hugepages";
      status = if thp_always thp then Status.warn else Status.info;
      detail = thp;
      values = [];
      remedy =
          if thp_always thp
          then codes
              "THP set to 'always' inflates each microVM's resident memory and interacts badly "
            ++ codes "with balloon-driven reclaim. Fly runs 'madvise'."
          else [];
    }))

max_map_ok : Bytes → Check
max_map_ok text = addf (codes "host.max_map_count") (codes "vm.max_map_count") Status.pass text

report_max_map : Bytes → Option ℤ → Check
unfolding max_map_ok
report_max_map text none = max_map_ok text
report_max_map text (some n) =
    if lt_ℕ n 262144
    then warn (codes "host.max_map_count") (codes "vm.max_map_count")
        (codes "vm.max_map_count = " ++ itoa_ℤ n)
        (codes "Low for a host running many VMMs at once. Fly hosts run 262144 or more.")
    else max_map_ok text

pub check_max_map : Bytes → Check
unfolding report_max_map
check_max_map text = report_max_map text (atoi text)

pub check_nofile : Machine → Check
check_nofile m = elim m.nofile_limit [
  | err e ↦ done
  | ok limits ↦ add_result (record {
    id = codes "host.nofile";
    title = codes "Open file limit";
    status = if ltb limits.0 65536 then Status.warn else Status.pass;
    detail = codes "soft " ++ (itoa limits.0 ++ (codes ", hard " ++ itoa limits.1));
    values = [];
    remedy =
        if ltb limits.0 65536
        then codes "Raise the open-file limit before running a dense microVM fleet."
        else [];
  })
]

-- checkMemory
pub check_memory : Machine → Check
check_memory m =
    let total = mem_total_kb m in
    do
      add_result (record {
        id = codes "host.memory";
        title = codes "Host memory";
        status = Status.info;
        detail = gib_text total ++ codes " GiB total";
        values = (codes "mem_total_kb", Datum.number total) ∷ [];
        remedy = [];
      })
      check_overcommit (read_file_default m (codes "/proc/sys/vm/overcommit_memory") (codes "?"))
      check_thp (read_file_default m (codes "/sys/kernel/mm/transparent_hugepage/enabled") [])
      check_max_map (read_file_default m (codes "/proc/sys/vm/max_map_count") (codes "?"))
      check_nofile m
