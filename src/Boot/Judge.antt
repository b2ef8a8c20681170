-- ===== src/Boot/Judge.antt =====
-- boot_linux.go: judgeOutcomes, from the reports of the guests to the checks.
pub mod Verdict
use fc_preflight.Prelude.{
  ℕ, suc, Bool, true, false, not, ◌||◌, Option, none, some, List, [], ◌∷◌, ◌++◌, ◌==◌, ltb,
  if◌then◌else◌, length, count,
}
use fc_preflight.Prelude.Int.{ℤ, pos}
use fc_preflight.Float.{Float64, FloatOps, zero_float}
use fc_preflight.Text.Show.{show_map}
use fc_preflight.Text.{Bytes, codes, equal, is_empty, join}
use fc_preflight.Text.Number.{itoa}
use fc_preflight.Text.Order.{sort_by}
use fc_preflight.Text.Quote.{show_list}
use fc_preflight.Status.{Status}
use fc_preflight.Report.{Datum, Report, Check, ◌>>◌, when, addf, fail, add_result}
use fc_preflight.Guest.Types.{GuestReport, VmOutcome}
use fc_preflight.Console.{is_failed}
use fc_preflight.Boot.{judge_launch}
use fc_preflight.Boot.Figures.{Reported, attach, guests, Stat, stat, spread, net_errors}

-- haveBlk and haveNet
unfoldable pub has_driver : Bytes → List (Bytes × Bytes) → Bool
has_driver driver [] = false
has_driver driver ((name, drv) ∷ rest) = equal drv driver || has_driver driver rest

-- `%v` of a bool
abbrev show_bool : Bool → Bytes
show_bool true = codes "true"
show_bool false = codes "false"

abbrev pub info : Bytes → Bytes → Bytes → List (Bytes × Datum) → Check
info id title detail values = add_result (record {
  id = id;
  title = title;
  status = Status.info;
  detail = detail;
  values = values;
  remedy = [];
})

abbrev pub pass_with : Bytes → Bytes → Bytes → List (Bytes × Datum) → Check
pass_with id title detail values = add_result (record {
  id = id;
  title = title;
  status = Status.pass;
  detail = detail;
  values = values;
  remedy = [];
})

-- The check boot.virtio
unfoldable pub check_virtio : GuestReport → Check
check_virtio g =
    let have_blk = has_driver (codes "virtio_blk") g.virtio_devices in
    let have_net = has_driver (codes "virtio_net") g.virtio_devices in
    if not have_blk || not have_net
    then fail (codes "boot.virtio") (codes "Guest bound virtio drivers")
        (join
          (codes "devices found: "
            ∷ show_map g.virtio_devices
            ∷ codes " (virtio_blk="
            ∷ show_bool have_blk
            ∷ codes ", virtio_net="
            ∷ show_bool have_net
            ∷ codes ")"
            ∷ [])
          [])
        (codes
          "The guest booted but did not bind a driver to every device Firecracker attached. If the boot args include acpi=off, that is the cause: stock Firecracker enumerates devices through ACPI on x86_64.")
    else addf (codes "boot.virtio") (codes "Guest bound virtio drivers") Status.pass
        (show_map g.virtio_devices)

-- What is told where a guest could not reach the host.
unfoldable pub network_remedy : Bytes → Bytes
network_remedy guest_net =
    join
      (codes
          "The guest booted and bound virtio-net but could not reach the host over its tap. The usual cause is a host packet filter -- see host.firewall above, and check for a default-deny input chain or a rule dropping RFC1918 destinations, either of which covers "
        ∷ guest_net
        ∷ codes ". Move the guests with -guest-net, or allow that range on the "
        ∷ codes "fcpf"
        ∷ codes "* interfaces. A timeout here is about the host's policy, not about Firecracker."
        ∷ [])
      []

module _ (ops : FloatOps) (guest_net : Bytes) where
  -- The check boot.network, by netErrs
  pub report_network : List Bytes → List Reported → Check
  report_network (e ∷ errors) vms =
      fail (codes "boot.network") (codes "Guest networking") (join (e ∷ errors) (codes "; "))
        (network_remedy guest_net)
  report_network [] vms =
      let rtt = stat ops vms (λ g. g.net_echo_rtt_us) in
      let throughput = stat ops vms (λ g. g.net_throughput) in
      pass_with (codes "boot.network") (codes "Guest networking")
        (join
          (codes "echo RTT "
            ∷ spread ops (length vms) (codes "us") rtt
            ∷ codes "; throughput "
            ∷ spread ops (length vms) (codes "Mb/s") throughput
            ∷ [])
          [])
        ((codes "rtt_us_mean", Datum.float rtt.mean)
          ∷ (codes "throughput_mbps_mean", Datum.float throughput.mean)
          ∷ [])

  unfoldable pub check_network : List Reported → Check
  unfolding report_network
  check_network vms = report_network (net_errors vms) vms

  -- wallHi
  pub slowest : Float64 → List Reported → Float64
  slowest hi [] = hi
  slowest hi ((o, g) ∷ rest) = slowest (ops.maximum hi o.total_ms) rest

  pub check_kernel : GuestReport → Check
  check_kernel g =
      pass_with (codes "boot.guest_kernel") (codes "Guest kernel came up")
        (join
          (g.kernel_version
            ∷ codes ", "
            ∷ itoa g.cpus
            ∷ codes " vCPU, "
            ∷ ops.show_rounded (ops.divide (ops.of_ℤ g.mem_total_kb) (ops.of_ℤ (pos 1024)))
            ∷ codes " MiB, clocksource "
            ∷ g.clocksource
            ∷ [])
          [])
        ((codes "cmdline", Datum.text g.cmdline)
          ∷ (codes "available_clocksource", Datum.text g.avail_clock)
          ∷ [])

  pub report_timing : List Reported → Check
  unfolding slowest
  report_timing vms =
      let boot = stat ops vms (λ g. ops.times g.uptime_at_start (ops.of_ℤ (pos 1000))) in
      let wall = slowest zero_float vms in
      info (codes "boot.timing") (codes "Boot time")
        (join
          (codes "guest reached init at "
            ∷ spread ops (length vms) (codes "ms") boot
            ∷ codes "; slowest VM took "
            ∷ ops.show_rounded wall
            ∷ codes " ms wall clock end to end"
            ∷ [])
          [])
        ((codes "boot_ms_mean", Datum.float boot.mean)
          ∷ (codes "boot_ms_min", Datum.float boot.lo)
          ∷ (codes "boot_ms_max", Datum.float boot.hi)
          ∷ (codes "wall_ms_max", Datum.float wall)
          ∷ [])

  pub report_clock : List Reported → Check
  report_clock vms =
      let clock = stat ops vms (λ g. g.clock_read_ns) in
      info (codes "boot.perf.clock") (codes "Guest clock_gettime cost")
        (spread ops (length vms) (codes "ns") clock ++ codes " per read")
        ((codes "ns_per_read_mean", Datum.float clock.mean)
          ∷ (codes "ns_per_read_max", Datum.float clock.hi)
          ∷ [])

  pub report_cpu : GuestReport → List Reported → Check
  report_cpu g vms =
      info (codes "boot.perf.cpu") (codes "Guest CPU")
        (join
          (codes "sha256 single core "
            ∷ spread ops (length vms) (codes "MB/s") (stat ops vms (λ h. h.cpu_hash_mbps))
            ∷ codes "; across "
            ∷ itoa g.cpus
            ∷ codes " vCPUs mean "
            ∷ ops.show_rounded (stat ops vms (λ h. h.cpu_hash_mbps_n)).mean
            ∷ codes " MB/s"
            ∷ [])
          [])
        []

  pub report_memory : List Reported → Check
  report_memory vms =
      info (codes "boot.perf.mem") (codes "Guest memory")
        (codes "write "
          ++ spread ops (length vms) (codes "MB/s") (stat ops vms (λ g. g.mem_write_mbps)))
        []

  pub report_disk : GuestReport → List Reported → Check
  report_disk g vms = when (ops.less_than zero_float g.disk_write_mbps) (
      info (codes "boot.perf.disk") (codes "Guest disk (virtio-blk)")
        (join
          (codes "write "
            ∷ spread ops (length vms) (codes "MB/s") (stat ops vms (λ h. h.disk_write_mbps))
            ∷ codes "; read "
            ∷ spread ops (length vms) (codes "MB/s") (stat ops vms (λ h. h.disk_read_mbps))
            ∷ [])
          [])
        [])

  -- From the first guest's report to the end.
  unfoldable pub report_guests : GuestReport → List Reported → List VmOutcome → Check
  unfolding check_kernel report_timing report_clock report_cpu report_memory report_disk
  report_guests g vms outcomes = do
    check_kernel g
    check_virtio g
    check_network vms
    report_timing vms
    report_clock vms
    report_cpu g vms
    report_memory vms
    report_disk g vms
    info (codes "boot.raw") (codes "Raw guest reports")
        (itoa (length outcomes) ++ codes " microVM report(s) recorded in the JSON output")
        ((codes "vms", Datum.vms outcomes) ∷ [])

  -- judgeOutcomes; `none` where it panics
  unfoldable pub judge_outcomes : List VmOutcome → Report → Option Report
  judge_outcomes outcomes r =
      if ltb 0 (count is_failed outcomes)
      then some (judge_launch outcomes r)
      else elim (guests outcomes) [
        | none ↦ none
        | some [] ↦ none
        | some ((o, g) ∷ rest) ↦
            some (report_guests g ((o, g) ∷ rest) outcomes (judge_launch outcomes r))
      ]
