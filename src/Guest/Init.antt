-- ===== src/Guest/Init.antt =====
-- guest_linux.go: runGuest, the init of a microVM, up to the reset.
pub mod Outlet
pub mod Heard
pub mod Dials
use fc_preflight.Prelude.{
  ℕ, ◌*◌, ◌^◌, Bool, true, false, not, ◌||◌, Option, none, some, List, [], ◌∷◌, ◌++◌, ◌==◌,
  if◌then◌else◌,
}
use fc_preflight.Prelude.Int.{ℤ, pos}
use fc_preflight.Float.{Float64, FloatOps, zero_float}
use fc_preflight.Text.{Bytes, codes, is_empty, trim_space, trim_right, split}
use fc_preflight.Text.Fields.{fields}
use fc_preflight.Text.Number.{itoa, itoa_ℤ}
use fc_preflight.Text.Dict.{Dict, insert}
use fc_preflight.Host.Machine.{Machine, Outcome, ok, err}
use fc_preflight.Host.Memory.{mem_total_kb}
use fc_preflight.Text.Show.{show_map}
use fc_preflight.Console.{report_prefix}
use fc_preflight.Guest.Types.{GuestReport}
use fc_preflight.Guest.Cmdline.{Settings, initial_settings, parse_guest_cmdline}
use fc_preflight.Guest.Interface.{Kernel, configure_guest_net}
use fc_preflight.Guest.Net.{Conn, Measured, measure_net}
use fc_preflight.Guest.Disk.{Drive, DiskSpeed, measure_disk}
use fc_preflight.Guest.Survey.{
  GuestWorld, log_prefix, GuestState, empty_report, guest_log, mounts, mount_errors, last_part,
  driver_of, devices_of, listed, read_guest_file, uptime_of, read_uptime, measure_clock_read,
  measure_hash, measure_mem_write, surveyed,
}

module _ (w : GuestWorld) where
  -- What is logged up to the measurement of the memory.
  unfoldable pub survey_log : GuestReport → List Bytes
  unfolding codes itoa
  survey_log rep =
      (codes "guest init running, pid " ++ itoa w.pid)
      ∷ (codes "virtio devices: " ++ show_map rep.virtio_devices)
      ∷ (codes "clock_gettime: " ++ (w.show_tenth rep.clock_read_ns ++ codes " ns/read"))
      ∷ (codes "sha256: "
          ++ (w.ops.show_rounded rep.cpu_hash_mbps
              ++ (codes " MB/s single core, "
                  ++ (w.ops.show_rounded rep.cpu_hash_mbps_n
                      ++ (codes " MB/s across " ++ itoa w.machine.num_cpu)))))
      ∷ (codes "memory write: " ++ (w.ops.show_rounded rep.mem_write_mbps ++ codes " MB/s"))
      ∷ []

  unfoldable pub log_all : List Bytes → GuestState → GuestState
  unfolding guest_log
  log_all [] st = st
  log_all (text ∷ texts) st = log_all texts (guest_log text st)

  -- The branches on the error of measureDisk.
  unfoldable pub note_disk : Float64 → Float64 → Option Bytes → GuestState → GuestState
  unfolding guest_log codes
  note_disk write read (some e) st = guest_log (codes "disk: skipped (" ++ (e ++ codes ")")) st
  note_disk write read none st =
      guest_log
        (codes "disk /dev/vdb: "
          ++ (w.ops.show_rounded write
              ++ (codes " MB/s write, " ++ (w.ops.show_rounded read ++ codes " MB/s read"))))
        (record st { report = record st.report { disk_write_mbps = write; disk_read_mbps = read } })

  -- rep.NetError = …
  abbrev pub net_fails : Bytes → GuestState → GuestState
  net_fails reason st = record st { report = record st.report { net_error = reason } }

  -- The branches on the error of measureNet.
  unfoldable pub note_net : Float64 → Float64 → Option Bytes → GuestState → GuestState
  unfolding guest_log codes
  note_net rtt tput (some e) st = net_fails e st
  note_net rtt tput none st =
      guest_log
        (codes "network: "
          ++ (w.ops.show_rounded rtt
              ++ (codes " us echo RTT, " ++ (w.ops.show_rounded tput ++ codes " Mb/s"))))
        (record st { report = record st.report { net_echo_rtt_us = rtt; net_throughput = tput } })

  -- measureNet on the host's address and the port, on fuel for 102 dials
  unfoldable pub net_run : Settings → Option Measured
  unfolding measure_net itoa_ℤ
  net_run set =
      let addr = w.join_host_port set.host_ip (itoa_ℤ set.guest_port) in
      measure_net w.ops w.ping_micros w.send_seconds (w.dial addr) w.now w.conn w.dial_start 102
        addr

  -- Behind configureGuestNet; `none` where it never returns.
  unfoldable pub after_configure :
      Settings → Option Bytes → Option Measured → GuestState → Option GuestState
  unfolding note_net codes
  after_configure set (some e) m st =
      some (net_fails (codes "configure " ++ (set.guest_iface ++ (codes ": " ++ e))) st)
  after_configure set none none st = none
  after_configure set none (some m) st = some (note_net m.rtt_us m.throughput_mbps m.error st)

  -- The switch for the network.
  unfoldable pub measure_network : Settings → GuestState → Option GuestState
  unfolding after_configure configure_guest_net net_run codes
  measure_network set st =
      if is_empty set.guest_ip || is_empty set.host_ip
      then some (net_fails (codes "no fcpf.ip/fcpf.host on the kernel command line") st)
      else after_configure set
          (configure_guest_net w.kernel set.guest_iface set.guest_ip set.guest_mask).0 (net_run set)
          st

  -- The log of a network error, rep.OK, and the line with the report.
  unfoldable pub log_net_error : GuestState → GuestState
  unfolding guest_log codes
  log_net_error st =
      if is_empty st.report.net_error
      then st
      else guest_log (codes "network: FAILED: " ++ st.report.net_error) st

  abbrev pub no_errors : List Bytes → Bool
  no_errors [] = true
  no_errors (e ∷ es) = false

  unfoldable pub write_report : GuestState → GuestState
  write_report st =
      let rep = record st.report { ok = no_errors st.report.errors } in
      record { report = rep; lines = st.lines ++ (report_prefix ++ w.marshal rep) ∷ [] }

  -- Behind the disk.
  unfoldable pub conclude_guest : Option GuestState → Option GuestState
  unfolding log_net_error write_report
  conclude_guest none = none
  conclude_guest (some st) = some (write_report (log_net_error st))

  unfoldable pub after_disk : Settings → Option DiskSpeed → GuestState → Option GuestState
  unfolding note_disk measure_network conclude_guest
  after_disk set none st = none
  after_disk set (some s) st =
      conclude_guest (measure_network set (note_disk s.write_mbps s.read_mbps s.error st))

  -- runGuest up to the reset of the machine, on fuel for 33 rounds of each loop on the drive; `none`
  -- where a loop has no end, or a read or a write of the connection never returns
  unfoldable pub run_guest : Option GuestState
  unfolding surveyed survey_log log_all after_disk measure_disk parse_guest_cmdline
  run_guest =
      let rep = surveyed w in
      let set = parse_guest_cmdline rep.cmdline initial_settings in
      after_disk set
        (measure_disk w.ops w.write_seconds w.read_seconds w.drive 33 w.open_file set.guest_disk).0
        (log_all (survey_log rep) (record { report = rep; lines = [] }))
