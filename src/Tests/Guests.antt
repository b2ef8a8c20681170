-- ===== src/Tests/Guests.antt =====
-- A guest whose drive and network answer.
use fc_preflight.Prelude.{
  ltb, length, ◌/◌, ◌%◌, ◌^◌, ◌<◌, ℕ, ◌+◌, ◌*◌, ◌≤◌, true, false, not, Option, none, some, List, [],
  ◌∷◌, ◌++◌, ◌≡◌, refl, arith, any, if◌then◌else◌,
}
use fc_preflight.Prelude.Int.{pos}
use fc_preflight.Float.{zero_float}
use fc_preflight.Text.Show.{show_map}
use fc_preflight.Text.Quote.{show_list}
use fc_preflight.Text.Order.{sort_by}
use fc_preflight.Text.{Bytes, codes, equal, contains, has_prefix, trim_space, trim_left, trim_right}
use fc_preflight.Host.Machine.{Machine, Outcome, ok, err}
use fc_preflight.Guest.Types.{GuestReport}
use fc_preflight.Guest.Interface.{Kernel}
use fc_preflight.Guest.Net.{Conn, completes, blocks}
use fc_preflight.Guest.Survey.{GuestWorld, GuestState, mount_errors, mounts, empty_report}
use fc_preflight.Guest.Init.{run_guest}
use fc_preflight.Guest.Init.Outlet.{refuses, run_guest-reports}
use fc_preflight.Console.{report_prefix}
use fc_preflight.Guest.Cmdline.{apply_field, set_parameter}
use fc_preflight.Guest.Init.Heard.{carries, but_last, Heard, run_guest-Heard}
use fc_preflight.Guest.Interface.{
  Ip4, ioctl, closes, sioc_set_addr, sioc_set_netmask, ifreq_addr, ifreq_flags, raise_flags,
  configure_guest_net,
}
use fc_preflight.Guest.Interface.Requests.{
  flag_requests, configure_guest_net-none, length-ifreq, raise_flags_bits,
}
use fc_preflight.Guest.Net.{measure_net, dial_loop}
use fc_preflight.Guest.Net.Dial.{EndsAt, dial_loop-EndsAt}
use fc_preflight.Guest.Disk.{DiskSpeed, measure_disk, closes_file}
use fc_preflight.Guest.Disk.Offsets.{all_fit, full_reads, full_writes, measure_disk-all_fit}
use fc_preflight.Console.{watch, is_failed, Waited}
use fc_preflight.Tests.Machines.{missing_file, bare}
use fc_preflight.Tests.Stages.{no_floats}
use fc_preflight.Guest.Survey.{driver_of}
use fc_preflight.Guest.Survey.Drivers.{is_slash, driver_of-link}
use fc_preflight.Tests.MicroVms.{no_address, vm_flags}
use fc_preflight.Guest.Init.Dials.{settings_of, net_run-echo_address}
use fc_preflight.Guest.Init.{net_run}
use fc_preflight.Guest.Survey.{surveyed}
use fc_preflight.GuestNet.{vm_guest_ip, vm_host_ip, ip_string, vm_base}
use fc_preflight.Text.Number.{itoa}
use fc_preflight.BootArgs.{boot_args}
use fc_preflight.Boot.One.{VmFlags, echo_address}

abbrev quick_conn : Conn
quick_conn = record {
  write_one = λ i. completes;
  read_one = λ i. completes;
  write_block = λ i. completes;
}

abbrev willing : Kernel
willing = record {
  socket = ok 3;
  parse_ip4 = λ s. some (record { a = 10; b = 0; c = 0; d = 2 });
  answer = λ tr req arg. none;
  flags = λ tr. 4098;
}

abbrev told : Machine
told = record bare {
  read_file = λ path.
      if equal path (codes "/proc/cmdline")
      then ok (codes "fcpf.ip=10.0.0.2 fcpf.host=10.0.0.1 fcpf.disk=/dev/vda")
      else err missing_file;
}

abbrev guest : GuestWorld
guest = record {
  machine = told;
  pid = 1;
  mount = λ src dst fs. if equal fs (codes "tmpfs") then some (codes "busy") else none;
  read_dir = λ path. ok (codes "virtio0" ∷ []);
  read_link = λ path. ok (codes "../../bus/virtio/drivers/virtio_blk");
  ops = no_floats;
  show_tenth = λ x. codes "0.0";
  clock_ns = zero_float;
  hash_seconds = λ n. zero_float;
  memory_seconds = zero_float;
  write_seconds = zero_float;
  read_seconds = zero_float;
  open_file = λ path. none;
  drive = λ tr op. none;
  kernel = willing;
  join_host_port = λ host port. host ++ (codes ":" ++ port);
  dial = λ addr i. none;
  now = λ i. 100 * i;
  dial_start = 0;
  conn = quick_conn;
  ping_micros = zero_float;
  send_seconds = zero_float;
  marshal = λ rep. codes "{}";
}

hundreds : (i : ℕ) → 100 * i + 100 ≤ 100 * (i + 1)
hundreds i = omega arith

run_guest-reports_example :
    (logs : List Bytes) × (rep : GuestReport) × (run_guest guest
      ≡ some (record { report = rep; lines = logs ++ (report_prefix ++ guest.marshal rep) ∷ [] }))
    × (rep.errors ≡ mount_errors guest.mount mounts)
    × (rep.ok ≡ not (any (refuses guest.mount) mounts))
run_guest-reports_example =
    run_guest-reports guest hundreds (omega arith) (λ i. refl) (λ i. refl) (λ i. refl)

abbrev state_of : Option GuestState → GuestState
state_of none = record { report = empty_report; lines = [] }
state_of (some st) = st

abbrev final : GuestState
final = state_of (run_guest guest)

ends : run_guest guest ≡ some final
unfolding run_guest equal apply_field set_parameter codes
ends = refl

abbrev decode : Bytes → Outcome GuestReport
decode text = if equal text (codes "{}") then ok final.report else err missing_file

quiet_logs : any carries (but_last final.lines) ≡ false
unfolding run_guest equal apply_field set_parameter codes but_last contains has_prefix show_map
    sort_by show_list
quiet_logs = refl

decodes : decode (trim_space (codes "{}")) ≡ ok final.report
unfolding equal codes trim_space trim_left trim_right
decodes = refl

abbrev timed_out : Waited
timed_out = record { exit_error = none; total = zero_float; deadline_exceeded = true }

run_guest-Heard_example :
    (is_failed (watch decode (λ x. x) (pos 60) timed_out 0 final.lines) ≡ false)
    × Heard decode (λ x. x) final.report (watch decode (λ x. x) (pos 60) timed_out 0 final.lines)
run_guest-Heard_example =
    run_guest-Heard guest decode (λ x. x) (pos 60) timed_out 0 final ends quiet_logs decodes

-- The interface of the guest.
configured : (configure_guest_net willing (codes "eth0") (codes "10.0.0.2") (codes "m")).0 ≡ none
unfolding configure_guest_net
configured = refl

configure_guest_net-none_example :
    (fd : ℕ) × (ip : Ip4) × (m : Ip4) × (willing.socket ≡ ok fd)
    × (willing.parse_ip4 (codes "10.0.0.2") ≡ some ip)
    × (willing.parse_ip4 (codes "m") ≡ some m)
    × ((configure_guest_net willing (codes "eth0") (codes "10.0.0.2") (codes "m")).1
        ≡ closes fd
          ∷ flag_requests willing fd (codes "eth0") (
              ioctl fd sioc_set_netmask (ifreq_addr (codes "eth0") m)
              ∷ ioctl fd sioc_set_addr (ifreq_addr (codes "eth0") ip)
              ∷ []))
configure_guest_net-none_example =
    configure_guest_net-none willing (codes "eth0") (codes "10.0.0.2") (codes "m") configured

length-ifreq_example :
    (length (ifreq_addr (codes "a name of some length") (record { a = 1; b = 2; c = 3; d = 4 }))
      ≡ 40)
    × (length (ifreq_flags (codes "a name of some length") 4098) ≡ 40)
length-ifreq_example =
    length-ifreq (codes "a name of some length") (record { a = 1; b = 2; c = 3; d = 4 }) 4098

raise_flags_bits_example :
    (raise_flags 4098 ≡ 4098 / 128 * 128 + 64 + 4098 / 2 % 32 * 2 + 1)
    × (4098 < 2 ^ 16 → raise_flags 4098 < 2 ^ 16)
raise_flags_bits_example = raise_flags_bits 4098

-- A host that answers the third dial.
abbrev third : ℕ → Option Bytes
third i = if ltb i 2 then some (codes "refused") else none

dial_loop-EndsAt_example :
    (n : ℕ) × (n ≤ 101)
    × EndsAt third (λ i. 100 * i) (0 + 10000) 0 n (dial_loop third (λ i. 100 * i) (0 + 10000) 102 0)
dial_loop-EndsAt_example = dial_loop-EndsAt third (λ i. 100 * i) 0 hundreds (omega arith)

-- A guest whose host accepts the connection and never answers.
hangs : run_guest (record guest { conn = record quick_conn { read_one = λ i. blocks } }) ≡ none
unfolding run_guest equal apply_field set_parameter codes
hangs = refl

measure_disk-all_fit_example :
    (s : DiskSpeed) × ((measure_disk no_floats zero_float zero_float guest.drive 33 guest.open_file
        (codes "/dev/vda")).0
      ≡ some s)
    × (all_fit
          (measure_disk no_floats zero_float zero_float guest.drive 33 guest.open_file
            (codes "/dev/vda")).1
        ≡ true)
    × (s.error ≡ none
        → (measure_disk no_floats zero_float zero_float guest.drive 33 guest.open_file
            (codes "/dev/vda")).1
          ≡ closes_file
            ∷ full_reads no_floats zero_float zero_float guest.drive
                (full_writes no_floats zero_float zero_float guest.drive))
measure_disk-all_fit_example =
    measure_disk-all_fit no_floats zero_float zero_float guest.drive guest.open_file
      (codes "/dev/vda")

-- A guest that reads the command line of its microVM.
abbrev quiet_flags : VmFlags
quiet_flags = record vm_flags { boot_args = codes "quiet" }

abbrev booted : GuestWorld
booted = record guest {
  machine = record bare { read_file = λ path. ok (boot_args (codes "quiet") 2887774208 1) };
  join_host_port = no_address.join_host_port;
}

reads_boot_args : (surveyed booted).cmdline ≡ boot_args quiet_flags.boot_args 2887774208 1
unfolding boot_args surveyed trim_space trim_left trim_right codes vm_guest_ip vm_host_ip itoa
    ip_string vm_base
reads_boot_args = refl

net_run-echo_address_example :
    (net_run booted (settings_of booted)
      ≡ measure_net booted.ops booted.ping_micros booted.send_seconds
          (booted.dial (echo_address no_address quiet_flags 2887774208 1))
          booted.now
          booted.conn
          booted.dial_start
          102
          (echo_address no_address quiet_flags 2887774208 1))
    × ((settings_of booted).guest_disk ≡ codes "/dev/vda")
net_run-echo_address_example =
    net_run-echo_address booted no_address quiet_flags 2887774208 1 reads_boot_args refl

names_driver : any is_slash (codes "virtio_blk") ≡ false
unfolding codes
names_driver = refl

driver_of-link_example :
    driver_of (ok (codes "../../bus/virtio/drivers" ++ b'/' ∷ codes "virtio_blk"))
    ≡ codes "virtio_blk"
unfolding codes
driver_of-link_example =
    driver_of-link (codes "../../bus/virtio/drivers") b'v' (codes "irtio_blk") names_driver
