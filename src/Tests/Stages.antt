-- ===== src/Tests/Stages.antt =====
-- Boot stages in concrete surroundings.
use fc_preflight.Prelude.{map, true, false, none, some, List, [], ◌∷◌, ◌++◌, ◌≡◌, refl}
use fc_preflight.Prelude.Int.{pos}
use fc_preflight.Float.{zero_float, FloatOps}
use fc_preflight.Text.{codes, equal, scan_lines, contains}
use fc_preflight.Status.{Status}
use fc_preflight.Report.{Report, new_report}
use fc_preflight.Host.Machine.{amd64, ok}
use fc_preflight.Artifact.{Store, Outside}
use fc_preflight.Guest.Types.{GuestReport, VmOutcome}
use fc_preflight.Boot.Pins.{firecracker_artifact}
use fc_preflight.Boot.Elf.{elf_interpreter, find_interp}
use fc_preflight.Boot.{collect, set_at}
use fc_preflight.Console.{new_outcome, explain}
use fc_preflight.Boot.Stage.Outcomes.{boot_all-outcome_of}
use mathlib.Core.List.{Perm, Permᴰ}
use mathlib.Core.List.Permᴰ
use mathlib.Core.List.Perm
use fc_preflight.Boot.One.{VmWorld}
use fc_preflight.Boot.Flow.{outcome_of, indices, BootFlags, BootWorld}
use fc_preflight.Boot.Stage.{boot_all, stage}
use fc_preflight.Boot.Stage.Temps.{temps_of, stage-temps}
use fc_preflight.Boot.Stage.Fails.{stage_fails}

abbrev pub no_floats : FloatOps
no_floats = record {
  of_ℤ = λ n. zero_float;
  plus = λ x y. x;
  times = λ x y. x;
  divide = λ x y. x;
  less_than = λ x y. false;
  minimum = λ x y. x;
  maximum = λ x y. x;
  infinity = zero_float;
  neg_infinity = zero_float;
  show_rounded = λ x. codes "0";
  parse_float = λ s. zero_float;
}

abbrev healthy : GuestReport
healthy = record {
  ok = true;
  errors = [];
  kernel_version = codes "6.1.141";
  cmdline = [];
  cpus = 1;
  mem_total_kb = pos 500000;
  clocksource = codes "kvm-clock";
  avail_clock = codes "kvm-clock";
  virtio_devices =
      (codes "virtio0", codes "virtio_blk") ∷ (codes "virtio1", codes "virtio_net") ∷ [];
  uptime_at_start = zero_float;
  clock_read_ns = zero_float;
  cpu_hash_mbps = zero_float;
  cpu_hash_mbps_n = zero_float;
  mem_write_mbps = zero_float;
  disk_write_mbps = zero_float;
  disk_read_mbps = zero_float;
  net_echo_rtt_us = zero_float;
  net_throughput = zero_float;
  net_error = [];
}

-- Everything that a microVM asks for is granted, and its guest prints a report.
abbrev printing : VmWorld
printing = record {
  exec = λ tr args. none;
  listen = λ tr address. none;
  create = λ tr path. none;
  truncate = λ tr path size. none;
  write_file = λ tr path. none;
  stdout_pipe = λ tr. none;
  start = λ tr. none;
  console = λ tr. codes "FCPF-REPORT {}";
  waited = λ tr. record { exit_error = none; total = zero_float; deadline_exceeded = false };
  path_join = λ dir name. dir ++ name;
  join_host_port = λ host port. host ++ port;
  marshal = λ config. [];
  unmarshal = λ s. ok healthy;
  times_1000 = λ x. x;
}

abbrev no_network : Outside
no_network = record {
  digest = λ s. s;
  fetch = λ url. none;
  fetch_error = codes "no network";
  untar = λ s. none;
  can_make = λ path. true;
  can_create = λ path. true;
  can_rename = λ path. true;
  io_error = codes "io";
}

abbrev pub well : BootWorld
well = record {
  euid = 0;
  arch = amd64;
  outside = no_network;
  path_join = λ dir name. dir ++ (codes "/" ++ name);
  executable = ok (codes "/fc-preflight");
  open_elf = λ path. ok [];
  read_file = λ path. ok (codes "elf");
  mkdir_temp = ok (codes "/tmp/w");
  write_file = λ path content. none;
  base = 2887774208;
  vm = λ i. printing;
  can_make = λ n. true;
  arrive = λ outcomes. outcomes;
  ops = no_floats;
}

abbrev pub supplied : BootFlags
supplied = record {
  firecracker = codes "/fc";
  kernel = codes "/vmlinux";
  cache = codes "/cache";
  offline = true;
  vms = pos 2;
  guest_net = codes "172.31.240.0/22";
  vm = record { boot_args = []; vcpus = pos 2; mem_mib = pos 512; boot_timeout = pos 60 };
}

abbrev pub no_files : Store
no_files path = none

abbrev blank : Report
blank = new_report (codes "host") (codes "now") false

pub in_order : (outcomes : List VmOutcome) → Perm outcomes (well.arrive outcomes)
in_order outcomes = Perm.refl outcomes

-- Nothing fails there.
pub boots_clean : stage_fails well supplied no_files ≡ false
unfolding firecracker_artifact elf_interpreter find_interp boot_all indices collect set_at
    new_outcome codes equal outcome_of explain scan_lines contains
boots_clean = refl

-- The second microVM ends before the first.
late : List VmOutcome → List VmOutcome
late (o ∷ p ∷ os) = p ∷ o ∷ os
late (o ∷ []) = o ∷ []
late [] = []

delivers_late : (outcomes : List VmOutcome) → Permᴰ outcomes (late outcomes)
unfolding late
delivers_late (o ∷ p ∷ os) = Permᴰ.swap refl refl
delivers_late (o ∷ []) = Permᴰ.refl (o ∷ [])
delivers_late [] = Permᴰ.nil

abbrev overtaken : BootWorld
overtaken = record well { arrive = late }

boot_all-outcome_of_example :
    boot_all overtaken supplied (outcome_of overtaken supplied [] [] [] []) (pos 2)
    ≡ some (map (outcome_of overtaken supplied [] [] [] []) (indices 0 2))
boot_all-outcome_of_example =
    boot_all-outcome_of overtaken supplied [] [] [] [] 2 refl delivers_late

stage-temps_example :
    temps_of (
      stage well supplied
        (record { report = blank; store = no_files; temps = codes "/tmp/a" ∷ [] }))
    ≡ codes "/tmp/a" ∷ []
stage-temps_example =
    stage-temps well supplied
      (record { report = blank; store = no_files; temps = codes "/tmp/a" ∷ [] })
