-- ===== src/Tests/Run.antt =====
-- Whole runs of the program.
use fc_preflight.Prelude.{true, false, [], ◌∷◌, ◌≡◌, refl, ◌∙◌, ap, ◌||◌, ◌==◌, if◌then◌else◌}
use fc_preflight.Text.{codes, equal, cut, contains, trim_space}
use fc_preflight.Report.{Report, finish}
use fc_preflight.Gate.{has_blocking_kvm_failure}
use fc_preflight.Host.Preflight.{run_preflight}
use fc_preflight.Host.Preflight.Verdict.{unsuitable, kvm_undetermined}
use fc_preflight.Main.{Flags, Environment, reports, runs_guest, run, has_arg, end_run}
use fc_preflight.Main.Verdict.{run-all_verdict}
use fc_preflight.Boot.Stage.Fails.{stage_fails}
use fc_preflight.Prelude.{ℕ, Bool, arith, not, ◌&&◌, some, ◌≡◌}
use fc_preflight.Main.{exits, accepted, wants_help, bad_usage, parse_flags}
use fc_preflight.Main.Exit.{start, run-preflight, run-all_success, run-all_suitable}
use fc_preflight.Kvm.{caps_for, cap_value}
use fc_preflight.Kvm.Caps.{arm64_caps}
use fc_preflight.Host.Platform.{parse_kernel_version}
use fc_preflight.Host.Machine.{Machine, arm64, read_file_default, ok, err}
use fc_preflight.Host.Tuning.{params}
use fc_preflight.Host.Syscalls.{syscall_numbers}
use fc_preflight.Host.Config.{read_kernel_config}
use fc_preflight.Tests.Machines.{missing_file, bare, unprivileged}
use fc_preflight.Tests.Network.{parse_private, accepts_two}
use fc_preflight.Boot.Stage.{run_boot_stage}
use fc_preflight.Tests.Stages.{well, supplied, no_files, boots_clean, in_order}

abbrev as_user : Environment
as_user = record {
  pid = 412;
  args = codes "-v" ∷ [];
  on_linux = true;
  hostname = codes "host";
  now = codes "now";
  elapsed = codes "3ms";
  machine = unprivileged;
  parse_cidr = parse_private;
  store = no_files;
  surroundings = well;
  can_create = λ path. true;
  can_write = λ r. true;
}

abbrev inspect : Flags
inspect = record { stage = codes "preflight"; json = []; verbose = true; boot = supplied }

not_guest : as_user.pid == 1 || has_arg as_user.args (codes "-guest") ≡ false
unfolding has_arg codes equal
not_guest = refl

run-preflight_example :
    run as_user (accepted inspect)
    ≡ reports
        (if unsuitable unprivileged then 1 else if kvm_undetermined unprivileged then 3 else 0)
        (finish (codes "3ms") (run_preflight unprivileged (start as_user inspect)))
run-preflight_example =
    run-preflight as_user inspect 2887774208 not_guest refl accepts_two refl refl

-- Everything as root, with a boot stage that adds nothing.
abbrev arm : Machine
arm = record bare {
  arch = arm64;
  read_file = λ path.
      if equal path (codes "/proc/self/status") then ok (codes "Seccomp:\t0") else err missing_file;
}

abbrev as_root : Environment
as_root = record as_user { machine = arm }

abbrev everything : Flags
everything = record inspect { stage = codes "all" }

abbrev only_boot : Flags
only_boot = record inspect { stage = codes "boot" }

abbrev booted : Report
booted = run_preflight arm (start as_root everything)

root_not_guest : as_root.pid == 1 || has_arg as_root.args (codes "-guest") ≡ false
unfolding has_arg codes equal
root_not_guest = refl

suitable : unsuitable arm ≡ false
unfolding parse_kernel_version cut read_file_default codes equal caps_for arm64_caps cap_value
    params syscall_numbers contains trim_space read_kernel_config
suitable = refl

allowed : kvm_undetermined arm ≡ false
unfolding caps_for
allowed = refl

run-all_suitable_example :
    run as_root (accepted everything)
    ≡ end_run as_root everything (run_boot_stage well supplied no_files booted)
run-all_suitable_example =
    run-all_suitable as_root everything 2887774208 root_not_guest refl accepts_two refl suitable
      allowed

abbrev both_stages : Report
both_stages =
    (run-all_verdict as_root everything 2887774208 1 root_not_guest refl accepts_two refl refl
      in_order refl refl).0

clean_code :
    (gated u f k : Bool)
    → u ≡ false
    → f ≡ false
    → k ≡ false
    → ◌≡◌ {A = ℕ}
        (if u || (not gated && f) then 1 else if k || (not gated && false) then 3 else 0)
        0
clean_code gated u f k p q r = ground (arith, p, q, r)

exits_0 : run as_root (accepted everything) ≡ reports 0 (finish (codes "3ms") both_stages)
exits_0 =
    (run-all_verdict as_root everything 2887774208 1 root_not_guest refl accepts_two refl refl
      in_order refl refl).2
    ∙ ap (λ (code : ℕ). reports code (finish (codes "3ms") both_stages))
        (clean_code (has_blocking_kvm_failure booted) (unsuitable arm)
          (stage_fails well supplied no_files) (kvm_undetermined arm) suitable boots_clean allowed)

run-all_success_example :
    (has_blocking_kvm_failure booted ≡ false)
    × (after : Report) × (run_boot_stage well supplied no_files booted ≡ some after)
    × (finish (codes "3ms") both_stages ≡ finish (codes "3ms") after)
run-all_success_example =
    run-all_success as_root everything 2887774208 root_not_guest refl accepts_two
      (finish (codes "3ms") both_stages) refl exits_0

run_guest : run (record as_user { args = codes "-guest=true" ∷ [] }) bad_usage ≡ runs_guest
unfolding run has_arg codes equal
run_guest = refl

-- The flags are read before the system is looked at, and behind the decision for the guest.
elsewhere : run (record as_user { on_linux = false }) wants_help ≡ exits 0
unfolding run parse_flags has_arg codes equal
elsewhere = refl
