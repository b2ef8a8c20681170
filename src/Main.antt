-- ===== src/Main.antt =====
-- main.go: the stages of a run, its report and its exit code.
pub mod Exit
pub mod Verdict
use fc_preflight.Prelude.{
  ℕ, Bool, true, false, not, ◌&&◌, ◌||◌, Option, none, some, List, [], ◌∷◌, ◌++◌, ◌==◌,
  if◌then◌else◌,
}
use fc_preflight.Prelude.Int.{ℤ}
use fc_preflight.Text.{Bytes, codes, equal, is_empty}
use fc_preflight.Status.{Status}
use fc_preflight.Report.{Report, Check, new_report, addf, finish}
use fc_preflight.Gate.{has_blocking_kvm_failure}
use fc_preflight.GuestNet.{Cidr, Resolved, resolved, rejected, panicked, resolve_guest_net}
use fc_preflight.Host.Machine.{Machine, Outcome}
use fc_preflight.Artifact.{Store}
use fc_preflight.Boot.Flow.{BootFlags, BootWorld}
use fc_preflight.Boot.Stage.{run_boot_stage}
use fc_preflight.Host.Preflight.{run_preflight}

-- The flags that main and the boot stage read.
pub record Flags : Type 0 where
  pub stage : Bytes
  pub json : Bytes
  pub verbose : Bool
  pub boot : BootFlags

-- What the run finds outside: the process, the clock, net.ParseCIDR, the files of
-- the cache, what the boot stage finds, and whether the JSON file can be created and written.
pub record Environment : Type 1 where
  pub pid : ℕ
  pub args : List Bytes
  pub on_linux : Bool
  pub hostname : Bytes
  pub now : Bytes
  pub elapsed : Bytes
  pub machine : Machine
  pub parse_cidr : Bytes → Outcome Cidr
  pub store : Store
  pub surroundings : BootWorld
  pub can_create : Bytes → Bool
  pub can_write : Report → Bool

-- The boot stage's surroundings, with the base that resolveGuestNet has set.
abbrev pub boot_world : Environment → ℕ → BootWorld
boot_world env base = record env.surroundings { base = base }

-- What flag.Parse does, on `flag.CommandLine`, whose errors end the process: it returns with the
-- flags, or exits with 0 for -h and -help, or with 2 for a usage error.
pub data Parsed : Type 0 where
  accepted : Flags → Parsed
  wants_help : Parsed
  bad_usage : Parsed

-- How a run ends: as the guest's init, with an exit code before there is a report, or with the code
-- and the report that it rendered.
pub data Ending : Type 0 where
  runs_guest : Ending
  exits : ℕ → Ending
  reports : ℕ → Report → Ending

-- hasArg, on os.Args without the program's name
unfoldable pub has_arg : List Bytes → Bytes → Bool
unfolding codes equal
has_arg [] want = false
has_arg (a ∷ args) want =
    let rest = has_arg args want in
    if equal a want || equal a (want ++ codes "=true") then true else rest

-- The case "all" of the switch.
unfoldable pub run_all : Machine → (Report → Option Report) → Report → Option Report
unfolding codes
run_all m boot r =
    let checked = run_preflight m r in
    if has_blocking_kvm_failure checked
    then some (
        addf (codes "boot.skipped") (codes "Boot stage") Status.skip
          (codes
            "skipped: the preflight found a blocking KVM failure, so booting would only restate it with less detail")
          checked)
    else boot checked

-- The switch on the stage; `none` for an unknown one, and where the boot stage panics.
unfoldable pub run_stage : Machine → (Report → Option Report) → Bytes → Report → Option Report
unfolding codes equal
run_stage m boot stage r =
    if equal stage (codes "preflight")
    then some (run_preflight m r)
    else if equal stage (codes "boot")
    then boot r
    else if equal stage (codes "all")
    then run_all m boot r
    else none

-- The switch at the end of main.
unfoldable pub exit_code : Status → ℕ
exit_code Status.fail = 1
exit_code Status.blocked = 3
exit_code _ = 0

-- From Finish to the end; the JSON file is written behind the text report.
unfoldable pub conclude : Environment → Flags → Report → Ending
unfolding codes equal
conclude env flags r =
    let done = finish env.elapsed r in
    if not (is_empty flags.json)
      && ((not (equal flags.json (codes "-")) && not (env.can_create flags.json))
          || not (env.can_write done))
    then reports 1 done
    else reports (exit_code done.verdict) done

-- Behind the switch: os.Exit(2), which is also the code of a panic, or the report.
unfoldable pub end_run : Environment → Flags → Option Report → Ending
unfolding conclude
end_run env flags none = exits 2
end_run env flags (some r) = conclude env flags r

-- main, behind flag.Parse
unfoldable pub run_host : Environment → Flags → Ending
unfolding end_run
run_host env flags =
    if not env.on_linux
    then exits 2
    else elim (resolve_guest_net env.parse_cidr flags.boot.guest_net flags.boot.vms) [
      | resolved base ↦ end_run env flags (
          run_stage env.machine (run_boot_stage (boot_world env base) flags.boot env.store)
            flags.stage (new_report env.hostname env.now flags.verbose))
      | _ ↦ exits 2
    ]

-- runGuest of unsupported.go, which takes its place where the system is not Linux
abbrev pub guest_stub : Ending
guest_stub = exits 2

-- The decision for the guest.
unfoldable pub start_guest : Environment → Ending
start_guest env = if env.on_linux then runs_guest else guest_stub

-- main, from flag.Parse on
unfoldable pub parse_flags : Environment → Parsed → Ending
unfolding run_host
parse_flags env (accepted flags) = run_host env flags
parse_flags env wants_help = exits 0
parse_flags env bad_usage = exits 2

-- main
unfoldable pub run : Environment → Parsed → Ending
unfolding codes start_guest parse_flags
run env parsed =
    if env.pid == 1 || has_arg env.args (codes "-guest")
    then start_guest env
    else parse_flags env parsed
