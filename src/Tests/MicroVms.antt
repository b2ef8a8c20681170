-- ===== src/Tests/MicroVms.antt =====
-- The boot of a microVM whose address is refused.
use fc_preflight.Prelude.{
  true, false, not, ◌&&◌, Option, none, some, List, [], ◌∷◌, ◌++◌, ◌≡◌, refl, if◌then◌else◌,
}
use fc_preflight.Prelude.Int.{pos}
use fc_preflight.Float.{zero_float}
use fc_preflight.Text.{Bytes, codes, equal}
use fc_preflight.Host.Machine.{err}
use fc_preflight.GuestNet.{vm_tap}
use fc_preflight.Boot.Tap.{Trace, CommandError, link_del, setup_tap, run_ip}
use fc_preflight.Boot.Tap.Devices.{has_tap, is_none, added}
use fc_preflight.Boot.One.{VmWorld, VmFlags, boot_one, echo_address}
use fc_preflight.Prelude.{arith}
use fc_preflight.Boot.One.Apart.{boot_one-apart}
use fc_preflight.Boot.One.Course.{expected_outcome, strides, watched, boot_one-outcome}
use fc_preflight.Boot.One.Release.{is_open, boot_one-has_tap, boot_one-is_open}
use fc_preflight.Tests.Machines.{missing_file}

abbrev refuses_addr : List Bytes → Option CommandError
refuses_addr [] = none
refuses_addr (word ∷ args) =
    if equal word (codes "addr")
    then some (record { message = codes "exit status 2"; output = codes "denied" })
    else none

abbrev pub no_address : VmWorld
no_address = record {
  exec = λ tr args. refuses_addr args;
  listen = λ tr address. none;
  create = λ tr path. none;
  truncate = λ tr path size. none;
  write_file = λ tr path. none;
  stdout_pipe = λ tr. none;
  start = λ tr. none;
  console = λ tr. [];
  waited = λ tr. record { exit_error = none; total = zero_float; deadline_exceeded = false };
  path_join = λ dir name. dir ++ name;
  join_host_port = λ host port. host ++ port;
  marshal = λ config. [];
  unmarshal = λ s. err missing_file;
  times_1000 = λ x. x;
}

abbrev pub vm_flags : VmFlags
vm_flags = record { boot_args = []; vcpus = pos 2; mem_mib = pos 512; boot_timeout = pos 60 }

deletable :
    (tr : Trace)
    → has_tap false (vm_tap 0) tr ≡ true
    → no_address.exec tr (link_del (vm_tap 0)) ≡ none
unfolding codes equal
deletable tr h = refl

boot_one-has_tap_example :
    has_tap false (vm_tap 0) (boot_one no_address vm_flags 2887774208 0 [] [] [] [] []).1
    ≡ added no_address.exec 0 [] && not (is_none (setup_tap no_address.exec 2887774208 0 []).0)
boot_one-has_tap_example =
    boot_one-has_tap no_address vm_flags 2887774208 0 [] [] [] [] false deletable []

-- The tap device is left behind.
leaves_tap :
    added no_address.exec 0 [] && not (is_none (setup_tap no_address.exec 2887774208 0 []).0) ≡ true
unfolding setup_tap run_ip codes equal
leaves_tap = refl

boot_one-is_open_example :
    is_open
      (echo_address no_address vm_flags 2887774208 0)
      (boot_one no_address vm_flags 2887774208 0 [] [] [] [] []).1
    ≡ false
unfolding is_open
boot_one-is_open_example = boot_one-is_open no_address vm_flags 2887774208 0 [] [] [] [] [] refl

boot_one-outcome_example :
    (boot_one no_address vm_flags 2887774208 0 [] [] [] [] []).0
    ≡ expected_outcome 0
        (strides no_address vm_flags 2887774208 0 [] [] [] []
          (setup_tap no_address.exec 2887774208 0 []))
        (watched no_address vm_flags 2887774208 0 [] [] [] []
          (setup_tap no_address.exec 2887774208 0 []).1)
boot_one-outcome_example = boot_one-outcome no_address vm_flags 2887774208 0 [] [] [] [] []

boot_one-apart_example :
    has_tap true (vm_tap 1) (boot_one no_address vm_flags 2887774208 0 [] [] [] [] []).1
    ≡ has_tap true (vm_tap 1) []
boot_one-apart_example =
    boot_one-apart no_address vm_flags 2887774208 0 1 [] [] [] [] true (λ e. omega (arith, e)) []
