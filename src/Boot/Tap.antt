-- ===== src/Boot/Tap.antt =====
-- boot_linux.go: the tap device of a microVM, set up and removed by `ip`.
pub mod Devices
use fc_preflight.Prelude.{
  ℕ, Bool, true, false, Option, none, some, List, [], ◌∷◌, ◌++◌, if◌then◌else◌,
}
use fc_preflight.Text.{Bytes, codes, join, trim_space}
use fc_preflight.GuestNet.{vm_tap, vm_host_ip}

-- What a boot has done to its surroundings: `ip` run with arguments and whether it succeeded, the
-- echo server's listener opened and the context that it is closed for cancelled, the scratch drive
-- made, given a size and removed, the configuration written, and Firecracker started with arguments.
pub data Event : Type 0 where
  ran : List Bytes → Bool → Event
  listens : Bytes → Event
  cancels : Bytes → Event
  makes : Bytes → Event
  sizes : Bytes → ℕ → Event
  removes : Bytes → Event
  writes : Bytes → Bytes → Event
  starts : List Bytes → Event

-- The events, the latest first.
abbrev pub Trace : Type 0
Trace = List Event

-- What cmd.CombinedOutput returns where it returns an error: the error's text, and the output.
pub record CommandError : Type 0 where
  pub message : Bytes
  pub output : Bytes

-- A step that may end in an error, with the trace behind it.
abbrev pub Tried : Type 0
Tried = Option Bytes × Trace

-- On to the next step unless there is an error.
unfoldable pub then_try : Tried → (Trace → Tried) → Tried
then_try (some e, tr) next = (some e, tr)
then_try (none, tr) next = next tr

abbrev pub link_del : Bytes → List Bytes
link_del tap = codes "link" ∷ codes "del" ∷ tap ∷ []

abbrev pub tuntap_add : Bytes → List Bytes
tuntap_add tap = codes "tuntap" ∷ codes "add" ∷ codes "dev" ∷ tap ∷ codes "mode" ∷ codes "tap" ∷ []

abbrev pub addr_add : Bytes → Bytes → List Bytes
addr_add address tap = codes "addr" ∷ codes "add" ∷ address ∷ codes "dev" ∷ tap ∷ []

abbrev pub link_up : Bytes → List Bytes
link_up tap = codes "link" ∷ codes "set" ∷ codes "dev" ∷ tap ∷ codes "up" ∷ []

-- `exec` is `ip` run with arguments, behind the events so far.
module _ (exec : Trace → List Bytes → Option CommandError) where
  unfoldable pub run_as : List Bytes → Option CommandError → Trace → Tried
  run_as args none tr = (none, ran args true ∷ tr)
  run_as args (some e) tr = (
    some (
        codes "ip"
        ++ (codes " "
            ++ (join args (codes " ")
                ++ (codes ": " ++ (e.message ++ (codes ": " ++ trim_space e.output)))))),
    ran args false ∷ tr,
  )

  -- run, for "ip"
  unfoldable pub run_ip : List Bytes → Trace → Tried
  unfolding run_as
  run_ip args tr = run_as args (exec tr args) tr

  -- setupTap, for the base of the range
  unfoldable pub setup_tap : ℕ → ℕ → Trace → Tried
  unfolding run_ip then_try
  setup_tap base i tr =
      let tap = vm_tap i in
      then_try (run_ip (tuntap_add tap) (run_ip (link_del tap) tr).1) (λ added.
        then_try (run_ip (addr_add (vm_host_ip base i ++ codes "/30") tap) added)
          (λ addressed. run_ip (link_up tap) addressed))

  -- teardownTap
  unfoldable pub teardown_tap : Bytes → Trace → Trace
  unfolding run_ip
  teardown_tap tap tr = (run_ip (link_del tap) tr).1
