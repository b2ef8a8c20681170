-- ===== src/Boot/One/Course.antt =====
-- boot_linux.go: the outcome of bootOne, from the first step that is refused.
use fc_preflight.Prelude.{ℕ, Option, none, some, List, [], ◌∷◌, ◌++◌, ◌≡◌, refl, ap, ◌∙◌}
use fc_preflight.Text.{Bytes, codes}
use fc_preflight.Text.Number.{itoa}
use fc_preflight.Guest.Types.{VmOutcome}
use fc_preflight.Console.{new_outcome, watch_output}
use fc_preflight.Console.Index.{watch_output-index}
use fc_preflight.Boot.Tap.{Event, makes, sizes, listens, writes, starts, Trace, Tried, setup_tap}
use fc_preflight.Boot.One.{
  VmWorld, VmFlags, Booted, attempt, fails_with, listened, scratch_size, echo_address, vm_config,
  fire, launch, sized, configured, with_scratch, with_echo, after_tap, boot_one,
}

-- A step of a boot: the prefix of its error, and what it is answered.
abbrev pub Stride : Type 0
Stride = Bytes × Option Bytes

-- The outcome is the error of the first step that is refused; without one it is the given outcome.
unfoldable pub expected_outcome : ℕ → List Stride → VmOutcome → VmOutcome
expected_outcome i [] out = out
expected_outcome i ((prefix, some e) ∷ rest) out = fails_with i (prefix ++ e)
expected_outcome i ((prefix, none) ∷ rest) out = expected_outcome i rest out

attempt_outcome :
    (i : ℕ) (prefix : Bytes) (answer : Option Bytes) (events : List Event) (next : Trace → Booted)
    (tr : Trace) (rest : List Stride) (out : VmOutcome)
    → (next (events ++ tr)).0 ≡ expected_outcome i rest out
    → (attempt i prefix answer events next tr).0 ≡ expected_outcome i ((prefix, answer) ∷ rest) out
unfolding attempt expected_outcome
attempt_outcome i prefix (some e) events next tr rest out h = refl
attempt_outcome i prefix none events next tr rest out h = h

module _ (w : VmWorld) (flags : VmFlags) (base i : ℕ)
    (fc_bin kernel initramfs work_dir : Bytes) where
  abbrev pub scratch_path : Bytes
  scratch_path = w.path_join work_dir (codes "scratch" ++ (itoa i ++ codes ".img"))

  abbrev pub config_path : Bytes
  config_path = w.path_join work_dir (codes "config" ++ (itoa i ++ codes ".json"))

  -- What has happened behind setupTap by the time that a step is taken, if none is refused.
  abbrev pub listening : Trace → Trace
  listening tr = listens (echo_address w flags base i) ∷ tr

  abbrev pub made : Trace → Trace
  made tr = makes scratch_path ∷ listening tr

  abbrev pub grown : Trace → Trace
  grown tr = sizes scratch_path scratch_size ∷ made tr

  abbrev pub written : Trace → Trace
  written tr =
      writes config_path (w.marshal (vm_config w flags base i kernel initramfs scratch_path))
      ∷ grown tr

  abbrev pub started : Trace → Trace
  started tr =
      starts (fc_bin ∷ codes "--no-api" ∷ codes "--config-file" ∷ config_path ∷ []) ∷ written tr

  -- What the console of the microVM comes to.
  abbrev pub watched : Trace → VmOutcome
  watched tr =
      watch_output w.unmarshal w.times_1000 flags.boot_timeout (w.waited (started tr)) i
        (w.console (started tr))

  abbrev pub starting : Trace → List Stride
  starting tr = (codes "start firecracker: ", w.start (written tr)) ∷ []

  abbrev pub launching : Trace → List Stride
  launching tr = (codes "stdout pipe: ", w.stdout_pipe (written tr)) ∷ starting tr

  abbrev pub configuring : Trace → List Stride
  configuring tr = (codes "write config: ", w.write_file (grown tr) config_path) ∷ launching tr

  abbrev pub sizing : Trace → List Stride
  sizing tr =
      (codes "scratch disk truncate: ", w.truncate (made tr) scratch_path scratch_size)
      ∷ configuring tr

  abbrev pub making : Trace → List Stride
  making tr = (codes "scratch disk: ", w.create (listening tr) scratch_path) ∷ sizing tr

  -- The steps in their order, for what setupTap ends with.
  abbrev pub strides : Tried → List Stride
  strides (error, tr) =
      (codes "tap setup: ", error)
      ∷ (codes "echo server: ", w.listen tr (echo_address w flags base i))
      ∷ making tr

  launch_outcome :
      (tr : Trace)
      → (launch w flags base i fc_bin config_path (written tr)).0
        ≡ expected_outcome i (launching tr) (watched tr)
  unfolding launch fire expected_outcome
  launch_outcome tr =
      attempt_outcome i (codes "stdout pipe: ") (w.stdout_pipe (written tr)) [] _ (written tr)
        (starting tr) (watched tr)
        (attempt_outcome i (codes "start firecracker: ") (w.start (written tr))
          (starts (fc_bin ∷ codes "--no-api" ∷ codes "--config-file" ∷ config_path ∷ []) ∷ []) _
          (written tr) [] (watched tr) refl)

  sized_outcome :
      (tr : Trace)
      → (sized w flags base i fc_bin kernel initramfs work_dir scratch_path (made tr)).0
        ≡ expected_outcome i (sizing tr) (watched tr)
  unfolding sized configured
  sized_outcome tr =
      attempt_outcome i (codes "scratch disk truncate: ")
        (w.truncate (made tr) scratch_path scratch_size) (sizes scratch_path scratch_size ∷ []) _
        (made tr) (configuring tr) (watched tr)
        (attempt_outcome i (codes "write config: ") (w.write_file (grown tr) config_path)
          (writes config_path (w.marshal (vm_config w flags base i kernel initramfs scratch_path))
            ∷ [])
          _ (grown tr) (launching tr) (watched tr) (launch_outcome tr))

  with_echo_outcome :
      (tr : Trace)
      → (with_echo w flags base i fc_bin kernel initramfs work_dir tr).0
        ≡ expected_outcome i
            ((codes "echo server: ", w.listen tr (echo_address w flags base i)) ∷ making tr)
            (watched tr)
  unfolding with_echo listened with_scratch
  with_echo_outcome tr =
      attempt_outcome i (codes "echo server: ") (w.listen tr (echo_address w flags base i))
        (listens (echo_address w flags base i) ∷ []) _ tr (making tr) (watched tr)
        (attempt_outcome i (codes "scratch disk: ") (w.create (listening tr) scratch_path)
          (makes scratch_path ∷ []) _ (listening tr) (sizing tr) (watched tr) (sized_outcome tr))

  after_tap_outcome :
      (x : Tried)
      → (after_tap w flags base i fc_bin kernel initramfs work_dir x).0
        ≡ expected_outcome i (strides x) (watched x.1)
  unfolding after_tap expected_outcome
  after_tap_outcome (some e, tr) = refl
  after_tap_outcome (none, tr) = with_echo_outcome tr

  -- The outcome of bootOne is that of a fresh one with the error of the first step that is refused,
  -- behind that step's prefix; the steps are setupTap, the echo server, making the scratch drive,
  -- sizing it, writing the configuration, the pipe and the start of Firecracker. If none is refused,
  -- it is what the console of the started microVM comes to.
  pub boot_one-outcome :
      (tr : Trace)
      → (boot_one w flags base i fc_bin kernel initramfs work_dir tr).0
        ≡ expected_outcome i
            (strides (setup_tap w.exec base i tr))
            (watched (setup_tap w.exec base i tr).1)
  unfolding boot_one
  boot_one-outcome tr = after_tap_outcome (setup_tap w.exec base i tr)

  expected_outcome-index :
      (rest : List Stride) (out : VmOutcome)
      → out.index ≡ i
      → (expected_outcome i rest out).index ≡ i
  unfolding expected_outcome new_outcome
  expected_outcome-index [] out h = h
  expected_outcome-index ((prefix, some e) ∷ rest) out h = refl
  expected_outcome-index ((prefix, none) ∷ rest) out h = expected_outcome-index rest out h

  -- The outcome of bootOne has the index of its microVM, on every path.
  pub boot_one-index :
      (tr : Trace) → (boot_one w flags base i fc_bin kernel initramfs work_dir tr).0.index ≡ i
  boot_one-index tr =
      ap (λ (o : VmOutcome). o.index) (boot_one-outcome tr)
      ∙ expected_outcome-index (strides (setup_tap w.exec base i tr))
          (watched (setup_tap w.exec base i tr).1)
          (watch_output-index w.unmarshal w.times_1000 flags.boot_timeout _ i _)
