-- ===== src/Boot/One.antt =====
-- boot_linux.go: bootOne.
pub mod Course
pub mod Release
pub mod Apart
use fc_preflight.Prelude.{
  ℕ, ◌*◌, ◌^◌, Bool, true, false, Option, none, some, List, [], ◌∷◌, ◌++◌, if◌then◌else◌,
}
use fc_preflight.Prelude.Int.{ℤ}
use fc_preflight.Float.{Float64}
use fc_preflight.Text.{Bytes, codes}
use fc_preflight.Text.Number.{itoa}
use fc_preflight.Host.Machine.{Outcome}
use fc_preflight.Guest.Types.{GuestReport, VmOutcome}
use fc_preflight.GuestNet.{vm_tap, vm_host_ip, vm_mac}
use fc_preflight.BootArgs.{boot_args, echo_port}
use fc_preflight.Console.{Waited, new_outcome, watch_output}
use fc_preflight.Boot.Tap.{
  Event, makes, removes, listens, cancels, sizes, writes, starts, Trace, CommandError, Tried,
  setup_tap, teardown_tap,
}

-- The map that is marshalled, with what varies between microVMs.
pub record VmConfig : Type 0 where
  pub kernel_image_path : Bytes
  pub initrd_path : Bytes
  pub boot_args : Bytes
  pub path_on_host : Bytes
  pub vcpu_count : ℤ
  pub mem_size_mib : ℤ
  pub host_dev_name : Bytes
  pub guest_mac : Bytes

-- The flags that bootOne reads.
pub record VmFlags : Type 0 where
  pub boot_args : Bytes
  pub vcpus : ℤ
  pub mem_mib : ℤ
  pub boot_timeout : ℤ

-- What bootOne asks of its surroundings, behind the events so far: `ip`, the listener, the files
-- (`some` for an error), Firecracker's start, and what it then prints and how it ends; and
-- filepath.Join, net.JoinHostPort, json.MarshalIndent of the configuration, json.Unmarshal of a
-- report, and the product with 1000 of a float64.
pub record VmWorld : Type 0 where
  pub exec : Trace → List Bytes → Option CommandError
  pub listen : Trace → Bytes → Option Bytes
  pub create : Trace → Bytes → Option Bytes
  pub truncate : Trace → Bytes → ℕ → Option Bytes
  pub write_file : Trace → Bytes → Option Bytes
  pub stdout_pipe : Trace → Option Bytes
  pub start : Trace → Option Bytes
  pub console : Trace → Bytes
  pub waited : Trace → Waited
  pub path_join : Bytes → Bytes → Bytes
  pub join_host_port : Bytes → Bytes → Bytes
  pub marshal : VmConfig → Bytes
  pub unmarshal : Bytes → Outcome GuestReport
  pub times_1000 : Float64 → Float64

-- 64<<20, the size of the scratch drive
abbrev pub scratch_size : ℕ
scratch_size = 64 * 2 ^ 20

-- The outcome, with the trace behind it.
abbrev pub Booted : Type 0
Booted = VmOutcome × Trace

-- `out.Err = …; return out` in a run that has no report
abbrev pub fails_with : ℕ → Bytes → VmOutcome
fails_with i reason = record (new_outcome i) { err = reason }

-- A step that may be refused: the error with its prefix, or on with the event.
unfoldable pub attempt : ℕ → Bytes → Option Bytes → List Event → (Trace → Booted) → Trace → Booted
unfolding new_outcome
attempt i prefix (some e) events next tr = (fails_with i (prefix ++ e), tr)
attempt i prefix none events next tr = next (events ++ tr)

-- What a `defer` adds to the trace.
abbrev pub deferred : (Trace → Trace) → Booted → Booted
deferred f (out, tr) = (out, f tr)

module _ (w : VmWorld) (flags : VmFlags) (base : ℕ) where
  -- The address of the echo server.
  abbrev pub echo_address : ℕ → Bytes
  echo_address i = w.join_host_port (vm_host_ip base i) (itoa echo_port)

  -- cfg
  abbrev pub vm_config : ℕ → Bytes → Bytes → Bytes → VmConfig
  vm_config i kernel initramfs scratch = record {
    kernel_image_path = kernel;
    initrd_path = initramfs;
    boot_args = boot_args flags.boot_args base i;
    path_on_host = scratch;
    vcpu_count = flags.vcpus;
    mem_size_mib = flags.mem_mib;
    host_dev_name = vm_tap i;
    guest_mac = vm_mac base i;
  }

  -- From the start of Firecracker to its end.
  unfoldable pub fire : ℕ → Bytes → Bytes → Trace → Booted
  unfolding attempt codes watch_output
  fire i fc_bin cfg_path tr =
      attempt i (codes "start firecracker: ") (w.start tr)
        (starts (fc_bin ∷ codes "--no-api" ∷ codes "--config-file" ∷ cfg_path ∷ []) ∷ [])
        (λ started. (
          watch_output w.unmarshal w.times_1000 flags.boot_timeout (w.waited started) i
              (w.console started),
          started,
        ))
        tr

  -- From the pipe on.
  unfoldable pub launch : ℕ → Bytes → Bytes → Trace → Booted
  unfolding attempt fire codes
  launch i fc_bin cfg_path tr =
      attempt i (codes "stdout pipe: ") (w.stdout_pipe tr) [] (fire i fc_bin cfg_path) tr

  -- From the configuration on.
  unfoldable pub configured : ℕ → Bytes → Bytes → Bytes → Bytes → Bytes → Trace → Booted
  unfolding attempt launch codes
  configured i fc_bin kernel initramfs work_dir scratch tr =
      let cfg_path = w.path_join work_dir (codes "config" ++ (itoa i ++ codes ".json")) in
      attempt i (codes "write config: ") (w.write_file tr cfg_path)
        (writes cfg_path (w.marshal (vm_config i kernel initramfs scratch)) ∷ [])
        (launch i fc_bin cfg_path) tr

  -- From the size of the scratch drive on.
  unfoldable pub sized : ℕ → Bytes → Bytes → Bytes → Bytes → Bytes → Trace → Booted
  unfolding attempt configured codes
  sized i fc_bin kernel initramfs work_dir scratch tr =
      attempt i (codes "scratch disk truncate: ") (w.truncate tr scratch scratch_size)
        (sizes scratch scratch_size ∷ [])
        (λ done.
          deferred (λ closed. removes scratch ∷ closed)
            (configured i fc_bin kernel initramfs work_dir scratch done))
        tr

  -- From the scratch drive on.
  unfoldable pub with_scratch : ℕ → Bytes → Bytes → Bytes → Bytes → Trace → Booted
  unfolding attempt sized codes
  with_scratch i fc_bin kernel initramfs work_dir tr =
      let scratch = w.path_join work_dir (codes "scratch" ++ (itoa i ++ codes ".img")) in
      attempt i (codes "scratch disk: ") (w.create tr scratch) (makes scratch ∷ [])
        (sized i fc_bin kernel initramfs work_dir scratch) tr

  -- The echo server, and what follows it.
  unfoldable pub listened : ℕ → Bytes → Bytes → Bytes → Bytes → Trace → Booted
  unfolding attempt with_scratch codes
  listened i fc_bin kernel initramfs work_dir tr =
      attempt i (codes "echo server: ") (w.listen tr (echo_address i))
        (listens (echo_address i) ∷ []) (with_scratch i fc_bin kernel initramfs work_dir) tr

  -- From the context of the echo server on, which `defer cancelEcho()` cancels; a goroutine closes the
  -- listener some time behind that.
  unfoldable pub with_echo : ℕ → Bytes → Bytes → Bytes → Bytes → Trace → Booted
  unfolding listened
  with_echo i fc_bin kernel initramfs work_dir tr =
      deferred (λ done. cancels (echo_address i) ∷ done)
        (listened i fc_bin kernel initramfs work_dir tr)

  -- What follows setupTap.
  unfoldable pub after_tap : ℕ → Bytes → Bytes → Bytes → Bytes → Tried → Booted
  unfolding with_echo teardown_tap new_outcome codes
  after_tap i fc_bin kernel initramfs work_dir (some e, tr) =
      (fails_with i (codes "tap setup: " ++ e), tr)
  after_tap i fc_bin kernel initramfs work_dir (none, tr) =
      deferred (teardown_tap w.exec (vm_tap i)) (with_echo i fc_bin kernel initramfs work_dir tr)

  -- bootOne
  unfoldable pub boot_one : ℕ → Bytes → Bytes → Bytes → Bytes → Trace → Booted
  unfolding after_tap setup_tap
  boot_one i fc_bin kernel initramfs work_dir tr =
      after_tap i fc_bin kernel initramfs work_dir (setup_tap w.exec base i tr)
