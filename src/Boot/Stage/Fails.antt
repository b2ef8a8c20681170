-- ===== src/Boot/Stage/Fails.antt =====
-- boot_linux.go: what makes the boot stage record a failure.
use fc_preflight.Prelude.{
  ◌++◌, Bool, true, false, ◌||◌, ◌&&◌, Option, none, some, List, if◌then◌else◌, ◌==◌,
}
use fc_preflight.Text.{Bytes, codes, is_empty}
use fc_preflight.Host.Machine.{Outcome, ok, err}
use fc_preflight.Artifact.{Artifact, Store, Located, at_path, failed, resolve_artifact}
use fc_preflight.Initramfs.{build_initramfs}
use fc_preflight.Guest.Types.{VmOutcome}
use fc_preflight.Boot.Elf.{Interpreter, elf_interpreter}
use fc_preflight.Boot.Judge.Verdict.{judge_fails}
use fc_preflight.Boot.Pins.{firecracker_version, firecracker_artifact, guest_kernel_artifact}
use fc_preflight.Boot.Flow.{BootFlags, BootWorld, outcome_of}
use fc_preflight.Boot.Stage.{boot_all}

-- The program names an interpreter.
abbrev pub dynamic : Outcome Interpreter → Bool
dynamic (ok (interp, linked)) = linked
dynamic (err e) = false

-- What the boots in a directory come to, once the initramfs is written.
abbrev pub outcomes_fail : Option (List VmOutcome) → Bool
outcomes_fail none = false
outcomes_fail (some outcomes) = judge_fails outcomes

-- No path, or what comes of the path.
abbrev pub located_fails : Located → (Bytes → Bool) → Bool
located_fails (failed message) k = true
located_fails (at_path path) k = k path

module _ (w : BootWorld) (flags : BootFlags) where
  abbrev pub pack_fails : Bytes → Bytes → Bytes → Bytes → Bool
  pack_fails fc_bin kernel bytes dir =
      elim (w.write_file (w.path_join dir (codes "initramfs.cpio")) (build_initramfs bytes)) [
        | some e ↦ true
        | none ↦ outcomes_fail (
            boot_all w flags
              (outcome_of w flags fc_bin kernel (w.path_join dir (codes "initramfs.cpio")) dir)
              flags.vms)
      ]

  abbrev pub dir_fails : Bytes → Bytes → Bytes → Bool
  dir_fails fc_bin kernel bytes = elim w.mkdir_temp [
    | err e ↦ true
    | ok dir ↦ pack_fails fc_bin kernel bytes dir
  ]

  abbrev pub bytes_fail : Bytes → Bytes → Bytes → Bool
  bytes_fail fc_bin kernel self = elim (w.read_file self) [
    | err e ↦ true
    | ok bytes ↦ dir_fails fc_bin kernel bytes
  ]

  abbrev pub self_fails : Bytes → Bytes → Bool
  self_fails fc_bin kernel = elim w.executable [
    | err e ↦ true
    | ok self ↦ dynamic (elf_interpreter (w.open_elf self)) || bytes_fail fc_bin kernel self
  ]

  abbrev pub cached : Bytes → Artifact → Store → Located × Store
  cached name art store =
      resolve_artifact w.outside flags.offline flags.cache name (w.path_join flags.cache name) art
        store

  abbrev pub kernel_fails : Bytes → Store → Bool
  kernel_fails fc_bin store =
      if is_empty flags.kernel
      then located_fails (cached (codes "vmlinux-6.1.141") (guest_kernel_artifact w.arch) store).0
          (self_fails fc_bin)
      else self_fails fc_bin flags.kernel

  abbrev pub binary_fails : Artifact → Store → Bool
  binary_fails art store =
      let got = cached (codes "firecracker-" ++ firecracker_version) art store in
      if is_empty flags.firecracker
      then located_fails got.0 (λ fc_bin. kernel_fails fc_bin got.1)
      else kernel_fails flags.firecracker store

  abbrev pub pinned_fails : Option Artifact → Store → Bool
  pinned_fails none store = false
  pinned_fails (some art) store = binary_fails art store

  -- What makes the boot stage record a failure: as root on a known architecture, no Firecracker
  -- binary, no kernel, a program that cannot be packed, or a failure of judgeOutcomes.
  abbrev pub stage_fails : Store → Bool
  stage_fails store = w.euid == 0 && pinned_fails (firecracker_artifact w.arch) store
