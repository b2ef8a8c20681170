-- ===== src/Boot/Stage.antt =====
-- boot_linux.go: runBootStage.
pub mod Fails
pub mod Ends
pub mod Inside
pub mod Temps
pub mod Outcomes
pub mod Verdict
use fc_preflight.Prelude.{
  ℕ, zero, suc, ◌+◌, ◌/◌, ◌^◌, Bool, true, false, not, Option, none, some, List, [], ◌∷◌, ◌++◌,
  ◌==◌, ltb, if◌then◌else◌, length, map, replicate,
}
use fc_preflight.Prelude.Int.{ℤ, pos, negsuc}
use fc_preflight.Float.{FloatOps}
use fc_preflight.Text.{Bytes, codes, equal, is_empty, base_name}
use fc_preflight.Text.Number.{itoa}
use fc_preflight.Status.{Status}
use fc_preflight.Report.{Report, Check, addf, fail, warn, blocked}
use fc_preflight.Host.Machine.{Arch, amd64, arm64, other, arch_name, OsError, Outcome, ok, err}
use fc_preflight.Artifact.{
  Artifact, Store, put, Located, at_path, failed, Outside, resolve_artifact,
}
use fc_preflight.Initramfs.{build_initramfs}
use fc_preflight.Guest.Types.{VmOutcome}
use fc_preflight.Console.{new_outcome}
use fc_preflight.Boot.{collect}
use fc_preflight.Boot.Elf.{Prog, Interpreter, elf_interpreter}
use fc_preflight.Boot.Judge.{judge_outcomes}
use fc_preflight.Boot.Pins.{firecracker_version, firecracker_artifact, guest_kernel_artifact}
use fc_preflight.Boot.Flow.{
  BootFlags, BootWorld, BootState, Flow, goes, returns, panics, Step, ◌>>=◌, ◌>>◌, reporting,
  return_with, without_dir, ended, remove_dir, indices, outcome_of,
}

module _ (w : BootWorld) (flags : BootFlags) where
  pub require_root : Step (Unit {0})
  require_root =
      if not (w.euid == 0)
      then return_with (
          blocked (codes "boot.privileges") (codes "Root for the boot stage")
            (codes "running as uid " ++ itoa w.euid)
            (codes
              "Giving a microVM a network interface means creating a tap device, which needs CAP_NET_ADMIN. Re-run with sudo. This says nothing about the host."))
      else goes tt

  pub picked : Option Artifact → Step Artifact
  picked none = return_with (
      addf (codes "boot.arch") (codes "Boot stage architecture") Status.skip
        (codes "no pinned artifacts for " ++ arch_name w.arch))
  picked (some a) = goes a

  pub pick_artifact : Step Artifact
  unfolding picked
  pick_artifact = picked (firecracker_artifact w.arch)

  -- resolveArtifact on the cache
  pub resolve : Bytes → Artifact → Step Located
  resolve name a st =
      let (located, store) =
        resolve_artifact w.outside flags.offline flags.cache name (w.path_join flags.cache name) a
          st.store in
      goes located (record st { store = store })

  abbrev pub firecracker_fetched : Bytes → Check
  firecracker_fetched path =
      addf (codes "boot.firecracker") (codes "Firecracker binary") Status.pass
        (path ++ (codes " (pinned " ++ (firecracker_version ++ codes ", checksum verified)")))

  pub found_firecracker : Located → Step Bytes
  found_firecracker (failed message) = return_with (
      fail (codes "boot.firecracker") (codes "Firecracker binary") message (
        codes "Supply one with -firecracker, or allow network access to fetch the pinned release."))
  found_firecracker (at_path path) = reporting path (firecracker_fetched path)

  pub fetch_firecracker : Artifact → Step Bytes
  unfolding resolve found_firecracker
  fetch_firecracker a = do
    located ← resolve (codes "firecracker-" ++ firecracker_version) a
    found_firecracker located

  abbrev pub firecracker_supplied : Check
  firecracker_supplied =
      addf (codes "boot.firecracker") (codes "Firecracker binary") Status.info
        (flags.firecracker ++ codes " (supplied, not checksum-verified)")

  pub find_firecracker : Artifact → Step Bytes
  unfolding fetch_firecracker
  find_firecracker a =
      if is_empty flags.firecracker
      then fetch_firecracker a
      else reporting flags.firecracker firecracker_supplied

  abbrev pub kernel_fetched : Bytes → Check
  kernel_fetched path =
      warn (codes "boot.kernel") (codes "Guest kernel")
        (codes "using Firecracker's CI kernel (" ++ (base_name path ++ codes "), not Fly's"))
        (codes
          "This proves the host boots a microVM. It does not prove it boots Fly's guest kernel. Re-run with -kernel pointing at Fly's vmlinux once it is available; the config it is built with is in reference/ for comparison in the meantime.")

  pub found_kernel : Located → Step Bytes
  found_kernel (failed message) = return_with (
      fail (codes "boot.kernel") (codes "Guest kernel") message
        (codes "Supply one with -kernel, or allow network access to fetch the pinned CI kernel."))
  found_kernel (at_path path) = reporting path (kernel_fetched path)

  pub fetch_kernel : Step Bytes
  unfolding resolve found_kernel
  fetch_kernel = do
    located ← resolve (codes "vmlinux-6.1.141") (guest_kernel_artifact w.arch)
    found_kernel located

  abbrev pub kernel_supplied : Check
  kernel_supplied =
      addf (codes "boot.kernel") (codes "Guest kernel") Status.pass
        (flags.kernel ++ codes " (supplied)")

  pub find_kernel : Step Bytes
  unfolding fetch_kernel
  find_kernel =
      if is_empty flags.kernel then fetch_kernel else reporting flags.kernel kernel_supplied

  -- `r.Fail("boot.initramfs", "Build initramfs", …, "")`
  abbrev pub initramfs_fails : Bytes → Check
  initramfs_fails detail = fail (codes "boot.initramfs") (codes "Build initramfs") detail []

  pub located_self : Outcome Bytes → Step Bytes
  located_self (err e) = return_with (initramfs_fails (codes "locate own binary: " ++ e.message))
  located_self (ok self) = goes self

  pub own_path : Step Bytes
  unfolding located_self
  own_path = located_self w.executable

  abbrev pub linkage_static : Check
  linkage_static =
      addf (codes "boot.initramfs.linkage") (codes "Statically linked") Status.pass
        (codes "no interpreter; the guest can exec this as init")

  abbrev pub linkage_unknown : OsError → Check
  linkage_unknown e =
      warn (codes "boot.initramfs.linkage") (codes "Statically linked")
        (codes "could not parse own ELF headers: " ++ e.message)
        (codes
          "Proceeding anyway. If the guest panics with \"Failed to execute /init (error -2)\", this binary is dynamically linked and must be rebuilt with CGO_ENABLED=0.")

  pub judge_linkage : Outcome Interpreter → Step (Unit {0})
  judge_linkage (err e) = reporting tt (linkage_unknown e)
  judge_linkage (ok (interp, true)) = return_with (
      fail (codes "boot.initramfs.linkage") (codes "Statically linked")
        (codes "this binary is dynamically linked (interpreter " ++ (interp ++ codes ")"))
        (codes
          "The guest is this binary and nothing else -- no libc, no dynamic loader -- so a dynamically linked build cannot be exec'd as init and the guest would panic with \"Failed to execute /init (error -2)\". Rebuild with CGO_ENABLED=0 (`make release`, or `CGO_ENABLED=0 go build`), or use a release binary. Plain `go build` produces a dynamic binary on any host that has a C compiler."))
  judge_linkage (ok (interp, false)) = reporting tt linkage_static

  pub read_self : Outcome Bytes → Step Bytes
  read_self (err e) = return_with (initramfs_fails (codes "read own binary: " ++ e.message))
  read_self (ok bytes) = goes bytes

  pub own_bytes : Bytes → Step Bytes
  unfolding read_self
  own_bytes self = read_self (w.read_file self)

  pub made_dir : Outcome Bytes → Step Bytes
  made_dir (err e) =
      return_with (fail (codes "boot.workdir") (codes "Working directory") e.message [])
  made_dir (ok dir) = λ st. goes dir (record st { temps = dir ∷ st.temps })

  pub make_dir : Step Bytes
  unfolding made_dir
  make_dir = made_dir w.mkdir_temp

  abbrev pub packed_note : Bytes → Check
  packed_note bytes =
      addf (codes "boot.initramfs") (codes "Build initramfs") Status.pass
        (codes "packed this binary as /init (" ++ (itoa (length bytes / 2 ^ 20) ++ codes " MiB)"))

  pub packed : Option OsError → Bytes → Step (Unit {0})
  packed (some e) bytes = return_with (initramfs_fails e.message)
  packed none bytes = reporting tt (packed_note bytes)

  pub pack : Bytes → Bytes → Step (Unit {0})
  unfolding packed
  pack path bytes = packed (w.write_file path (build_initramfs bytes)) bytes

  -- The boots: one in place, several as they arrive. `none` where `make` or an index panics.
  unfoldable pub boot_all : (ℕ → VmOutcome) → ℤ → Option (List VmOutcome)
  unfolding indices
  boot_all boot (negsuc n) = none
  boot_all boot (pos n) =
      if not (w.can_make n)
      then none
      else if n == 1
      then some (boot 0 ∷ [])
      else collect (w.arrive (map boot (indices 0 n))) (replicate n (new_outcome 0))

  -- judgeOutcomes on what the boots gave
  pub judge : Option (List VmOutcome) → Step (Unit {0})
  judge none st = panics st
  judge (some outcomes) st = elim (judge_outcomes w.ops flags.guest_net outcomes st.report) [
    | none ↦ panics st
    | some after ↦ returns (record st { report = after })
  ]

  -- From the initramfs to the verdict, in the directory.
  pub boot_in : Bytes → Bytes → Bytes → Bytes → Step (Unit {0})
  unfolding pack boot_all judge outcome_of
  boot_in fc_bin kernel bytes dir = do
    pack (w.path_join dir (codes "initramfs.cpio")) bytes
    judge (
        boot_all (outcome_of w flags fc_bin kernel (w.path_join dir (codes "initramfs.cpio")) dir)
          flags.vms)

  pub in_dir : Bytes → Bytes → Bytes → Step (Unit {0})
  unfolding make_dir boot_in remove_dir
  in_dir fc_bin kernel bytes = do
    dir ← make_dir
    λ st. remove_dir dir (boot_in fc_bin kernel bytes dir st)

  -- From the linkage of the program on.
  pub boot_self : Bytes → Bytes → Bytes → Step (Unit {0})
  unfolding judge_linkage own_bytes in_dir
  boot_self fc_bin kernel self = do
    judge_linkage (elf_interpreter (w.open_elf self))
    bytes ← own_bytes self
    in_dir fc_bin kernel bytes

  -- From the Firecracker binary on.
  pub boot_with : Artifact → Step (Unit {0})
  unfolding find_firecracker find_kernel own_path boot_self
  boot_with art = do
    fc_bin ← find_firecracker art
    kernel ← find_kernel
    self ← own_path
    boot_self fc_bin kernel self

  pub stage : Step (Unit {0})
  unfolding require_root pick_artifact boot_with
  stage = do require_root; art ← pick_artifact; boot_with art

  -- runBootStage; `none` where it panics
  unfoldable pub run_boot_stage : Store → Report → Option Report
  unfolding stage ended
  run_boot_stage store r = ended (stage (record { report = r; store = store; temps = [] }))
