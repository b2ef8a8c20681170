-- ===== src/Boot/Flow.antt =====
-- boot_linux.go: what the boot stage reads, the state that it passes on, and how it ends.
use fc_preflight.Prelude.{ℕ, zero, suc, ◌+◌, Bool, Option, none, some, List, [], ◌∷◌, if◌then◌else◌}
use fc_preflight.Prelude.Int.{ℤ}
use fc_preflight.Float.{FloatOps}
use fc_preflight.Text.{Bytes, equal}
use fc_preflight.Report.{Report, Check}
use fc_preflight.Host.Machine.{Arch, OsError, Outcome}
use fc_preflight.Artifact.{Store, Outside}
use fc_preflight.Guest.Types.{VmOutcome}
use fc_preflight.Boot.Elf.{Prog}
use fc_preflight.Boot.One.{VmFlags, VmWorld, boot_one}

-- The flags that the stage reads, those of a single microVM included.
pub record BootFlags : Type 0 where
  pub firecracker : Bytes
  pub kernel : Bytes
  pub cache : Bytes
  pub offline : Bool
  pub vms : ℤ
  pub guest_net : Bytes
  pub vm : VmFlags

-- What the stage asks of its surroundings: the user, filepath.Join, the program's own path, its ELF
-- headers and bytes, a temporary directory, writing a file (`some` for an error), the base of the
-- range, what each microVM meets, whether `make` can allot so many outcomes (it panics if not), and
-- the order in which the channel delivers what was sent.
pub record BootWorld : Type 0 where
  pub euid : ℕ
  pub arch : Arch
  pub outside : Outside
  pub path_join : Bytes → Bytes → Bytes
  pub executable : Outcome Bytes
  pub open_elf : Bytes → Outcome (List Prog)
  pub read_file : Bytes → Outcome Bytes
  pub mkdir_temp : Outcome Bytes
  pub write_file : Bytes → Bytes → Option OsError
  pub base : ℕ
  pub vm : ℕ → VmWorld
  pub can_make : ℕ → Bool
  pub arrive : List VmOutcome → List VmOutcome
  pub ops : FloatOps

-- The report, the files of the cache, and the temporary directories that exist.
pub record BootState : Type 0 where
  pub report : Report
  pub store : Store
  pub temps : List Bytes

-- A step goes on with a value, or returns from the stage; it also returns by a panic.
pub data Flow {ℓ} (A : Type ℓ) : Type ℓ where
  goes : A → BootState → Flow A
  returns : BootState → Flow A
  panics : BootState → Flow A

abbrev pub Step {ℓ} : Type ℓ → Type ℓ
Step A = BootState → Flow A

infixl 5 ◌>>=◌ ◌>>◌
abbrev pub ◌>>=◌ {ℓ κ} : {A : Type ℓ} {B : Type κ} → Step A → (A → Step B) → Step B
◌>>=◌ m f st = elim (m st) [
  | goes a st' ↦ f a st'
  | returns st' ↦ returns st'
  | panics st' ↦ panics st'
]

abbrev pub ◌>>◌ {ℓ κ} : {A : Type ℓ} {B : Type κ} → Step A → Step B → Step B
m >> k = m >>= λ _. k

abbrev pub reporting {ℓ} : {A : Type ℓ} → A → Check → Step A
reporting a check st = goes a (record st { report = check st.report })

abbrev pub return_with {ℓ} : {A : Type ℓ} → Check → Step A
return_with check st = returns (record st { report = check st.report })

unfoldable pub without_dir : Bytes → List Bytes → List Bytes
without_dir dir [] = []
without_dir dir (d ∷ ds) = let rest = d ∷ without_dir dir ds in if equal d dir then ds else rest

-- The report that a flow ends with; `none` after a panic.
unfoldable pub ended : {A : Type 0} → Flow A → Option Report
ended (goes a st) = some st.report
ended (returns st) = some st.report
ended (panics st) = none

-- What `defer os.RemoveAll(workDir)` does however the function ends.
unfoldable pub remove_dir : {A : Type 0} → Bytes → Flow A → Flow A
unfolding without_dir
remove_dir dir (goes a st) = goes a (record st { temps = without_dir dir st.temps })
remove_dir dir (returns st) = returns (record st { temps = without_dir dir st.temps })
remove_dir dir (panics st) = panics (record st { temps = without_dir dir st.temps })

-- The n indices from a first one on.
unfoldable pub indices : ℕ → ℕ → List ℕ
indices from zero = []
indices from (suc n) = from ∷ indices (from + 1) n

-- bootOne for a microVM, with the files that it is given; each sees its own surroundings only.
unfoldable pub outcome_of : BootWorld → BootFlags → Bytes → Bytes → Bytes → Bytes → ℕ → VmOutcome
unfolding boot_one
outcome_of w flags fc_bin kernel initramfs dir i =
    (boot_one (w.vm i) flags.vm w.base i fc_bin kernel initramfs dir []).0
