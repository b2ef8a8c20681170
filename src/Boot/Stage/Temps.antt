-- ===== src/Boot/Stage/Temps.antt =====
-- boot_linux.go: the temporary directory of the boot stage.
use fc_preflight.Prelude.{
  Bool, true, false, not, Option, none, some, List, ◌∷◌, ◌≡◌, refl, ◌∙◌, if◌then◌else◌, ◌==◌,
}
use fc_preflight.Text.{equal_refl, Bytes, codes, is_empty}
use fc_preflight.Report.{Report}
use fc_preflight.Host.Machine.{Outcome, ok, err, OsError}
use fc_preflight.Artifact.{Artifact, Located, at_path, failed}
use fc_preflight.Initramfs.{build_initramfs}
use fc_preflight.Guest.Types.{VmOutcome}
use fc_preflight.Boot.Elf.{Interpreter, elf_interpreter}
use fc_preflight.Boot.Judge.{judge_outcomes}
use fc_preflight.Boot.Pins.{firecracker_artifact}
use fc_preflight.Boot.Flow.{
  BootFlags, BootWorld, BootState, Flow, goes, returns, panics, Step, ◌>>=◌, without_dir,
  remove_dir, outcome_of,
}
use fc_preflight.Boot.Stage.{
  boot_all, judge, pack, packed, made_dir, read_self, located_self, picked, boot_in, in_dir,
  make_dir, own_bytes, judge_linkage, own_path, boot_self, find_kernel, found_kernel, fetch_kernel,
  find_firecracker, found_firecracker, fetch_firecracker, resolve, boot_with, pick_artifact,
  require_root, stage,
}

-- The temporary directories that exist once the flow has ended.
unfoldable pub temps_of {ℓ} : {A : Type ℓ} → Flow A → List Bytes
temps_of (goes a st) = st.temps
temps_of (returns st) = st.temps
temps_of (panics st) = st.temps

-- A step that leaves the temporary directories as they were.
record Keeps {ℓ} {A : Type ℓ} (m : Step A) : Type ℓ where
  keeps : (st : BootState) → temps_of (m st) ≡ st.temps

after_flow {ℓ κ} :
    {A : Type ℓ} {B : Type κ} (flow : Flow A) (k : A → Step B) (ts : List Bytes) (st : BootState)
    → temps_of flow ≡ ts
    → ((a : A) → Keeps (k a))
    → temps_of (((λ (s : BootState). flow) >>= k) st) ≡ ts
unfolding temps_of
after_flow (goes a after) k ts st e h = (h a).keeps after ∙ e
after_flow (returns after) k ts st e h = e
after_flow (panics after) k ts st e h = e

bind-Keeps {ℓ κ} :
    {A : Type ℓ} {B : Type κ} (m : Step A) (k : A → Step B)
    → Keeps m
    → ((a : A) → Keeps (k a))
    → Keeps (m >>= k)
bind-Keeps m k h g = record { keeps = λ st. after_flow (m st) k st.temps st (h.keeps st) g }

if-Keeps {ℓ} :
    {A : Type ℓ} (t : Bool) (m k : Step A) → Keeps m → Keeps k → Keeps (if t then m else k)
if-Keeps true m k h g = h
if-Keeps false m k h g = g

-- Removing the directory that was just made.
removed :
    {A : Type 0} (dir : Bytes) (flow : Flow A) (ts : List Bytes)
    → temps_of flow ≡ dir ∷ ts
    → temps_of (remove_dir dir flow) ≡ ts
unfolding remove_dir temps_of without_dir
removed dir (goes a st) ts e = rw (e, equal_refl dir) refl
removed dir (returns st) ts e = rw (e, equal_refl dir) refl
removed dir (panics st) ts e = rw (e, equal_refl dir) refl

module _ (w : BootWorld) (flags : BootFlags) where
  require_root-Keeps : Keeps (require_root w flags)
  unfolding require_root temps_of
  require_root-Keeps =
      if-Keeps (not (w.euid == 0)) _ _ (record { keeps = λ st. refl })
        (record { keeps = λ st. refl })

  picked-Keeps : (pin : Option Artifact) → Keeps (picked w flags pin)
  unfolding picked temps_of
  picked-Keeps none = record { keeps = λ st. refl }
  picked-Keeps (some art) = record { keeps = λ st. refl }

  resolve-Keeps : (name : Bytes) (art : Artifact) → Keeps (resolve w flags name art)
  unfolding resolve temps_of
  resolve-Keeps name art = record { keeps = λ st. refl }

  found_firecracker-Keeps : (located : Located) → Keeps (found_firecracker w flags located)
  unfolding found_firecracker temps_of
  found_firecracker-Keeps (failed message) = record { keeps = λ st. refl }
  found_firecracker-Keeps (at_path path) = record { keeps = λ st. refl }

  found_kernel-Keeps : (located : Located) → Keeps (found_kernel w flags located)
  unfolding found_kernel temps_of
  found_kernel-Keeps (failed message) = record { keeps = λ st. refl }
  found_kernel-Keeps (at_path path) = record { keeps = λ st. refl }

  find_firecracker-Keeps : (art : Artifact) → Keeps (find_firecracker w flags art)
  unfolding find_firecracker fetch_firecracker temps_of
  find_firecracker-Keeps art =
      if-Keeps (is_empty flags.firecracker) _ _
        (bind-Keeps _ _ (resolve-Keeps _ art) found_firecracker-Keeps)
        (record { keeps = λ st. refl })

  find_kernel-Keeps : Keeps (find_kernel w flags)
  unfolding find_kernel fetch_kernel temps_of
  find_kernel-Keeps =
      if-Keeps (is_empty flags.kernel) _ _ (bind-Keeps _ _ (resolve-Keeps _ _) found_kernel-Keeps)
        (record { keeps = λ st. refl })

  located_self-Keeps : (answer : Outcome Bytes) → Keeps (located_self w flags answer)
  unfolding located_self temps_of
  located_self-Keeps (err e) = record { keeps = λ st. refl }
  located_self-Keeps (ok self) = record { keeps = λ st. refl }

  judge_linkage-Keeps : (answer : Outcome Interpreter) → Keeps (judge_linkage w flags answer)
  unfolding judge_linkage temps_of
  judge_linkage-Keeps (err e) = record { keeps = λ st. refl }
  judge_linkage-Keeps (ok (interp, true)) = record { keeps = λ st. refl }
  judge_linkage-Keeps (ok (interp, false)) = record { keeps = λ st. refl }

  read_self-Keeps : (answer : Outcome Bytes) → Keeps (read_self w flags answer)
  unfolding read_self temps_of
  read_self-Keeps (err e) = record { keeps = λ st. refl }
  read_self-Keeps (ok bytes) = record { keeps = λ st. refl }

  packed-Keeps : (answer : Option OsError) (bytes : Bytes) → Keeps (packed w flags answer bytes)
  unfolding packed temps_of
  packed-Keeps (some e) bytes = record { keeps = λ st. refl }
  packed-Keeps none bytes = record { keeps = λ st. refl }

  keeps_judged :
      (answer : Option Report) (st : BootState)
      → temps_of {A = Unit {0}}
          (elim answer [ none ↦ panics st | some after ↦ returns (record st { report = after }) ])
        ≡ st.temps
  unfolding temps_of
  keeps_judged none st = refl
  keeps_judged (some after) st = refl

  judge-Keeps : (outcomes : Option (List VmOutcome)) → Keeps (judge w flags outcomes)
  unfolding judge temps_of
  judge-Keeps none = record { keeps = λ st. refl }
  judge-Keeps (some outcomes) = record {
    keeps = λ st. keeps_judged (judge_outcomes w.ops flags.guest_net outcomes st.report) st;
  }

  boot_in-Keeps :
      (fc_bin kernel bytes dir : Bytes) → Keeps (boot_in w flags fc_bin kernel bytes dir)
  unfolding boot_in pack
  boot_in-Keeps fc_bin kernel bytes dir =
      bind-Keeps _ _
        (packed-Keeps
          (w.write_file (w.path_join dir (codes "initramfs.cpio")) (build_initramfs bytes)) bytes)
        (λ u. judge-Keeps (
          boot_all w flags
            (outcome_of w flags fc_bin kernel (w.path_join dir (codes "initramfs.cpio")) dir)
            flags.vms))

  after_made :
      (answer : Outcome Bytes) (fc_bin kernel bytes : Bytes)
      → Keeps (
          made_dir w flags answer >>= λ dir inside.
          remove_dir dir (boot_in w flags fc_bin kernel bytes dir inside))
  unfolding made_dir temps_of
  after_made (err e) fc_bin kernel bytes = record { keeps = λ st. refl }
  after_made (ok dir) fc_bin kernel bytes = record {
    keeps = λ st.
        removed dir (boot_in w flags fc_bin kernel bytes dir (record st { temps = dir ∷ st.temps }))
          st.temps
          ((boot_in-Keeps fc_bin kernel bytes dir).keeps (record st { temps = dir ∷ st.temps }));
  }

  in_dir-Keeps : (fc_bin kernel bytes : Bytes) → Keeps (in_dir w flags fc_bin kernel bytes)
  unfolding in_dir make_dir
  in_dir-Keeps = after_made w.mkdir_temp

  boot_self-Keeps : (fc_bin kernel self : Bytes) → Keeps (boot_self w flags fc_bin kernel self)
  unfolding boot_self own_bytes
  boot_self-Keeps fc_bin kernel self =
      bind-Keeps _ _ (judge_linkage-Keeps (elf_interpreter (w.open_elf self)))
        (λ u. bind-Keeps _ _ (read_self-Keeps (w.read_file self)) (in_dir-Keeps fc_bin kernel))

  boot_with-Keeps : (art : Artifact) → Keeps (boot_with w flags art)
  unfolding boot_with own_path
  boot_with-Keeps art = bind-Keeps _ _ (find_firecracker-Keeps art) (λ fc_bin.
      bind-Keeps _ _ find_kernel-Keeps (λ kernel.
        bind-Keeps _ _ (located_self-Keeps w.executable) (boot_self-Keeps fc_bin kernel)))

  -- However the boot stage ends, by an early return, at its end or by a panic, the temporary
  -- directories that exist then are those that existed before.
  pub stage-temps : (st : BootState) → temps_of (stage w flags st) ≡ st.temps
  unfolding stage pick_artifact
  stage-temps st =
      (bind-Keeps _ _ require_root-Keeps
          (λ u. bind-Keeps _ _ (picked-Keeps (firecracker_artifact w.arch)) boot_with-Keeps)).keeps
        st
