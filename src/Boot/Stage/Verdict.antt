-- ===== src/Boot/Stage/Verdict.antt =====
-- boot_linux.go: how the boot stage ends, from what its surroundings answer.
use fc_preflight.Prelude.{
  ℕ, suc, ◌++◌, Bool, true, false, not, ◌||◌, ◌&&◌, Option, none, some, List, [], ◌≡◌, refl, sym,
  inl, inr, arith, ◌==◌, Bool-cases,
}
use fc_preflight.Prelude.Int.{pos}
use fc_preflight.Text.{Bytes, codes, is_empty}
use fc_preflight.Status.{Status}
use fc_preflight.Report.{Report, Check}
use fc_preflight.Report.Seen.{seen, or-false}
use fc_preflight.Report.Serious.{serious, check_laws, has-fail, has-blocked}
use fc_preflight.Report.Verdict.{has}
use fc_preflight.Artifact.{Artifact, Store, Located, at_path, failed}
use fc_preflight.Boot.Pins.{firecracker_version, firecracker_artifact, guest_kernel_artifact}
use fc_preflight.Boot.Flow.{BootFlags, BootWorld, BootState, Flow, outcome_of, Step, ◌>>=◌, ended}
use fc_preflight.Guest.Types.{VmOutcome}
use fc_preflight.Boot.One.Course.{boot_one-index}
use mathlib.Core.List.{Perm}
use fc_preflight.Boot.Stage.Fails.{
  self_fails, located_fails, cached, kernel_fails, binary_fails, pinned_fails, stage_fails,
}
use fc_preflight.Boot.Stage.Ends.{Booted, boot_all-some, Ends, shift, same_reading, noted, failing}
use fc_preflight.Boot.Stage.{
  kernel_fetched, kernel_supplied, firecracker_fetched, firecracker_supplied, picked, own_path,
  boot_self, find_kernel, found_kernel, fetch_kernel, find_firecracker, found_firecracker,
  fetch_firecracker, resolve, boot_with, pick_artifact, require_root, stage, run_boot_stage,
}
use fc_preflight.Boot.Stage.Inside.{after_self}

module _ (w : BootWorld) (flags : BootFlags) where
  module _ (a b : Bool) where
    module _
        (boots : (fc_bin kernel initramfs dir : Bytes)
          → Booted w flags (outcome_of w flags fc_bin kernel initramfs dir)) where
      -- From the kernel on.
      abbrev boot_kernel : Bytes → Bytes → Step (Unit {0})
      boot_kernel fc_bin kernel = do self ← own_path w flags; boot_self w flags fc_bin kernel self

      boot_kernel-Ends :
          (fc_bin kernel : Bytes) (st : BootState)
          → Ends a b
              (self_fails w flags fc_bin kernel && a)
              st.report
              (boot_kernel fc_bin kernel st)
      unfolding own_path
      boot_kernel-Ends fc_bin kernel st = after_self w flags a b boots w.executable fc_bin kernel st

      after_kernel :
          (located : Located) (fc_bin : Bytes) (st : BootState)
          → Ends a b
              (located_fails located (self_fails w flags fc_bin) && a)
              st.report
              ((found_kernel w flags located >>= λ kernel. boot_kernel fc_bin kernel) st)
      unfolding found_kernel
      after_kernel (failed message) fc_bin st = failing a b _ _ _ _ st
      after_kernel (at_path path) fc_bin st =
          noted a b path (kernel_fetched w flags path) (boot_kernel fc_bin)
            (self_fails w flags fc_bin path && a) st (simp check_laws)
            (boot_kernel-Ends fc_bin path)

      find_kernel-Ends :
          (fc_bin : Bytes) (st : BootState)
          → Ends a b
              (kernel_fails w flags fc_bin st.store && a)
              st.report
              ((find_kernel w flags >>= λ kernel. boot_kernel fc_bin kernel) st)
      unfolding find_kernel fetch_kernel resolve
      find_kernel-Ends fc_bin st = elim (Bool-cases (is_empty flags.kernel)) [
        | inl t ↦
            rw (t, find_kernel)
              (after_kernel
                (cached w flags (codes "vmlinux-6.1.141") (guest_kernel_artifact w.arch) st.store).0
                fc_bin _)
        | inr t ↦
            rw (t, find_kernel)
              (noted a b flags.kernel (kernel_supplied w flags) (boot_kernel fc_bin)
                (self_fails w flags fc_bin flags.kernel && a) st (simp check_laws)
                (boot_kernel-Ends fc_bin flags.kernel))
      ]

      -- From the Firecracker binary on.
      abbrev boot_binary : Bytes → Step (Unit {0})
      boot_binary fc_bin = find_kernel w flags >>= λ kernel. boot_kernel fc_bin kernel

      -- The same, behind a result that the test passes over.
      boot_binary-Ends :
          (fc_bin : Bytes) (check : Check) (st : BootState)
          → seen (serious a b) (check st.report) ≡ seen (serious a b) st.report
          → Ends a b
              (kernel_fails w flags fc_bin st.store && a)
              st.report
              (boot_binary fc_bin (record st { report = check st.report }))
      boot_binary-Ends fc_bin check st quiet =
          shift a b (kernel_fails w flags fc_bin st.store && a) st.report (check st.report) _ quiet
            (find_kernel-Ends fc_bin (record st { report = check st.report }))

      after_binary :
          (located : Located) (st : BootState)
          → Ends a b
              (located_fails located (λ fc_bin. kernel_fails w flags fc_bin st.store) && a)
              st.report
              ((found_firecracker w flags located >>= boot_binary) st)
      unfolding found_firecracker
      after_binary (failed message) st = failing a b _ _ _ _ st
      after_binary (at_path path) st =
          boot_binary-Ends path (firecracker_fetched w flags path) st (simp check_laws)

      boot_with-Ends :
          (art : Artifact) (st : BootState)
          → Ends a b (binary_fails w flags art st.store && a) st.report (boot_with w flags art st)
      unfolding boot_with find_firecracker fetch_firecracker resolve
      boot_with-Ends art st = elim (Bool-cases (is_empty flags.firecracker)) [
        | inl t ↦
            let got = cached w flags (codes "firecracker-" ++ firecracker_version) art st.store in
            rw (t, find_firecracker) (after_binary got.0 (record st { store = got.1 }))
        | inr t ↦
            rw (t, find_firecracker)
              (boot_binary-Ends flags.firecracker (firecracker_supplied w flags) st
                (simp check_laws))
      ]

      after_pick :
          (pin : Option Artifact) (st : BootState)
          → Ends a b
              (pinned_fails w flags pin st.store && a)
              st.report
              ((picked w flags pin >>= λ art. boot_with w flags art) st)
      unfolding picked ended
      after_pick none st = (_, refl, simp check_laws)
      after_pick (some art) st = boot_with-Ends art st

      stage-Ends :
          (st : BootState)
          → Ends a b
              ((stage_fails w flags st.store && a) || (not (w.euid == 0) && b))
              st.report
              (stage w flags st)
      unfolding stage require_root pick_artifact ended
      stage-Ends st = elim (Bool-cases (w.euid == 0)) [
        | inl t ↦
            let p : Bool = pinned_fails w flags (firecracker_artifact w.arch) st.store in
            rw (t, stage, require_root)
              (same_reading a b (p && a) ((p && a) || false) st.report _ (sym (or-false (p && a)))
                (after_pick (firecracker_artifact w.arch) st))
        | inr t ↦ rw (t, stage, require_root) (_, refl, simp check_laws)
      ]

  -- The two tests read of the one report that the flow ends with.
  both :
      (flow : Flow (Unit {0})) (r : Report) (f b : Bool)
      → Ends true false (f && true || b && false) r flow
      → Ends false true (f && false || b && true) r flow
      → (after : Report) × (ended flow ≡ some after)
        × (has Status.fail after.results ≡ has Status.fail r.results || f)
        × (has Status.blocked after.results ≡ has Status.blocked r.results || b)
  both flow r f b (after, e, x) (other, e', y) =
      let same_report : other ≡ after = cc (e, e') in
      (
        after,
        e,
        ground (arith, x, has-fail after.results, has-fail r.results),
        ground (arith, y, same_report, has-blocked after.results, has-blocked r.results),
      )

  pub run_boot_stage_verdict :
      (n : ℕ) (store : Store) (r : Report)
      → flags.vms ≡ pos (suc n)
      → w.can_make (suc n) ≡ true
      → ((outcomes : List VmOutcome) → Perm outcomes (w.arrive outcomes))
      → (after : Report) × (run_boot_stage w flags store r ≡ some after)
        × (has Status.fail after.results ≡ has Status.fail r.results || stage_fails w flags store)
        × (has Status.blocked after.results ≡ has Status.blocked r.results || not (w.euid == 0))
  unfolding run_boot_stage outcome_of
  run_boot_stage_verdict n store r several room delivers =
      let st : BootState = record { report = r; store = store; temps = [] } in
      let boots : (fc_bin kernel initramfs dir : Bytes)
          → Booted w flags (outcome_of w flags fc_bin kernel initramfs dir) =
        λ fc_bin kernel initramfs dir.
          boot_all-some w flags (outcome_of w flags fc_bin kernel initramfs dir) n several room
            delivers
            (λ i. boot_one-index (w.vm i) flags.vm w.base i fc_bin kernel initramfs dir []) in
      both (stage w flags st) r (stage_fails w flags store) (not (w.euid == 0))
        (stage-Ends true false boots st) (stage-Ends false true boots st)
