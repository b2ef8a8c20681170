-- ===== src/Main/Verdict.antt =====
-- main.go: the exit code of a run with the boot stage, from the machine and from what the stage meets.
use fc_preflight.Prelude.{
  ℕ, suc, Bool, true, false, not, ◌&&◌, ◌||◌, Option, some, List, [], ◌==◌, ◌≡◌, sym, ap, ◌∙◌,
  arith, Bool-cases, inl, inr, if◌then◌else◌,
}
use fc_preflight.Prelude.Int.{pos}
use fc_preflight.Text.{codes}
use fc_preflight.Status.{Status}
use fc_preflight.Report.{Report, new_report, finish}
use fc_preflight.Report.Serious.{check_laws, has-fail, has-blocked}
use fc_preflight.Report.Verdict.{has, finish-verdict}
use fc_preflight.Gate.{has_blocking_kvm_failure}
use fc_preflight.GuestNet.{resolved, resolve_guest_net}
use fc_preflight.Host.Preflight.{run_preflight}
use fc_preflight.Host.Preflight.Verdict.{
  has-fail-run_preflight, has-blocked-run_preflight, unsuitable, kvm_undetermined,
}
use mathlib.Core.List.{Perm}
use fc_preflight.Guest.Types.{VmOutcome}
use fc_preflight.Boot.Stage.{run_boot_stage}
use fc_preflight.Boot.Stage.Fails.{stage_fails}
use fc_preflight.Boot.Stage.Verdict.{run_boot_stage_verdict}
use fc_preflight.Main.{
  accepted, boot_world, Flags, Environment, reports, has_arg, run_all, exit_code, conclude, end_run,
  run,
}
use fc_preflight.Main.Exit.{
  exit_code-verdict, start, run-all, run_all-boots, run_all-skips, checked, skipped,
}

-- Without a JSON file the report is rendered, with the code that its results call for.
end_run-code :
    (env : Environment) (flags : Flags) (x : Report) (f b : Bool)
    → flags.json ≡ []
    → has Status.fail x.results ≡ f
    → has Status.blocked x.results ≡ b
    → end_run env flags (some x)
      ≡ reports (if f then 1 else if b then 3 else 0) (finish env.elapsed x)
unfolding end_run conclude
end_run-code env flags x f b j h k = rw j (
    ap (λ code. reports code (finish env.elapsed x))
      (ap exit_code (finish-verdict env.elapsed x) ∙ rw (h, k) (exit_code-verdict f b)))

module _ (env : Environment) (flags : Flags) (base n : ℕ)
    (as_host : env.pid == 1 || has_arg env.args (codes "-guest") ≡ false)
    (linux : env.on_linux ≡ true)
    (ranged : resolve_guest_net env.parse_cidr flags.boot.guest_net flags.boot.vms ≡ resolved base)
    (several : flags.boot.vms ≡ pos (suc n)) (room : env.surroundings.can_make (suc n) ≡ true)
    (delivers : (outcomes : List VmOutcome) → Perm outcomes (env.surroundings.arrive outcomes))
    (no_file : flags.json ≡ []) where
  -- The boot stage records a failure; it is blocked.
  abbrev pub boot_fails : Bool
  boot_fails = stage_fails (boot_world env base) flags.boot env.store

  abbrev pub boot_blocked : Bool
  boot_blocked = not ((boot_world env base).euid == 0)

  -- The preflight holds the boot stage back.
  abbrev pub gated : Bool
  gated = has_blocking_kvm_failure (run_preflight env.machine (start env flags))

  abbrev before : Report
  before = checked env flags base as_host linux ranged

  abbrev boots : Report → Option Report
  boots = run_boot_stage (boot_world env base) flags.boot env.store

  fail-before : has Status.fail before.results ≡ unsuitable env.machine
  unfolding new_report
  fail-before = has-fail-run_preflight env.machine (start env flags)

  blocked-before : has Status.blocked before.results ≡ kvm_undetermined env.machine
  unfolding new_report
  blocked-before = has-blocked-run_preflight env.machine (start env flags)

  -- The results of `-stage all` that bear on the verdict.
  run_all_results :
      (after : Report) × (run_all env.machine boots (start env flags) ≡ some after)
      × (has Status.fail after.results ≡ unsuitable env.machine || (not gated && boot_fails))
      × (has Status.blocked after.results
          ≡ kvm_undetermined env.machine || (not gated && boot_blocked))
  run_all_results = elim (Bool-cases gated) [
    | inl t ↦
        let held : Report = skipped env flags base as_host linux ranged in
        let f : has Status.fail held.results ≡ has Status.fail before.results =
          has-fail held.results ∙ (simp check_laws) ∙ sym (has-fail before.results) in
        let b : has Status.blocked held.results ≡ has Status.blocked before.results =
          has-blocked held.results ∙ (simp check_laws) ∙ sym (has-blocked before.results) in
        (
          held,
          run_all-skips env flags base as_host linux ranged t,
          ground (arith, f, fail-before, t),
          ground (arith, b, blocked-before, t),
        )
    | inr t ↦
        let (after, e, f, b) =
          run_boot_stage_verdict (boot_world env base) flags.boot n env.store before several room
            delivers in
        (
          after,
          run_all-boots env flags base as_host linux ranged t ∙ e,
          ground (arith, f, fail-before, t),
          ground (arith, b, blocked-before, t),
        )
  ]

  pub run-all_verdict :
      flags.stage ≡ codes "all"
      → (after : Report) × (run_all env.machine
            (run_boot_stage (boot_world env base) flags.boot env.store)
            (start env flags)
          ≡ some after)
        × (run env (accepted flags)
            ≡ reports
                (if unsuitable env.machine || (not gated && boot_fails)
                  then 1
                  else if kvm_undetermined env.machine || (not gated && boot_blocked)
                  then 3
                  else 0)
                (finish env.elapsed after))
  run-all_verdict s =
      let (after, e, f, b) = run_all_results in
      (
        after,
        e,
        run-all env flags base as_host linux ranged s
            ∙ ap (end_run env flags) e
            ∙ end_run-code env flags after _ _ no_file f b,
      )
