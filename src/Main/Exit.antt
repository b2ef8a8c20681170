-- ===== src/Main/Exit.antt =====
-- main.go: what the exit code of a run says.
use fc_preflight.Prelude.{
  ℕ, Bool, true, false, ◌||◌, Option, none, some, List, [], ◌∷◌, ◌==◌, ◌≡◌, ◌≢◌, refl, sym, ap, ◌∙◌,
  arith, any, any-append, Bool-cases, inl, inr, if◌then◌else◌,
}
use fc_preflight.Text.{Bytes, codes, equal}
use fc_preflight.Status.{Status, same}
use fc_preflight.Report.{Result, Report, new_report, addf, add, finish}
use fc_preflight.Report.Verdict.{has, expected_verdict, finish-verdict}
use fc_preflight.Gate.{has_blocking_kvm_failure, has_blocking_kvm_failure-any, stops_boot}
use fc_preflight.GuestNet.{resolved, resolve_guest_net}
use fc_preflight.Host.Preflight.{run_preflight}
use fc_preflight.Host.Preflight.Verdict.{
  has-fail-run_preflight, has-blocked-run_preflight, unsuitable, kvm_undetermined,
  run_preflight_verdict,
}
use fc_preflight.Boot.Stage.{run_boot_stage}
use fc_preflight.Main.{
  accepted, parse_flags, boot_world, Flags, Environment, Ending, reports, has_arg, run_all,
  run_stage, exit_code, conclude, end_run, run_host, run,
}

pub exit_code-verdict :
    (u k : Bool)
    → exit_code (if u then Status.fail else if k then Status.blocked else Status.pass)
      ≡ (if u then 1 else if k then 3 else 0)
unfolding exit_code
exit_code-verdict true k = refl
exit_code-verdict false true = refl
exit_code-verdict false false = refl

stops_boot-status :
    (res : Result)
    → stops_boot res ≡ true
    → same res.status Status.fail || same res.status Status.blocked ≡ true
stops_boot-status res h = ground (arith, h)

stops_boot-has :
    (rs : List Result)
    → any stops_boot rs ≡ true
    → has Status.fail rs || has Status.blocked rs ≡ true
stops_boot-has [] h = h
stops_boot-has (res ∷ rs) h = elim (Bool-cases (stops_boot res)) [
  | inl t ↦ ground (arith, stops_boot-status res t)
  | inr t ↦ ground (arith, t, h, stops_boot-has rs)
]

-- A report that holds the boot stage back never has the exit code 0.
held_back : (rs : List Result) → any stops_boot rs ≡ true → exit_code (expected_verdict rs) ≢ 0
unfolding exit_code
held_back rs h e = elim (Bool-cases (has Status.fail rs)) [
  | inl f ↦ absurd (grind (arith, f, e))
  | inr f ↦ elim (Bool-cases (has Status.blocked rs)) [
    | inl b ↦ absurd (grind (arith, f, b, e))
    | inr b ↦ absurd (ground (arith, f, b, stops_boot-has rs h))
  ]
]

no_gate :
    (r : Report)
    → has Status.fail r.results ≡ false
    → has Status.blocked r.results ≡ false
    → has_blocking_kvm_failure r ≡ false
no_gate r f b = elim (Bool-cases (has_blocking_kvm_failure r)) [
  | inr t ↦ t
  | inl t ↦
      absurd
        (ground (arith, f, b, stops_boot-has r.results (sym (has_blocking_kvm_failure-any r) ∙ t)))
]

code_of : Ending → ℕ
code_of (reports code r) = code
code_of _ = 0

report_of : Report → Ending → Report
report_of r (reports code d) = d
report_of r _ = r

written :
    (b : Bool) (code : ℕ) (d r : Report)
    → (if b then reports 1 d else reports code d) ≡ reports 0 r
    → (code ≡ 0) × (d ≡ r)
unfolding code_of report_of
written true code d r e = absurd (omega (arith, ap code_of e))
written false code d r e = (ap code_of e, ap (report_of d) e)

-- A run that concludes with 0 rendered the finished report, whose verdict has the code 0.
conclude-success :
    (env : Environment) (flags : Flags) (x r : Report)
    → conclude env flags x ≡ reports 0 r
    → (exit_code (expected_verdict x.results) ≡ 0) × (finish env.elapsed x ≡ r)
unfolding conclude
conclude-success env flags x r e =
    let (c, d) = written _ _ (finish env.elapsed x) r e in
    (ap exit_code (sym (finish-verdict env.elapsed x)) ∙ c, d)

end_run-success :
    (env : Environment) (flags : Flags) (x : Option Report) (r : Report)
    → end_run env flags x ≡ reports 0 r
    → (after : Report) × (x ≡ some after)
      × (exit_code (expected_verdict after.results) ≡ 0)
      × (finish env.elapsed after ≡ r)
unfolding end_run code_of
end_run-success env flags none r e = absurd (cc e)
end_run-success env flags (some x) r e =
    let (code, eq) = conclude-success env flags x r e in (x, refl, code, eq)

-- The report with the boot stage held back keeps the results that hold it back.
skipped_stops :
    (id title detail : Bytes) (r : Report)
    → has_blocking_kvm_failure r ≡ true
    → any stops_boot (addf id title Status.skip detail r).results ≡ true
unfolding addf add
skipped_stops id title detail r h =
    any-append stops_boot r.results _ ∙ ground (arith, h, has_blocking_kvm_failure-any r)

-- The report of a new run, before any stage.
abbrev pub start : Environment → Flags → Report
start env flags = new_report env.hostname env.now flags.verbose

module _ (env : Environment) (flags : Flags) (base : ℕ)
    (as_host : env.pid == 1 || has_arg env.args (codes "-guest") ≡ false)
    (linux : env.on_linux ≡ true)
    (ranged : resolve_guest_net env.parse_cidr flags.boot.guest_net flags.boot.vms
      ≡ resolved base) where
  -- The boot stage for the base of the range.
  abbrev boots : Report → Option Report
  boots = run_boot_stage (boot_world env base) flags.boot env.store

  pub run-stage :
      run env (accepted flags)
      ≡ end_run env flags (run_stage env.machine boots flags.stage (start env flags))
  unfolding run parse_flags run_host
  run-stage = rw (as_host, linux, ranged) refl

  -- With `-stage preflight` and no JSON file, a run that is not the guest's init, on Linux and with
  -- flags and a -guest-net that are accepted, renders the report of the preflight and exits with 1
  -- exactly if the machine is unsuitable (which includes EPT or NPT off and a kernel configuration
  -- without a needed option), otherwise with 3 if /dev/kvm is refused to a user who is not root,
  -- and otherwise with 0.
  pub run-preflight :
      flags.stage ≡ codes "preflight"
      → flags.json ≡ []
      → run env (accepted flags)
        ≡ reports
            (if unsuitable env.machine then 1 else if kvm_undetermined env.machine then 3 else 0)
            (finish env.elapsed (run_preflight env.machine (start env flags)))
  unfolding run_stage end_run conclude codes equal
  run-preflight s j =
      run-stage
      ∙ rw (s, j)
          (ap
            (λ code.
              reports code (finish env.elapsed (run_preflight env.machine (start env flags))))
            (ap exit_code
                (run_preflight_verdict env.machine env.hostname env.now env.elapsed flags.verbose)
              ∙ exit_code-verdict (unsuitable env.machine) (kvm_undetermined env.machine)))

  pub run-all :
      flags.stage ≡ codes "all"
      → run env (accepted flags) ≡ end_run env flags (run_all env.machine boots (start env flags))
  unfolding run_stage conclude codes equal
  run-all s = run-stage ∙ rw s refl

  abbrev pub checked : Report
  checked = run_preflight env.machine (start env flags)

  pub run_all-boots :
      has_blocking_kvm_failure checked ≡ false
      → run_all env.machine boots (start env flags) ≡ boots checked
  unfolding run_all
  run_all-boots t = rw t refl

  -- The report in which the boot stage is held back.
  abbrev pub skipped : Report
  skipped =
      addf (codes "boot.skipped") (codes "Boot stage") Status.skip
        (codes
          "skipped: the preflight found a blocking KVM failure, so booting would only restate it with less detail")
        checked

  pub run_all-skips :
      has_blocking_kvm_failure checked ≡ true
      → run_all env.machine boots (start env flags) ≡ some skipped
  unfolding run_all
  run_all-skips t = rw t refl

  -- With `-stage all` on a machine that is neither unsuitable nor refuses /dev/kvm, a run that is
  -- not the guest's init, on Linux and with flags and a -guest-net that are accepted, launches the
  -- boot stage on the report of the preflight, for the base of the range, and concludes with what
  -- it adds.
  pub run-all_suitable :
      flags.stage ≡ codes "all"
      → unsuitable env.machine ≡ false
      → kvm_undetermined env.machine ≡ false
      → run env (accepted flags)
        ≡ end_run env flags (
            run_boot_stage
              (boot_world env base)
              flags.boot
              env.store
              (run_preflight env.machine (start env flags)))
  unfolding new_report
  run-all_suitable s u k =
      run-all s
      ∙ ap (end_run env flags) (
          run_all-boots (
            no_gate checked (has-fail-run_preflight env.machine (start env flags) ∙ u)
              (has-blocked-run_preflight env.machine (start env flags) ∙ k)))

  -- With `-stage all`, if a run that is not the guest's init, on Linux and with flags and a
  -- -guest-net that are accepted, exits with 0, then hasBlockingKVMFailure is false of the
  -- preflight's report, and the boot stage was launched on that report, came to its end, and gave
  -- the report that is rendered.
  pub run-all_success :
      (r : Report)
      → flags.stage ≡ codes "all"
      → run env (accepted flags) ≡ reports 0 r
      → (has_blocking_kvm_failure (run_preflight env.machine (start env flags)) ≡ false)
        × (after : Report) × (run_boot_stage
              (boot_world env base)
              flags.boot
              env.store
              (run_preflight env.machine (start env flags))
            ≡ some after)
        × (r ≡ finish env.elapsed after)
  unfolding end_run
  run-all_success r s e = elim (Bool-cases (has_blocking_kvm_failure checked)) [
    | inl t ↦
        let (code, eq) =
          conclude-success env flags skipped r
            (sym (run-all s ∙ ap (end_run env flags) (run_all-skips t)) ∙ e) in
        absurd (held_back skipped.results (skipped_stops _ _ _ checked t) code)
    | inr t ↦
        let (after, b, code, eq) =
          end_run-success env flags (boots checked) r
            (sym (run-all s ∙ ap (end_run env flags) (run_all-boots t)) ∙ e) in
        (t, after, b, sym eq)
  ]
