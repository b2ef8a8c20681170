-- ===== src/Tests/Preflight.antt =====
-- The preflight on a machine that works and on one that refuses the device.
use fc_preflight.Prelude.{false, ◌≡◌, if◌then◌else◌}
use fc_preflight.Text.{codes}
use fc_preflight.Status.{Status}
use fc_preflight.Report.{new_report, finish}
use fc_preflight.Host.Preflight.{run_preflight}
use fc_preflight.Host.Preflight.Verdict.{unsuitable, kvm_undetermined, run_preflight_verdict}
use fc_preflight.Tests.Machines.{unprivileged}

run_preflight_verdict_example :
    (finish
      (codes "3ms")
      (run_preflight unprivileged (new_report (codes "host") (codes "now") false))).verdict
    ≡ (if unsuitable unprivileged
        then Status.fail
        else if kvm_undetermined unprivileged
        then Status.blocked
        else Status.pass)
run_preflight_verdict_example =
    run_preflight_verdict unprivileged (codes "host") (codes "now") (codes "3ms") false
