-- ===== src/Tests/Reports.antt =====
-- Reports with a failure and a check that could not run.
use fc_preflight.Prelude.{Bool, ◌&&◌, false, ◌≡◌, count}
use fc_preflight.Text.{codes, equal}
use fc_preflight.Status.{Status, same}
use fc_preflight.Report.{Result, Report, new_report, fail, blocked, finish}
use fc_preflight.Text.Order.Sorted.{IsSorted}
use fc_preflight.Report.Render.{blocking_results, blocking_results-IsSorted}
use fc_preflight.Report.Verdict.{expected_verdict, finish-verdict, finish-summary}

abbrev pub mixed : Report
mixed = fail (codes "host.tun") (codes "tun") (codes "missing") (codes "load it") (
    blocked (codes "kvm.open") (codes "kvm") (codes "denied") (codes "use sudo")
      (new_report (codes "host") (codes "now") false))

finish-verdict_example : (finish (codes "3ms") mixed).verdict ≡ expected_verdict mixed.results
finish-verdict_example = finish-verdict (codes "3ms") mixed

finish-summary_example :
    ((finish (codes "3ms") mixed).summary Status.fail
      ≡ count (λ res. same res.status Status.fail) mixed.results)
    × ((finish (codes "3ms") mixed).results ≡ mixed.results)
finish-summary_example = finish-summary (codes "3ms") mixed Status.fail

abbrev is_tun : Result → Bool
is_tun res = equal res.id (codes "host.tun")

blocking_results-IsSorted_example :
    IsSorted (λ (res : Result). res.id) (blocking_results mixed.results)
    × (count is_tun (blocking_results mixed.results)
        ≡ count (λ res. same res.status Status.fail && is_tun res) mixed.results)
blocking_results-IsSorted_example = blocking_results-IsSorted mixed.results is_tun
