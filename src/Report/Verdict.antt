-- ===== src/Report/Verdict.antt =====
-- report.go: the verdict and the summary of `Finish` against their description.
use fc_preflight.Prelude.{
  ◌+◌, Bool, ◌||◌, ◌≡◌, refl, List, [], ◌∷◌, arith, if◌then◌else◌, any, count,
}
use fc_preflight.Text.{Bytes}
use fc_preflight.Status.{Status, same}
use fc_preflight.Report.{Result, Report, Tally, tally, tally_one, start_tally, finish}

-- Some result has the status.
abbrev pub has : Status → List Result → Bool
has s = any (λ res. same res.status s)

-- What the verdict of a list of results has to be.
abbrev pub expected_verdict : List Result → Status
expected_verdict rs =
    if has Status.fail rs
    then Status.fail
    else if has Status.blocked rs
    then Status.blocked
    else Status.pass

-- The verdict of the loop from any state of it.
tally-verdict :
    (rs : List Result) (t : Tally)
    → (tally t rs).verdict ≡ (if has Status.fail rs then Status.fail else t.verdict)
unfolding tally tally_one
tally-verdict [] t = refl
tally-verdict (res ∷ rs) t = ground (arith, tally-verdict rs (tally_one t res.status))

tally-blocked :
    (rs : List Result) (t : Tally)
    → (tally t rs).blocked_seen ≡ t.blocked_seen || has Status.blocked rs
unfolding tally tally_one
tally-blocked [] t = ground arith
tally-blocked (res ∷ rs) t = ground (arith, tally-blocked rs (tally_one t res.status))

tally-summary :
    (rs : List Result) (t : Tally) (s : Status)
    → (tally t rs).summary s ≡ t.summary s + count (λ res. same res.status s) rs
unfolding tally tally_one
tally-summary [] t s = omega arith
tally-summary (res ∷ rs) t s = ground (arith, tally-summary rs (tally_one t res.status) s)

-- `Finish` gives the verdict fail if some result failed, otherwise blocked if some result is
-- blocked, and otherwise pass.
pub finish-verdict : (d : Bytes) (r : Report) → (finish d r).verdict ≡ expected_verdict r.results
unfolding finish
finish-verdict d r =
    ground (arith, tally-verdict r.results start_tally, tally-blocked r.results start_tally)

-- `Finish` counts, under each status, the results of that status, whatever the summary was before,
-- and leaves the results alone.
pub finish-summary :
    (d : Bytes) (r : Report) (s : Status)
    → ((finish d r).summary s ≡ count (λ res. same res.status s) r.results)
      × ((finish d r).results ≡ r.results)
unfolding finish
finish-summary d r s = (omega (arith, tally-summary r.results start_tally s), refl)
