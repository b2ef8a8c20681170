-- ===== src/Report/Render.antt =====
-- report.go: the text report.
use fc_preflight.Prelude.{
  ℕ, Bool, ◌&&◌, List, [], ◌∷◌, ◌++◌, ◌≡◌, refl, ◌∙◌, arith, ltb, if◌then◌else◌, replicate, count,
}
use fc_preflight.Text.{Bytes, codes, join, to_upper, is_empty}
use fc_preflight.Text.Number.{itoa}
use fc_preflight.Text.Order.{sort_by}
use fc_preflight.Text.Order.Sorted.{IsSorted, sort_by-IsSorted, count-sort_by}
use fc_preflight.Status.{Status, same}
use fc_preflight.Report.{Result, Report, render_one}

-- The text of a status.
unfoldable pub status_text : Status → Bytes
status_text Status.unset = []
status_text Status.pass = codes "pass"
status_text Status.fail = codes "fail"
status_text Status.warn = codes "warn"
status_text Status.info = codes "info"
status_text Status.skip = codes "skip"
status_text Status.blocked = codes "blocked"

-- The keys, in the order of the summary line.
abbrev pub summary_keys : List Status
summary_keys =
    Status.pass ∷ Status.warn ∷ Status.fail ∷ Status.blocked ∷ Status.info ∷ Status.skip ∷ []

unfoldable pub summary_parts : (Status → ℕ) → List Status → List Bytes
unfolding status_text
summary_parts summary [] = []
summary_parts summary (k ∷ ks) =
    let rest = summary_parts summary ks in
    if ltb 0 (summary k) then (itoa (summary k) ++ (32 ∷ status_text k)) ∷ rest else rest

-- One of the slices `fails`, `warns` and `blocked`, as it is collected.
unfoldable pub of_status : Status → List Result → List Result
of_status s [] = []
of_status s (res ∷ rs) = let rest = of_status s rs in if same res.status s then res ∷ rest else rest

-- The failures, behind sort.SliceStable
unfoldable pub blocking_results : List Result → List Result
unfolding of_status
blocking_results rs = sort_by (λ res. res.id) (of_status Status.fail rs)

unfoldable pub remedy_line : Bytes → Bytes
remedy_line remedy = if is_empty remedy then [] else codes "    " ++ (remedy ++ 10 ∷ [])

-- The loop over the results of a section.
unfoldable pub section_lines : List Result → Bytes
unfolding remedy_line
section_lines [] = []
section_lines (res ∷ rs) =
    let rest = section_lines rs in
    join
      (codes "  * "
        ∷ res.id
        ∷ codes ": "
        ∷ res.detail
        ∷ (10 ∷ [])
        ∷ remedy_line res.remedy
        ∷ rest
        ∷ [])
      []

-- A section, left out where it has no results.
unfoldable pub section : Bytes → List Result → Bytes
unfolding section_lines
section heading [] = []
section heading (res ∷ rs) = (10 ∷ heading) ++ (10 ∷ section_lines (res ∷ rs))

unfoldable pub verdict_text : Status → Bytes
unfolding status_text
verdict_text s =
    if same s Status.blocked
    then codes "INCOMPLETE -- nothing disqualifying found, but the run could not finish"
    else to_upper (status_text s)

unfoldable pub result_lines : List Result → Bytes
result_lines [] = []
result_lines (res ∷ rs) = render_one res ++ (10 ∷ result_lines rs)

abbrev pub rule : Bytes
rule = replicate 78 b'='

-- Render
unfoldable pub render : Report → Bytes
unfolding result_lines section verdict_text summary_parts blocking_results of_status
render r =
    join
      (codes "\nfc-preflight "
        ∷ r.tool
        ∷ codes " -- "
        ∷ r.hostname
        ∷ codes " -- "
        ∷ r.started_at
        ∷ codes "\n"
        ∷ rule
        ∷ codes "\n\n"
        ∷ result_lines r.results
        ∷ codes "\n"
        ∷ rule
        ∷ codes "\n"
        ∷ join (summary_parts r.summary summary_keys) (codes ", ")
        ∷ codes " in "
        ∷ r.duration
        ∷ codes "\n"
        ∷ section
            (codes
              "COULD NOT DETERMINE -- this says nothing about the host, only about\nthis run. Address these and run again:")
            (of_status Status.blocked r.results)
        ∷ section (codes "BLOCKING -- a Fly microVM will not run correctly here:")
            (blocking_results r.results)
        ∷ section (codes "NON-BLOCKING -- works, but differs from a Fly host:")
            (of_status Status.warn r.results)
        ∷ codes "\nVERDICT: "
        ∷ verdict_text r.verdict
        ∷ codes "\n\n"
        ∷ [])
      []

count-of_status :
    (p : Result → Bool) (s : Status) (rs : List Result)
    → count p (of_status s rs) ≡ count (λ res. same res.status s && p res) rs
unfolding of_status
count-of_status p s [] = refl
count-of_status p s (res ∷ rs) = ground (arith, count-of_status p s rs)

-- The failures that the report repeats at its end are in the order of their identifiers, and every
-- result stands among them as often as it is a failure of the report.
pub blocking_results-IsSorted :
    (rs : List Result) (p : Result → Bool)
    → IsSorted (λ res. res.id) (blocking_results rs)
      × (count p (blocking_results rs) ≡ count (λ res. same res.status Status.fail && p res) rs)
unfolding blocking_results
blocking_results-IsSorted rs p = (
  sort_by-IsSorted (λ res. res.id) (of_status Status.fail rs),
  count-sort_by (λ res. res.id) p (of_status Status.fail rs) ∙ count-of_status p Status.fail rs,
)
