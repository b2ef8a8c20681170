-- ===== src/Tests/Boots.antt =====
-- Two microVMs that end in the wrong order.
use fc_preflight.Prelude.{ℕ, ◌||◌, some, none, List, [], ◌∷◌, ◌≡◌, refl, any, get_elem?, arith}
use fc_preflight.Prelude.Int.{pos}
use fc_preflight.Text.{codes}
use fc_preflight.Float.{zero_float}
use fc_preflight.Status.{Status}
use fc_preflight.Report.Verdict.{has}
use fc_preflight.Guest.Types.{VmOutcome}
use fc_preflight.Console.{new_outcome, is_failed}
use fc_preflight.Boot.{collect, judge_launch}
use fc_preflight.Boot.Launch.{collect-get_elem?, judge_launch-has}
use fc_preflight.Tests.Reports.{mixed}

abbrev boot : ℕ → VmOutcome
boot i = record {
  index = i;
  boot_ms = zero_float;
  total_ms = zero_float;
  guest = none;
  err = codes "tap setup";
  console = [];
  exit_code = pos 0;
}

-- make([]vmOutcome, 2)
abbrev zeroed : List VmOutcome
zeroed = new_outcome 0 ∷ new_outcome 0 ∷ []

collect-get_elem?_example :
    (ys : List VmOutcome) × (collect (boot 1 ∷ boot 0 ∷ []) zeroed ≡ some ys)
    × (get_elem? ys 0 ≡ some (boot 0))
collect-get_elem?_example =
    collect-get_elem? boot (boot 1 ∷ boot 0 ∷ []) zeroed 0
      ((refl, omega arith), ((refl, omega arith), tt)) refl

judge_launch-has_example :
    has Status.fail (judge_launch (boot 0 ∷ []) mixed).results
    ≡ has Status.fail mixed.results || any is_failed (boot 0 ∷ [])
judge_launch-has_example = judge_launch-has (boot 0 ∷ []) mixed
