-- ===== src/Boot.antt =====
-- boot_linux.go: how runBootStage collects the microVMs, and the first check of judgeOutcomes.
pub mod Launch
pub mod Figures
pub mod Judge
pub mod Elf
pub mod Pins
pub mod Flow
pub mod Stage
pub mod Tap
pub mod One
use fc_preflight.Prelude.{
  ℕ, zero, suc, Bool, true, false, not, Option, none, some, List, [], ◌∷◌, ◌++◌, ◌==◌,
  if◌then◌else◌, length, count, ltb,
}
use fc_preflight.Text.{Bytes, codes, is_empty, join}
use fc_preflight.Text.Number.{itoa}
use fc_preflight.Status.{Status}
use fc_preflight.Report.{Check, addf, fail}
use fc_preflight.Guest.Types.{VmOutcome}
use fc_preflight.Console.{is_failed, diagnose_console}

-- outcomes[i] = o; `none` where Go panics on an index out of range
unfoldable pub set_at : ℕ → VmOutcome → List VmOutcome → Option (List VmOutcome)
set_at i o [] = none
set_at zero o (x ∷ xs) = some (o ∷ xs)
set_at (suc i) o (x ∷ xs) = elim (set_at i o xs) [ none ↦ none | some ys ↦ some (x ∷ ys) ]

-- The loop that receives from the channel, in the order in which the microVMs end; `none` where it
-- panics.
unfoldable pub collect : List VmOutcome → List VmOutcome → Option (List VmOutcome)
unfolding set_at
collect [] outcomes = some outcomes
collect (o ∷ arrivals) outcomes = elim (set_at o.index o outcomes) [
  | none ↦ none
  | some placed ↦ collect arrivals placed
]

unfoldable pub console_lines : List Bytes → Bytes
console_lines [] = []
console_lines (l ∷ ls) = codes "    " ++ (l ++ (10 ∷ console_lines ls))

-- What the detail says of one microVM.
unfoldable pub failure_text : VmOutcome → Bytes
unfolding console_lines
failure_text o =
    if is_empty o.err
    then []
    else codes "vm"
      ++ (itoa o.index
          ++ (codes ": "
              ++ (o.err
                  ++ (10 ∷ (elim o.console [
                    | [] ↦ []
                    | l ∷ ls ↦ codes "  last console lines:\n" ++ console_lines (l ∷ ls)
                  ])))))

unfoldable pub failure_texts : List VmOutcome → Bytes
unfolding failure_text
failure_texts [] = []
failure_texts (o ∷ os) = failure_text o ++ failure_texts os

-- The loop for the remedy: the first diagnosis, or the general text.
unfoldable pub launch_remedy : List VmOutcome → Bytes
launch_remedy [] =
    codes
      "This is the check that matters. Everything in the preflight can pass on a host where this fails. The console tail above is the guest's own output."
launch_remedy (o ∷ os) =
    let rest = launch_remedy os in
    if is_empty (diagnose_console o.console) then rest else diagnose_console o.console

-- judgeOutcomes up to the check boot.launch
unfoldable pub judge_launch : List VmOutcome → Check
unfolding failure_texts launch_remedy
judge_launch outcomes r =
    let failed = count is_failed outcomes in
    let n = itoa (length outcomes) in
    if ltb 0 failed
    then fail (codes "boot.launch") (codes "Firecracker microVM boots")
        (itoa failed
          ++ (codes " of " ++ (n ++ (codes " microVMs failed:\n" ++ failure_texts outcomes))))
        (launch_remedy outcomes) r
    else addf (codes "boot.launch") (codes "Firecracker microVM boots") Status.pass
        (n
          ++ (codes " of "
              ++ (n ++ codes " microVMs booted, ran the workload and shut down cleanly")))
        r
