-- ===== src/Console.antt =====
-- boot_linux.go: the console of a microVM as bootOne reads it, and diagnoseConsole.
pub mod Tail
pub mod Reason
pub mod Index
use fc_preflight.Prelude.{
  ℕ, ◌+◌, Bool, true, false, not, ◌||◌, ◌&&◌, Option, none, some, List, [], ◌∷◌, ◌++◌, leb,
  if◌then◌else◌, length, drop,
}
use fc_preflight.Prelude.Int.{ℤ, pos}
use fc_preflight.Float.{Float64, zero_float}
use fc_preflight.Text.{
  scan_lines, large_buffer, Bytes, codes, contains, cut_text, is_empty, join, trim_space,
}
use fc_preflight.Text.Number.{itoa_ℤ}
use fc_preflight.Guest.Types.{GuestReport, VmOutcome}
use fc_preflight.Host.Machine.{Outcome, ok, err}

-- consoleTailLines
abbrev pub console_tail_lines : ℕ
console_tail_lines = 120

-- The two statements that keep the tail.
unfoldable pub keep_line : List Bytes → Bytes → List Bytes
keep_line tail line =
    if leb console_tail_lines (length tail) then drop 1 tail ++ line ∷ [] else tail ++ line ∷ []

-- guestReportPrefix
abbrev pub report_prefix : Bytes
report_prefix = codes "FCPF-REPORT "

-- The payload of a line with guestReportPrefix.
unfoldable pub payload : Bytes → Bytes
payload line = elim (cut_text line report_prefix) [ none ↦ [] | some (before, after) ↦ after ]

-- `unmarshal` is json.Unmarshal into a GuestReport, `times_1000` the product with 1000 of a float64.
module _ (unmarshal : Bytes → Outcome GuestReport) (times_1000 : Float64 → Float64) where
  -- The switch on a line; its second case does nothing.
  unfoldable pub read_line : VmOutcome → Bytes → VmOutcome
  unfolding payload
  read_line out line =
      if contains line report_prefix
      then elim (unmarshal (trim_space (payload line))) [
        | err e ↦ record out { err = codes "parse guest report: " ++ e.message }
        | ok report ↦ record out {
          guest = some report;
          boot_ms = times_1000 report.uptime_at_start;
        }
      ]
      else out

  -- The loop over the lines that the scanner delivers.
  unfoldable pub read_console : List Bytes → List Bytes → VmOutcome → List Bytes × VmOutcome
  unfolding keep_line read_line
  read_console [] tail out = (tail, out)
  read_console (line ∷ lines) tail out =
      read_console lines (keep_line tail line) (read_line out line)

-- What cmd.Wait and the clock say once the console has ended: the exit code of an ExitError, `none`
-- for any other result, the time since the launch, and whether the deadline has passed.
pub record Waited : Type 0 where
  pub exit_error : Option ℤ
  pub total : Float64
  pub deadline_exceeded : Bool

abbrev pub exit_code_of : Option ℤ → ℤ → ℤ
exit_code_of none before = before
exit_code_of (some code) before = code

-- The reason given where there is neither a report nor an error.
unfoldable pub no_report : ℤ → Bool → Bytes
unfolding codes
no_report boot_timeout true =
    codes "timed out after " ++ itoa_ℤ boot_timeout ++ codes "s with no report from the guest"
no_report boot_timeout false = codes "guest produced no report"

unfoldable pub explain : ℤ → Waited → VmOutcome → VmOutcome
unfolding no_report
explain boot_timeout waited out = elim out.guest [
  | some report ↦ out
  | none ↦
      if is_empty out.err
      then record out { err = no_report boot_timeout waited.deadline_exceeded }
      else out
]

-- The end of bootOne, behind the loop.
unfoldable pub after_console : ℤ → Waited → List Bytes → VmOutcome → VmOutcome
after_console boot_timeout waited tail out = explain boot_timeout waited (record out {
  total_ms = waited.total;
  console = tail;
  exit_code = exit_code_of waited.exit_error out.exit_code;
})

-- vmOutcome{Index: i}
unfoldable pub new_outcome : ℕ → VmOutcome
new_outcome i = record {
  index = i;
  boot_ms = zero_float;
  total_ms = zero_float;
  guest = none;
  err = [];
  console = [];
  exit_code = pos 0;
}

-- bootOne from the start of Firecracker to its result.
unfoldable pub watch :
    (Bytes → Outcome GuestReport) → (Float64 → Float64) → ℤ → Waited → ℕ → List Bytes → VmOutcome
unfolding read_console after_console new_outcome
watch unmarshal times_1000 boot_timeout waited i lines =
    let (tail, out) = read_console unmarshal times_1000 lines [] (new_outcome i) in
    after_console boot_timeout waited tail out

-- The same for what Firecracker prints: the lines are those that a scanner with a buffer of 1 MiB
-- delivers, which stops at a line that does not fit.
unfoldable pub watch_output :
    (Bytes → Outcome GuestReport) → (Float64 → Float64) → ℤ → Waited → ℕ → Bytes → VmOutcome
unfolding watch
watch_output unmarshal times_1000 boot_timeout waited i output =
    watch unmarshal times_1000 boot_timeout waited i (scan_lines large_buffer output).0

abbrev pub has_guest : VmOutcome → Bool
has_guest out = elim out.guest [ none ↦ false | some report ↦ true ]

-- `o.Err != "" || o.Guest == nil`, the test of judgeOutcomes
abbrev pub is_failed : VmOutcome → Bool
is_failed out = not (is_empty out.err) || not (has_guest out)

-- diagnoseConsole
unfoldable pub diagnose_console : List Bytes → Bytes
unfolding codes
diagnose_console lines =
    let joined = join lines (10 ∷ []) in
    if contains joined (codes "Failed to execute /init (error -2)")
    then codes
        "The kernel booted, found /init and could not exec it (ENOENT). For a static binary that means the file is absent; for a dynamic one it means its interpreter is, and the guest has no libc. Check boot.initramfs.linkage above."
    else if contains joined (codes "Initramfs unpacking failed")
    then codes
        "The kernel rejected the initramfs archive, so the guest root filesystem is empty. This is a bug in this tool's cpio writer, not in the host -- please report the console output."
    else if contains joined (codes "No working init found")
    then codes
        "The guest root filesystem came up empty. Either the initramfs did not unpack or /init is not in it."
    else if contains joined (codes "Kernel panic")
    then codes "The guest kernel panicked. The console tail above is the whole of what it said."
    else []
