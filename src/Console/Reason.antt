-- ===== src/Console/Reason.antt =====
-- boot_linux.go: a microVM that gave no report has an error.
use fc_preflight.Prelude.{
  ℕ, Bool, true, false, not, ◌||◌, ◌&&◌, List, [], ◌∷◌, ◌++◌, ◌≡◌, refl, ◌∙◌, arith, Option-cases,
  Bool-cases, inl, inr, any,
}
use fc_preflight.Prelude.Int.{ℤ}
use fc_preflight.Text.{Bytes, codes, is_empty, contains, trim_space}
use fc_preflight.Float.{Float64}
use fc_preflight.Guest.Types.{GuestReport, VmOutcome}
use fc_preflight.Host.Machine.{Outcome, Outcome-cases, is_ok}
use fc_preflight.Console.{
  report_prefix, keep_line, has_guest, is_failed, explain, no_report, after_console, watch, Waited,
  read_line, read_console, payload, new_outcome,
}

no_report_given : (boot_timeout : ℤ) (late : Bool) → is_empty (no_report boot_timeout late) ≡ false
unfolding no_report codes
no_report_given boot_timeout true = refl
no_report_given boot_timeout false = refl

explain-is_failed :
    (boot_timeout : ℤ) (waited : Waited) (out : VmOutcome)
    → is_failed (explain boot_timeout waited out) ≡ is_failed out
unfolding explain
explain-is_failed boot_timeout waited out = elim (Option-cases out.guest) [
  | inr (report, g) ↦ rw (g, explain) (ground (arith, g))
  | inl g ↦
      rw (g, explain)
        (elim (Bool-cases (is_empty out.err)) [
          | inl t ↦
              rw t (ground (arith, g, t, no_report_given boot_timeout waited.deadline_exceeded))
          | inr t ↦ rw t (ground (arith, g, t))
        ])
]

parse_error_given : (message : Bytes) → is_empty (codes "parse guest report: " ++ message) ≡ false
unfolding codes
parse_error_given message = refl

module _ (unmarshal : Bytes → Outcome GuestReport) (times_1000 : Float64 → Float64) where
  -- The line carries a report, and json.Unmarshal takes it.
  abbrev pub parses : Bytes → Bool
  parses line = contains line report_prefix && is_ok (unmarshal (trim_space (payload line)))

  -- The line carries a report that json.Unmarshal refuses.
  abbrev pub garbled : Bytes → Bool
  garbled line = contains line report_prefix && not (is_ok (unmarshal (trim_space (payload line))))

  read_line-has_guest :
      (out : VmOutcome) (line : Bytes)
      → has_guest (read_line unmarshal times_1000 out line) ≡ has_guest out || parses line
  unfolding read_line
  read_line-has_guest out line = elim (Bool-cases (contains line report_prefix)) [
    | inr t ↦ rw (t, read_line) (ground arith)
    | inl t ↦ elim (Outcome-cases (unmarshal (trim_space (payload line)))) [
      | inl (report, e) ↦ rw (t, e, read_line) (ground arith)
      | inr (e, f) ↦ rw (t, f, read_line) (ground arith)
    ]
  ]

  read_line-has_error :
      (out : VmOutcome) (line : Bytes)
      → not (is_empty (read_line unmarshal times_1000 out line).err)
        ≡ not (is_empty out.err) || garbled line
  unfolding read_line
  read_line-has_error out line = elim (Bool-cases (contains line report_prefix)) [
    | inr t ↦ rw (t, read_line) (ground arith)
    | inl t ↦ elim (Outcome-cases (unmarshal (trim_space (payload line)))) [
      | inl (report, e) ↦ rw (t, e, read_line) (ground arith)
      | inr (e, f) ↦ rw (t, f, read_line) (ground (arith, parse_error_given e.message))
    ]
  ]

  -- Any number of lines.
  read_console-has_guest :
      (lines tail : List Bytes) (out : VmOutcome)
      → has_guest (read_console unmarshal times_1000 lines tail out).1
        ≡ has_guest out || any parses lines
  unfolding read_console
  read_console-has_guest [] tail out = ground arith
  read_console-has_guest (line ∷ lines) tail out =
      read_console-has_guest lines (keep_line tail line) (read_line unmarshal times_1000 out line)
      ∙ ground (arith, read_line-has_guest out line)

  read_console-has_error :
      (lines tail : List Bytes) (out : VmOutcome)
      → not (is_empty (read_console unmarshal times_1000 lines tail out).1.err)
        ≡ not (is_empty out.err) || any garbled lines
  unfolding read_console
  read_console-has_error [] tail out = ground arith
  read_console-has_error (line ∷ lines) tail out =
      read_console-has_error lines (keep_line tail line) (read_line unmarshal times_1000 out line)
      ∙ ground (arith, read_line-has_error out line)

  -- A microVM whose console was read counts as failed exactly if some line carried a report that
  -- cannot be parsed or no line carried one that can, whatever its exit code and the deadline.
  pub watch-is_failed :
      (boot_timeout : ℤ) (waited : Waited) (i : ℕ) (lines : List Bytes)
      → is_failed (watch unmarshal times_1000 boot_timeout waited i lines)
        ≡ any garbled lines || not (any parses lines)
  unfolding watch after_console new_outcome
  watch-is_failed boot_timeout waited i lines =
      explain-is_failed boot_timeout waited _
      ∙ ground (
        arith,
        read_console-has_error lines [] (new_outcome i),
        read_console-has_guest lines [] (new_outcome i),
      )
