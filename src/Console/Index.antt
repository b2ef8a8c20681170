-- ===== src/Console/Index.antt =====
-- boot_linux.go: the outcome of a microVM keeps the index that it starts with.
use fc_preflight.Prelude.{ℕ, List, [], ◌∷◌, ◌≡◌, refl, ◌∙◌, Bool-cases, Option-cases, inl, inr}
use fc_preflight.Prelude.Int.{ℤ}
use fc_preflight.Text.{Bytes, is_empty, contains, trim_space, scan_lines, large_buffer}
use fc_preflight.Float.{Float64}
use fc_preflight.Guest.Types.{GuestReport, VmOutcome}
use fc_preflight.Host.Machine.{Outcome-cases, Outcome}
use fc_preflight.Console.{
  report_prefix, payload, keep_line, read_line, read_console, explain, after_console, Waited,
  new_outcome, watch, watch_output,
}

explain-index :
    (boot_timeout : ℤ) (waited : Waited) (out : VmOutcome)
    → (explain boot_timeout waited out).index ≡ out.index
unfolding explain
explain-index boot_timeout waited out = elim (Option-cases out.guest) [
  | inr (report, g) ↦ rw (g, explain) refl
  | inl g ↦
      rw (g, explain)
        (elim (Bool-cases (is_empty out.err)) [ inl t ↦ rw t refl | inr t ↦ rw t refl ])
]

module _ (unmarshal : Bytes → Outcome GuestReport) (times_1000 : Float64 → Float64) where
  read_line-index :
      (out : VmOutcome) (line : Bytes) → (read_line unmarshal times_1000 out line).index ≡ out.index
  unfolding read_line
  read_line-index out line = elim (Bool-cases (contains line report_prefix)) [
    | inr t ↦ rw (t, read_line) refl
    | inl t ↦
        rw (t, read_line)
          (elim (Outcome-cases (unmarshal (trim_space (payload line)))) [
            | inl (e, h) ↦ rw h refl
            | inr (report, h) ↦ rw h refl
          ])
  ]

  read_console-index :
      (lines tail : List Bytes) (out : VmOutcome)
      → (read_console unmarshal times_1000 lines tail out).1.index ≡ out.index
  unfolding read_console
  read_console-index [] tail out = refl
  read_console-index (line ∷ lines) tail out =
      read_console-index lines (keep_line tail line) (read_line unmarshal times_1000 out line)
      ∙ read_line-index out line

  pub watch_output-index :
      (boot_timeout : ℤ) (waited : Waited) (i : ℕ) (output : Bytes)
      → (watch_output unmarshal times_1000 boot_timeout waited i output).index ≡ i
  unfolding watch_output watch after_console new_outcome
  watch_output-index boot_timeout waited i output =
      explain-index boot_timeout waited _
      ∙ read_console-index (scan_lines large_buffer output).0 [] (new_outcome i)
