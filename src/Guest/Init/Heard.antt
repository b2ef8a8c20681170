-- ===== src/Guest/Init/Heard.antt =====
-- guest_linux.go and boot_linux.go: the report of a guest, as bootOne reads it from the console.
use fc_preflight.Prelude.{
  subst, ℕ, Bool, false, some, List, [], ◌∷◌, ◌++◌, ◌≡◌, refl, sym, ap, ◌∙◌, arith, any,
}
use fc_preflight.Prelude.Int.{ℤ}
use fc_preflight.Float.{Float64}
use fc_preflight.Text.{Bytes, codes, contains, cut_text, has_prefix, trim_space}
use fc_preflight.Host.Machine.{Outcome, ok}
use fc_preflight.Console.{
  report_prefix, Waited, read_line, read_console, keep_line, payload, after_console, explain,
  new_outcome, watch, is_failed,
}
use fc_preflight.Guest.Types.{GuestReport, VmOutcome}
use fc_preflight.Guest.Survey.{GuestWorld, GuestState}
use fc_preflight.Guest.Init.{run_guest}
use fc_preflight.Guest.Init.Outlet.{run_guest-last}

-- A line with the prefix of a report.
abbrev pub carries : Bytes → Bool
carries line = contains line report_prefix

module _ (unmarshal : Bytes → Outcome GuestReport) (times_1000 : Float64 → Float64) where
  plain_line :
      (out : VmOutcome) (line : Bytes)
      → carries line ≡ false
      → read_line unmarshal times_1000 out line ≡ out
  unfolding read_line
  plain_line out line h = rw (h, read_line) refl

  report_line :
      (out : VmOutcome) (json : Bytes) (rep : GuestReport)
      → unmarshal (trim_space json) ≡ ok rep
      → read_line unmarshal times_1000 out (report_prefix ++ json)
        ≡ record out { guest = some rep; boot_ms = times_1000 rep.uptime_at_start }
  unfolding read_line payload contains cut_text has_prefix codes
  report_line out json rep h = rw (h, read_line) refl

  read_console-plain :
      (logs : List Bytes) (line : Bytes) (tail : List Bytes) (out : VmOutcome)
      → any carries logs ≡ false
      → (read_console unmarshal times_1000 (logs ++ line ∷ []) tail out).1
        ≡ read_line unmarshal times_1000 out line
  unfolding read_console
  read_console-plain [] line tail out h = refl
  read_console-plain (l ∷ logs) line tail out h =
      read_console-plain logs line (keep_line tail l) (read_line unmarshal times_1000 out l)
        (ground (arith, h))
      ∙ ap (λ (o : VmOutcome). read_line unmarshal times_1000 o line)
          (plain_line out l (ground (arith, h)))

  -- An outcome with the report, no error, and the time that the report gives.
  abbrev pub Heard : GuestReport → VmOutcome → Type 0
  Heard rep out =
      (out.guest ≡ some rep) × (out.err ≡ []) × (out.boot_ms ≡ times_1000 rep.uptime_at_start)

  after_console-Heard :
      (boot_timeout : ℤ) (waited : Waited) (i : ℕ) (rep : GuestReport) (tail : List Bytes)
      (out : VmOutcome)
      → out ≡ record (new_outcome i) { guest = some rep; boot_ms = times_1000 rep.uptime_at_start }
      → Heard rep (after_console boot_timeout waited tail out)
  unfolding after_console explain new_outcome
  after_console-Heard boot_timeout waited i rep tail out e =
      subst (λ (o : VmOutcome). Heard rep (after_console boot_timeout waited tail o)) (sym e)
        (refl, refl, refl)

  watch-Heard :
      (boot_timeout : ℤ) (waited : Waited) (i : ℕ) (logs : List Bytes) (json : Bytes)
      (rep : GuestReport)
      → any carries logs ≡ false
      → unmarshal (trim_space json) ≡ ok rep
      → Heard rep
          (watch unmarshal times_1000 boot_timeout waited i (logs ++ (report_prefix ++ json) ∷ []))
  unfolding watch
  watch-Heard boot_timeout waited i logs json rep plain h =
      after_console-Heard boot_timeout waited i rep
        (read_console unmarshal times_1000 (logs ++ (report_prefix ++ json) ∷ []) []
          (new_outcome i)).0
        (read_console unmarshal times_1000 (logs ++ (report_prefix ++ json) ∷ []) []
          (new_outcome i)).1
        (read_console-plain logs (report_prefix ++ json) [] (new_outcome i) plain
          ∙ report_line (new_outcome i) json rep h)

-- The lines without the last one.
unfoldable pub but_last : List Bytes → List Bytes
but_last [] = []
but_last (l ∷ []) = []
but_last (l ∷ k ∷ ls) = l ∷ but_last (k ∷ ls)

but_last-append : (ls : List Bytes) (l : Bytes) → but_last (ls ++ l ∷ []) ≡ ls
unfolding but_last
but_last-append [] l = refl
but_last-append (k ∷ []) l = refl
but_last-append (k ∷ m ∷ ls) l = ap (λ (rest : List Bytes). k ∷ rest) (but_last-append (m ∷ ls) l)

-- If runGuest comes to its end, no line that it logs before its last one has the prefix of a report,
-- and json.Unmarshal reads back what json.Marshal made of the report, then bootOne, given the lines
-- of that console, does not count the microVM as failed, and has the guest's report, no error, and
-- the boot time that the report gives, whatever Firecracker's exit and the deadline.
pub run_guest-Heard :
    (w : GuestWorld) (unmarshal : Bytes → Outcome GuestReport) (times_1000 : Float64 → Float64)
    (boot_timeout : ℤ) (waited : Waited) (i : ℕ) (st : GuestState)
    → run_guest w ≡ some st
    → any carries (but_last st.lines) ≡ false
    → unmarshal (trim_space (w.marshal st.report)) ≡ ok st.report
    → (is_failed (watch unmarshal times_1000 boot_timeout waited i st.lines) ≡ false)
      × Heard unmarshal times_1000 st.report
          (watch unmarshal times_1000 boot_timeout waited i st.lines)
run_guest-Heard w unmarshal times_1000 boot_timeout waited i st ran plain h =
    let (logs, rep, shape) = run_guest-last w st ran in
    let line : Bytes = report_prefix ++ w.marshal rep in
    let lines : st.lines ≡ logs ++ line ∷ [] = ap (λ (s : GuestState). s.lines) shape in
    let reported : st.report ≡ rep = ap (λ (s : GuestState). s.report) shape in
    let quiet : any carries logs ≡ false =
      ap (any carries) (sym (ap but_last lines ∙ but_last-append logs line)) ∙ plain in
    let parsed : unmarshal (trim_space (w.marshal rep)) ≡ ok rep =
      subst (λ (r : GuestReport). unmarshal (trim_space (w.marshal r)) ≡ ok r) reported h in
    let (g, e, b) =
      watch-Heard unmarshal times_1000 boot_timeout waited i logs (w.marshal rep) rep quiet
        parsed in
    subst
      (λ (s : GuestState).
        (is_failed (watch unmarshal times_1000 boot_timeout waited i s.lines) ≡ false)
        × Heard unmarshal times_1000 s.report
            (watch unmarshal times_1000 boot_timeout waited i s.lines))
      (sym shape) (rw (g, e) refl, (g, e, b))
