-- ===== src/Tests/Consoles.antt =====
-- Consoles of a guest that panics and of one whose report does not parse.
use fc_preflight.Prelude.{false, some, List, not, ◌||◌, ◌≡◌, refl, [], ◌∷◌, any}
use fc_preflight.Prelude.Int.{pos}
use fc_preflight.Text.{Bytes, codes, contains, join, is_empty, has_prefix, scan_lines, large_buffer}
use fc_preflight.Float.{zero_float, Float64}
use fc_preflight.Guest.Types.{GuestReport}
use fc_preflight.Host.Machine.{Outcome, err}
use fc_preflight.Console.{Waited, watch, watch_output, is_failed, diagnose_console}
use fc_preflight.Console.Tail.{last_lines, watch_output-console}
use fc_preflight.Console.Reason.{parses, garbled, watch-is_failed}
use fc_preflight.Tests.Machines.{missing_file}

abbrev refuse : Bytes → Outcome GuestReport
refuse s = err missing_file

abbrev same_float : Float64 → Float64
same_float x = x

abbrev panic : Waited
panic = record { exit_error = some (pos 1); total = zero_float; deadline_exceeded = false }

abbrev lines : List Bytes
lines = codes "booting" ∷ codes "FCPF-REPORT {" ∷ codes "Kernel panic - not syncing" ∷ []

abbrev printed : Bytes
printed = codes "booting\nFCPF-REPORT {\nKernel panic - not syncing\n"

watch_output-console_example :
    (watch_output refuse same_float (pos 90) panic 0 printed).console
    ≡ last_lines (scan_lines large_buffer printed).0
watch_output-console_example = watch_output-console refuse same_float (pos 90) panic 0 printed

watch-is_failed_example :
    is_failed (watch refuse same_float (pos 90) panic 0 lines)
    ≡ any (garbled refuse same_float) lines || not (any (parses refuse same_float) lines)
watch-is_failed_example = watch-is_failed refuse same_float (pos 90) panic 0 lines

init_first :
    is_empty
      (diagnose_console (codes "Failed to execute /init (error -2)" ∷ codes "Kernel panic" ∷ []))
    ≡ false
unfolding diagnose_console codes contains join has_prefix
init_first = refl
