-- ===== src/Host/Cpu/Effect.antt =====
-- The checks of the CPU and its clock never fail a run.
use fc_preflight.Prelude.{Bool, List, ◌≡◌, arith}
use fc_preflight.Text.{Bytes}
use fc_preflight.Report.{Report}
use fc_preflight.Report.Seen.{seen}
use fc_preflight.Report.Serious.{serious, check_laws}
use fc_preflight.Host.Machine.{Machine}
use fc_preflight.Host.Cpu.{
  check_tsc_flag, check_arm_clocksource, check_tsc_clocksource, check_timekeeping, check_cpu,
}

module _ (a b : Bool) where
  seen-check_tsc_flag :
      (flags : List Bytes) (flag why : Bytes) (r : Report)
      → seen (serious a b) (check_tsc_flag flags flag why r) ≡ seen (serious a b) r
  unfolding check_tsc_flag
  seen-check_tsc_flag flags flag why r = simp check_laws (ground arith)

  seen-check_arm_clocksource :
      (cur avail : Bytes) (r : Report)
      → seen (serious a b) (check_arm_clocksource cur avail r) ≡ seen (serious a b) r
  unfolding check_arm_clocksource
  seen-check_arm_clocksource cur avail r = simp check_laws (ground arith)

  seen-check_tsc_clocksource :
      (cur avail : Bytes) (r : Report)
      → seen (serious a b) (check_tsc_clocksource cur avail r) ≡ seen (serious a b) r
  unfolding check_tsc_clocksource
  seen-check_tsc_clocksource cur avail r = simp check_laws (ground arith)

  seen-check_timekeeping :
      (m : Machine) (flags : List Bytes) (r : Report)
      → seen (serious a b) (check_timekeeping m flags r) ≡ seen (serious a b) r
  unfolding check_timekeeping
  seen-check_timekeeping m flags r =
      simp (seen-check_tsc_clocksource, seen-check_tsc_flag, seen-check_arm_clocksource, check_laws)
        (ground arith)

  pub seen-check_cpu :
      (m : Machine) (r : Report) → seen (serious a b) (check_cpu m r) ≡ seen (serious a b) r
  unfolding check_cpu
  seen-check_cpu m r = simp (seen-check_timekeeping, check_laws)
