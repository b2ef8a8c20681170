-- ===== src/Host/Virt/Effect.antt =====
-- What the checks of virtualization add to a report.
use fc_preflight.Prelude.{Bool, ◌&&◌, ◌||◌, not, ◌≡◌, arith}
use fc_preflight.Text.{codes}
use fc_preflight.Text.Dict.{member}
use fc_preflight.Report.{Report}
use fc_preflight.Report.Seen.{seen}
use fc_preflight.Report.Serious.{serious, check_laws}
use fc_preflight.Host.Machine.{Machine, is_amd64}
use fc_preflight.Host.Virt.{
  Posture, check_cpu_virt_extensions, report_posture, check_virt_posture, cpu_flags,
}

-- An x86 CPU that shows neither vmx nor svm.
abbrev pub no_virt_extensions : Machine → Bool
no_virt_extensions m =
    is_amd64 m.arch
    && (not (member (codes "vmx") (cpu_flags m)) && not (member (codes "svm") (cpu_flags m)))

module _ (a b : Bool) (m : Machine) where
  seen-check_cpu_virt_extensions :
      (nested : Bool) (r : Report)
      → seen (serious a b) (check_cpu_virt_extensions m nested r)
        ≡ seen (serious a b) r || (no_virt_extensions m && a)
  unfolding check_cpu_virt_extensions
  seen-check_cpu_virt_extensions nested r = simp check_laws (ground arith)

  seen-report_posture :
      (p : Posture) (r : Report) → seen (serious a b) (report_posture m p r) ≡ seen (serious a b) r
  unfolding report_posture
  seen-report_posture p r = simp check_laws (ground arith)

  pub seen-check_virt_posture :
      (r : Report)
      → seen (serious a b) (check_virt_posture m r)
        ≡ seen (serious a b) r || (no_virt_extensions m && a)
  unfolding check_virt_posture
  seen-check_virt_posture r = simp (seen-check_cpu_virt_extensions, seen-report_posture)
