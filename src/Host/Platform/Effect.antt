-- ===== src/Host/Platform/Effect.antt =====
-- What the platform checks add to a report.
use fc_preflight.Prelude.{Bool, false, ◌&&◌, ◌||◌, Option, none, some, ◌≡◌, arith}
use fc_preflight.Prelude.Int.{ℤ}
use fc_preflight.Text.Dict.{Dict}
use fc_preflight.Report.{Report}
use fc_preflight.Report.Seen.{seen}
use fc_preflight.Report.Serious.{serious, check_laws}
use fc_preflight.Host.Machine.{Machine}
use fc_preflight.Host.Platform.{
  too_old, check_version, check_kernel_version, check_distro, check_platform, parse_kernel_version,
  kernel_release,
}

-- The running kernel has a version, and it is below 5.10.
abbrev pub kernel_too_old : Option (ℤ × ℤ) → Bool
kernel_too_old none = false
kernel_too_old (some (maj, min)) = too_old maj min

module _ (a b : Bool) where
  seen-check_distro :
      (d : Dict) (r : Report) → seen (serious a b) (check_distro d r) ≡ seen (serious a b) r
  unfolding check_distro
  seen-check_distro d r = simp check_laws (ground arith)

  seen-check_version :
      (maj min : ℤ) (r : Report)
      → seen (serious a b) (check_version maj min r)
        ≡ seen (serious a b) r || (too_old maj min && a)
  unfolding check_version
  seen-check_version maj min r = simp check_laws (ground arith)

  seen-check_kernel_version :
      (v : Option (ℤ × ℤ)) (r : Report)
      → seen (serious a b) (check_kernel_version v r)
        ≡ seen (serious a b) r || (kernel_too_old v && a)
  unfolding check_kernel_version
  seen-check_kernel_version none r = ground arith
  seen-check_kernel_version (some (maj, min)) r = seen-check_version maj min r

  pub seen-check_platform :
      (m : Machine) (r : Report)
      → seen (serious a b) (check_platform m r)
        ≡ seen (serious a b) r || (kernel_too_old (parse_kernel_version (kernel_release m)) && a)
  unfolding check_platform
  seen-check_platform m r = simp (seen-check_kernel_version, seen-check_distro, check_laws)
