-- ===== src/Host/Platform.antt =====
-- host_linux.go: the platform, its distribution and its kernel version.
pub mod Effect
use fc_preflight.Prelude.{
  ℕ, Bool, not, ◌&&◌, ◌||◌, Option, none, some, List, [], ◌∷◌, ◌++◌, if◌then◌else◌,
}
use fc_preflight.Prelude.Int.{ℤ, lt_ℕ, eq_ℕ}
use fc_preflight.Text.{Bytes, codes, cut, trim, equal, scan_lines, default_buffer}
use fc_preflight.Text.Number.{atoi, itoa_ℤ}
use fc_preflight.Text.Quote.{quote}
use fc_preflight.Text.Dict
use fc_preflight.Text.Dict.{Dict}
use fc_preflight.Status.{Status}
use fc_preflight.Report.{Datum, Check, ◌>>◌, done, add_result, addf, fail, warn}
use fc_preflight.Host.Machine.{arch_name, ok, err, Machine, read_file_default}

-- The loop over the lines of /etc/os-release.
os_release_lines : List Bytes → Dict → Dict
os_release_lines [] d = d
os_release_lines (l ∷ ls) d =
    os_release_lines ls
      (elim (cut l b'=') [ none ↦ d | some (k, v) ↦ Dict.insert k (trim v b'"') d ])

unfoldable pub os_release : Machine → Dict
unfolding os_release_lines
os_release m = elim (m.read_file (codes "/etc/os-release")) [
  | err e ↦ []
  | ok content ↦ os_release_lines (scan_lines default_buffer content).0 []
]

-- strings.SplitN(s, ".", 3), as far as it is read: the first two parts, if there are two
first_two_parts : Bytes → Option (Bytes × Bytes)
first_two_parts s = elim (cut s b'.') [
  | none ↦ none
  | some (a, rest) ↦ elim (cut rest b'.') [ none ↦ some (a, rest) | some (b, c) ↦ some (a, b) ]
]

both_numbers : Option ℤ → Option ℤ → Option (ℤ × ℤ)
both_numbers (some a) (some b) = some (a, b)
both_numbers _ _ = none

-- parseKernelVersion; `none` is its false
unfoldable pub parse_kernel_version : Bytes → Option (ℤ × ℤ)
unfolding first_two_parts both_numbers
parse_kernel_version s = elim (first_two_parts s) [
  | none ↦ none
  | some (a, b) ↦ both_numbers (atoi a) (atoi b)
]

version_text : ℤ → ℤ → Bytes
version_text maj min = itoa_ℤ maj ++ (codes "." ++ itoa_ℤ min)

-- Below 5.10.
abbrev pub too_old : ℤ → ℤ → Bool
too_old maj min = lt_ℕ maj 5 || (eq_ℕ maj 5 && lt_ℕ min 10)

pub check_version : ℤ → ℤ → Check
check_version maj min =
    if too_old maj min
    then fail (codes "host.kernel_version") (codes "Host kernel version")
        (codes "kernel "
          ++ (version_text maj min ++ codes " is below Firecracker's supported floor of 5.10"))
        (codes "Use a 5.10+ kernel; Fly hosts run 6.x.")
    else if eq_ℕ maj 5
    then warn (codes "host.kernel_version") (codes "Host kernel version")
        (codes "kernel "
          ++ (version_text maj min
              ++ codes " is supported by Firecracker but older than Fly's 6.x hosts"))
        (codes "Prefer a 6.1+ kernel so the comparison against a Fly host is meaningful.")
    else addf (codes "host.kernel_version") (codes "Host kernel version") Status.pass
        (version_text maj min)

pub check_kernel_version : Option (ℤ × ℤ) → Check
check_kernel_version none = done
check_kernel_version (some (maj, min)) = check_version maj min

pub check_distro : Dict → Check
check_distro osrel =
    if not (equal (Dict.get osrel (codes "ID")) (codes "ubuntu"))
    then warn (codes "host.distro") (codes "Stock Ubuntu")
        (codes "distro is " ++ (quote (Dict.get osrel (codes "ID")) ++ codes ", not ubuntu"))
        (codes "The evaluation baseline is stock Ubuntu. Results from another distro are still "
          ++ codes "useful but are not directly comparable.")
    else addf (codes "host.distro") (codes "Stock Ubuntu") Status.pass
        (Dict.get osrel (codes "PRETTY_NAME"))

-- The release of the running kernel.
abbrev pub kernel_release : Machine → Bytes
kernel_release m = read_file_default m (codes "/proc/sys/kernel/osrelease") (codes "unknown")

-- checkPlatform
pub check_platform : Machine → Check
check_platform m =
    let osrel = os_release m in
    let kernel = kernel_release m in
    do
      add_result (record {
        id = codes "host.platform";
        title = codes "Host platform";
        status = Status.info;
        detail =
            Dict.get osrel (codes "PRETTY_NAME")
            ++ (codes " -- kernel " ++ (kernel ++ (codes " -- " ++ arch_name m.arch)));
        values =
            (codes "distro", Datum.text (Dict.get osrel (codes "PRETTY_NAME")))
            ∷ (codes "distro_id", Datum.text (Dict.get osrel (codes "ID")))
            ∷ (codes "version_id", Datum.text (Dict.get osrel (codes "VERSION_ID")))
            ∷ (codes "kernel", Datum.text kernel)
            ∷ (codes "arch", Datum.text (arch_name m.arch))
            ∷ [];
        remedy = [];
      })
      check_distro osrel
      check_kernel_version (parse_kernel_version kernel)
