-- ===== src/Host/Syscalls/Effect.antt =====
-- What the system call checks add to a report.
use fc_preflight.Prelude.{
  ℕ, Bool, false, ◌&&◌, ◌||◌, not, none, some, ◌≡◌, inl, inr, arith, Option-cases,
}
use fc_preflight.Text.{codes, contains}
use fc_preflight.Report.{Report}
use fc_preflight.Report.Seen.{seen}
use fc_preflight.Report.Serious.{serious, check_laws}
use fc_preflight.Host.Machine.{Machine}
use fc_preflight.Host.Syscalls.{
  syscall_numbers, proc_status, check_io_uring, report_userfaultfd, check_seccomp, check_syscalls,
}

-- The architecture has a table of system calls, and the kernel shows no seccomp state.
abbrev pub no_seccomp : Machine → Bool
no_seccomp m = elim (syscall_numbers m.arch) [
  | some nrs ↦ not (contains (proc_status m) (codes "Seccomp:"))
  | none ↦ false
]

module _ (a b : Bool) (m : Machine) where
  seen-check_io_uring :
      (nr : ℕ) (r : Report) → seen (serious a b) (check_io_uring m nr r) ≡ seen (serious a b) r
  unfolding check_io_uring
  seen-check_io_uring nr r = simp check_laws (ground arith)

  seen-report_userfaultfd :
      (fd e : ℕ) (r : Report)
      → seen (serious a b) (report_userfaultfd m fd e r) ≡ seen (serious a b) r
  unfolding report_userfaultfd
  seen-report_userfaultfd fd e r = simp check_laws (ground arith)

  seen-check_seccomp :
      (r : Report)
      → seen (serious a b) (check_seccomp m r)
        ≡ seen (serious a b) r || (not (contains (proc_status m) (codes "Seccomp:")) && a)
  unfolding check_seccomp
  seen-check_seccomp r = simp check_laws (ground arith)

  pub seen-check_syscalls :
      (r : Report)
      → seen (serious a b) (check_syscalls m r) ≡ seen (serious a b) r || (no_seccomp m && a)
  unfolding check_syscalls
  seen-check_syscalls r = elim (Option-cases (syscall_numbers m.arch)) [
    | inl e ↦ rw (e, check_syscalls, no_seccomp) (simp check_laws)
    | inr (nrs, e) ↦
        rw (e, check_syscalls, no_seccomp)
          (simp (seen-check_seccomp, seen-report_userfaultfd, seen-check_io_uring))
  ]
