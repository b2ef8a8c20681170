-- ===== src/Host/Memory/Effect.antt =====
-- What the checks of cgroups and memory add to a report.
use fc_preflight.Prelude.{
  Bool, ◌&&◌, ◌||◌, Option, none, some, List, [], ◌∷◌, ◌≡◌, refl, inl, inr, arith, Bool-cases, ◌==◌,
  not,
}
use fc_preflight.Prelude.Int.{ℤ}
use fc_preflight.Text.{Bytes, codes}
use fc_preflight.Text.Number.{atoi}
use fc_preflight.Report.{Report}
use fc_preflight.Report.Seen.{seen}
use fc_preflight.Report.Serious.{serious, check_laws}
use fc_preflight.Host.Machine.{Outcome-cases, is_ok, Machine}
use fc_preflight.Host.Memory.{
  report_controllers, check_cgroups, cgroup2_super_magic, check_overcommit, check_thp,
  report_max_map, check_max_map, check_nofile, check_memory,
}

-- Nothing is mounted where the cgroup hierarchy should be.
abbrev pub no_cgroup_mount : Machine → Bool
no_cgroup_mount m = not (is_ok (m.statfs_type (codes "/sys/fs/cgroup")))

module _ (a b : Bool) where
  seen-report_controllers :
      (text : Bytes) (missing : List Bytes) (r : Report)
      → seen (serious a b) (report_controllers text missing r) ≡ seen (serious a b) r
  unfolding report_controllers
  seen-report_controllers text [] r = simp check_laws
  seen-report_controllers text (c ∷ cs) r = simp check_laws

  pub seen-check_cgroups :
      (m : Machine) (r : Report)
      → seen (serious a b) (check_cgroups m r) ≡ seen (serious a b) r || (no_cgroup_mount m && a)
  unfolding check_cgroups
  seen-check_cgroups m r = elim (Outcome-cases (m.statfs_type (codes "/sys/fs/cgroup"))) [
    | inl (magic, e) ↦
        rw (e, check_cgroups)
          (elim (Bool-cases (magic == cgroup2_super_magic)) [
            | inl two ↦ rw two (simp seen-report_controllers (ground arith))
            | inr one ↦ rw one (simp check_laws)
          ])
    | inr (x, e) ↦ rw (e, check_cgroups) (simp check_laws)
  ]

  seen-check_overcommit :
      (text : Bytes) (r : Report)
      → seen (serious a b) (check_overcommit text r) ≡ seen (serious a b) r
  unfolding check_overcommit
  seen-check_overcommit text r = simp check_laws (ground arith)

  seen-check_thp :
      (text : Bytes) (r : Report) → seen (serious a b) (check_thp text r) ≡ seen (serious a b) r
  unfolding check_thp
  seen-check_thp text r = simp check_laws (ground arith)

  seen-report_max_map :
      (text : Bytes) (n : Option ℤ) (r : Report)
      → seen (serious a b) (report_max_map text n r) ≡ seen (serious a b) r
  unfolding report_max_map
  seen-report_max_map text none r = simp check_laws
  seen-report_max_map text (some n) r = simp check_laws (ground arith)

  seen-check_max_map :
      (text : Bytes) (r : Report) → seen (serious a b) (check_max_map text r) ≡ seen (serious a b) r
  seen-check_max_map text r = unfold check_max_map in seen-report_max_map text (atoi text) r

  seen-check_nofile :
      (m : Machine) (r : Report) → seen (serious a b) (check_nofile m r) ≡ seen (serious a b) r
  unfolding check_nofile
  seen-check_nofile m r = elim (Outcome-cases m.nofile_limit) [
    | inl (limits, e) ↦ rw (e, check_nofile) (simp check_laws (ground arith))
    | inr (x, e) ↦ rw (e, check_nofile) refl
  ]

  pub seen-check_memory :
      (m : Machine) (r : Report) → seen (serious a b) (check_memory m r) ≡ seen (serious a b) r
  unfolding check_memory
  seen-check_memory m r =
      simp
        (seen-check_nofile, seen-check_max_map, seen-check_thp, seen-check_overcommit, check_laws)
