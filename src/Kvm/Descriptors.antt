-- ===== src/Kvm/Descriptors.antt =====
-- The KVM checks close every descriptor that they open.
use fc_preflight.Prelude.{
  ℕ, not, ◌&&◌, List, [], ◌∷◌, ◌≡◌, refl, ◌∙◌, inl, inr, ◌==◌, Bool-cases, Option-cases,
}
use fc_preflight.Text.{Bytes}
use fc_preflight.Report.{Report}
use fc_preflight.Report.Seen.{open_fds-close_fd, fds_laws}
use fc_preflight.Host.Machine.{Outcome-cases, OsError, is_permission, Machine}
use fc_preflight.Kvm.Caps.{Cap}
use fc_preflight.Prelude.Int.{ℤ}
use fc_preflight.Kvm.{
  check_vcpu, check_vm, check_mmap_size, check_sizing, check_sizing_cap, check_cap, check_caps,
  check_missing, check_capabilities, check_api, check_open, check_open_error, check_device,
  check_kvm, kvm_create_vcpu, kvm_create_vm, kvm_get_api_version, kvm_get_vcpu_mmap_size,
  kvm_check_extension, dev_kvm, cap_value, caps_for,
}

module _ (m : Machine) where
  fds-check_vcpu : (vmfd : ℕ) (r : Report) → (check_vcpu m vmfd r).open_fds ≡ r.open_fds
  unfolding check_vcpu
  fds-check_vcpu vmfd r = elim (Outcome-cases (m.ioctl vmfd kvm_create_vcpu 0)) [
    | inl (fd, e) ↦
        rw (e, check_vcpu) (simp fds_laws (open_fds-close_fd fd r.open_fds _ (simp fds_laws)))
    | inr (x, e) ↦ rw (e, check_vcpu) (simp fds_laws)
  ]

  fds-check_vm : (kvm : ℕ) (r : Report) → (check_vm m kvm r).open_fds ≡ r.open_fds
  unfolding check_vm
  fds-check_vm kvm r = elim (Outcome-cases (m.ioctl kvm kvm_create_vm 0)) [
    | inl (fd, e) ↦
        rw (e, check_vm) (open_fds-close_fd fd r.open_fds _ (fds-check_vcpu fd _ ∙ simp fds_laws))
    | inr (x, e) ↦ rw (e, check_vm) (simp fds_laws)
  ]

  fds-check_mmap_size : (kvm : ℕ) (r : Report) → (check_mmap_size m kvm r).open_fds ≡ r.open_fds
  unfolding check_mmap_size
  fds-check_mmap_size kvm r = elim (Outcome-cases (m.ioctl kvm kvm_get_vcpu_mmap_size 0)) [
    | inl (fd, e) ↦ rw (e, check_mmap_size) (simp fds_laws)
    | inr (x, e) ↦ rw (e, check_mmap_size) refl
  ]

  fds-check_sizing :
      (kvm : ℕ) (cs : List Cap) (r : Report) → (check_sizing m kvm cs r).open_fds ≡ r.open_fds
  unfolding check_sizing check_sizing_cap
  fds-check_sizing kvm [] r = refl
  fds-check_sizing kvm (c ∷ cs) r =
      fds-check_sizing kvm cs (check_sizing_cap m kvm c r)
      ∙ elim (Outcome-cases (m.ioctl kvm kvm_check_extension c.num)) [
        | inl (fd, e) ↦ rw (e, check_sizing_cap) (simp fds_laws)
        | inr (x, e) ↦ rw (e, check_sizing_cap) refl
      ]

  fds-check_caps :
      (kvm : ℕ) (cs : List Cap) (r : Report) → (check_caps m kvm cs r).open_fds ≡ r.open_fds
  unfolding check_caps check_cap
  fds-check_caps kvm [] r = refl
  fds-check_caps kvm (c ∷ cs) r =
      fds-check_caps kvm cs (check_cap m kvm c r)
      ∙ elim (Bool-cases (cap_value m kvm c == 0 && not c.required)) [
        | inl e ↦ rw e (simp fds_laws)
        | inr e ↦ rw e refl
      ]

  fds-check_missing :
      (caps : List Cap) (present : List (Bytes × ℤ)) (names : List Bytes) (r : Report)
      → (check_missing caps present names r).open_fds ≡ r.open_fds
  unfolding check_missing
  fds-check_missing caps present [] r = simp fds_laws
  fds-check_missing caps present (n ∷ names) r = simp fds_laws

  fds-check_capabilities :
      (caps : List Cap) (kvm : ℕ) (r : Report)
      → (check_capabilities m caps kvm r).open_fds ≡ r.open_fds
  unfolding check_capabilities
  fds-check_capabilities caps kvm r =
      simp (fds-check_vm, fds-check_mmap_size, fds-check_sizing, fds-check_missing, fds-check_caps)

  fds-check_api :
      (caps : List Cap) (kvm : ℕ) (r : Report) → (check_api m caps kvm r).open_fds ≡ r.open_fds
  unfolding check_api
  fds-check_api caps kvm r = elim (Outcome-cases (m.ioctl kvm kvm_get_api_version 0)) [
    | inl (v, e) ↦
        rw (e, check_api)
          (elim (Bool-cases (v == 12)) [
            | inl twelve ↦ rw twelve (simp (fds_laws, fds-check_capabilities))
            | inr differs ↦ rw differs (simp fds_laws)
          ])
    | inr (x, e) ↦ rw (e, check_api) (simp fds_laws)
  ]

  fds-check_open_error : (x : OsError) (r : Report) → (check_open_error m x r).open_fds ≡ r.open_fds
  unfolding check_open_error
  fds-check_open_error x r = elim (Bool-cases (is_permission x)) [
    | inl denied ↦ elim (Bool-cases (m.euid == 0)) [
      | inl root ↦ rw (denied, root) (simp fds_laws)
      | inr user ↦ rw (denied, user) (simp fds_laws)
    ]
    | inr fault ↦ rw fault (simp fds_laws)
  ]

  fds-check_open : (caps : List Cap) (r : Report) → (check_open m caps r).open_fds ≡ r.open_fds
  unfolding check_open
  fds-check_open caps r = elim (Outcome-cases (m.open_rw dev_kvm)) [
    | inl (kvm, e) ↦
        rw (e, check_open)
          (open_fds-close_fd kvm r.open_fds _ (fds-check_api caps kvm _ ∙ simp fds_laws))
    | inr (x, e) ↦ rw (e, check_open) (fds-check_open_error x r)
  ]

  fds-check_device : (caps : List Cap) (r : Report) → (check_device m caps r).open_fds ≡ r.open_fds
  unfolding check_device
  fds-check_device caps r = elim (Outcome-cases (m.stat dev_kvm)) [
    | inl (fi, e) ↦
        rw (e, check_device)
          (elim (Bool-cases fi.char_device) [
            | inl device ↦ rw device (simp (fds_laws, fds-check_open))
            | inr plain_file ↦ rw plain_file (simp fds_laws)
          ])
    | inr (x, e) ↦ rw (e, check_device) (simp fds_laws)
  ]

  -- Whatever the machine answers, and wherever the KVM checks stop, the descriptors that are open
  -- afterwards are those that were open before.
  pub check_kvm_closes : (r : Report) → (check_kvm m r).open_fds ≡ r.open_fds
  unfolding check_kvm
  check_kvm_closes r = elim (Option-cases (caps_for m.arch)) [
    | inl e ↦ rw (e, check_kvm) (simp fds_laws)
    | inr (caps, e) ↦ rw (e, check_kvm) (fds-check_device caps r)
  ]
