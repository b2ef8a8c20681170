-- ===== src/Kvm/Blocking.antt =====
-- When the KVM checks hold the boot stage back.
use fc_preflight.Prelude.{
  Bool, true, false, not, ◌||◌, none, some, List, ◌≡◌, refl, ◌∙◌, inl, inr, arith, Option-cases,
}
use fc_preflight.Report.{Report}
use fc_preflight.Gate.{
  stops_boot, is_kvm_gate, has_blocking_kvm_failure, has_blocking_kvm_failure-any,
}
use fc_preflight.Host.Machine.{Outcome-cases, Machine}
use fc_preflight.Kvm.Caps.{Cap}
use fc_preflight.Kvm.Effect.{Reads, opens, kvm_works, denied, device_loss, kvm_loss, seen-check_kvm}
use fc_preflight.Kvm.{check_kvm, caps_for, dev_kvm}

-- The architecture is known, and KVM cannot run Firecracker.
abbrev pub kvm_unusable : Machine → Bool
kvm_unusable m = elim (caps_for m.arch) [ some caps ↦ not (kvm_works m caps) | none ↦ false ]

stops_boot-Reads : Reads stops_boot true true false
unfolding is_kvm_gate
stops_boot-Reads = record {
  at_pass = λ id t d v. refl;
  at_info = λ id t d v. refl;
  at_warn = λ id t d rem. refl;
  at_device = λ t d rem. refl;
  at_open = λ t d rem. refl;
  at_api = λ t d rem. refl;
  at_caps = λ t d rem. refl;
  at_create_vm = λ t d rem. refl;
  at_create_vcpu = λ t d rem. refl;
  at_open_blocked = λ t d rem. refl;
  at_arch = λ t d rem. refl;
}

module _ (m : Machine) where
  -- A device that is refused does not work.
  loss_either : (caps : List Cap) → device_loss m caps true true ≡ not (kvm_works m caps)
  loss_either caps = elim (Outcome-cases (m.stat dev_kvm)) [
    | inl (fi, e) ↦
        rw (e, denied, kvm_works)
          (elim (Outcome-cases (m.open_rw dev_kvm)) [
            | inl (kvm, o) ↦ rw (o, denied, opens) (ground arith)
            | inr (x, o) ↦ rw (o, denied, opens) (ground arith)
          ])
    | inr (x, e) ↦ rw (e, denied, kvm_works) refl
  ]

  loss_unusable : kvm_loss m true true false ≡ kvm_unusable m
  loss_unusable = elim (Option-cases (caps_for m.arch)) [
    | inl e ↦ rw (e, kvm_loss, kvm_unusable) refl
    | inr (caps, e) ↦ rw (e, kvm_loss, kvm_unusable) (loss_either caps)
  ]

  -- After the KVM checks the boot stage is held back exactly if it was held back before them, or
  -- the architecture is one of the two that the tool knows and KVM cannot run Firecracker: its
  -- device is missing, no character device or does not open, it does not speak version 12, lacks a
  -- required capability, or hands out no VM or no vCPU.
  pub check_kvm_gate :
      (r : Report)
      → has_blocking_kvm_failure (check_kvm m r) ≡ has_blocking_kvm_failure r || kvm_unusable m
  check_kvm_gate r =
      has_blocking_kvm_failure-any (check_kvm m r)
      ∙ seen-check_kvm m stops_boot stops_boot-Reads r
      ∙ rw (has_blocking_kvm_failure-any r, loss_unusable) refl
