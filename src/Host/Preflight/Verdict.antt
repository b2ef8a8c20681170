-- ===== src/Host/Preflight/Verdict.antt =====
-- The verdict of the preflight stage, from the answers of the machine alone.
use fc_preflight.Prelude.{
  Bool, true, false, not, ◌&&◌, ◌||◌, none, some, ◌≡◌, refl, ◌∙◌, inl, inr, arith, any,
  if◌then◌else◌, Bool-cases, Option-cases,
}
use fc_preflight.Text.{Bytes}
use fc_preflight.Status.{Status}
use fc_preflight.Report.{Report, new_report, finish}
use fc_preflight.Report.Seen.{seen, or_assoc}
use fc_preflight.Report.Serious.{serious, has-fail, has-blocked}
use fc_preflight.Report.Verdict.{has, finish-verdict}
use fc_preflight.Host.Machine.{Machine}
use fc_preflight.Host.Platform.{parse_kernel_version, kernel_release}
use fc_preflight.Host.Platform.Effect.{kernel_too_old, seen-check_platform}
use fc_preflight.Host.Virt.Effect.{no_virt_extensions, seen-check_virt_posture}
use fc_preflight.Host.Cpu.Effect.{seen-check_cpu}
use fc_preflight.Kvm.{caps_for}
use fc_preflight.Kvm.Effect.{Reads, kvm_works, denied, kvm_loss, seen-check_kvm}
use fc_preflight.Host.Tuning.{params}
use fc_preflight.Host.Tuning.Effect.{paging_off, seen-check_kvm_tuning}
use fc_preflight.Host.Devices.Effect.{tun_missing, seen-check_devices, seen-check_host_firewall}
use fc_preflight.Host.Syscalls.Effect.{no_seccomp, seen-check_syscalls}
use fc_preflight.Host.Memory.Effect.{no_cgroup_mount, seen-check_cgroups, seen-check_memory}
use fc_preflight.Host.Config.{read_kernel_config}
use fc_preflight.Host.Config.Effect.{config_fails, seen-check_host_kernel_config}
use fc_preflight.Host.Preflight.{run_preflight}

serious-Reads : (a b : Bool) → Reads (serious a b) a b a
serious-Reads a b = record {
  at_pass = λ id t d v. refl;
  at_info = λ id t d v. refl;
  at_warn = λ id t d rem. refl;
  at_device = λ t d rem. refl;
  at_open = λ t d rem. refl;
  at_api = λ t d rem. refl;
  at_caps = λ t d rem. refl;
  at_create_vm = λ t d rem. refl;
  at_create_vcpu = λ t d rem. refl;
  at_open_blocked = λ t d rem. refl;
  at_arch = λ t d rem. refl;
}

-- The conditions under which a check fails, in the order of the checks.
abbrev loss : Machine → Bool → Bool → Bool
loss m a b =
    (kernel_too_old (parse_kernel_version (kernel_release m)) && a)
    || ((no_virt_extensions m && a)
        || (kvm_loss m a b a
            || ((any (paging_off m) params && a)
                || ((tun_missing m && a)
                    || ((no_seccomp m && a)
                        || ((no_cgroup_mount m && a)
                            || (config_fails m (read_kernel_config m) && a)))))))

seen-run_preflight :
    (a b : Bool) (m : Machine) (r : Report)
    → seen (serious a b) (run_preflight m r) ≡ seen (serious a b) r || loss m a b
unfolding run_preflight
seen-run_preflight a b m r = simp (
  seen-check_host_kernel_config,
  seen-check_memory,
  seen-check_cgroups,
  seen-check_host_firewall,
  seen-check_syscalls,
  seen-check_devices,
  seen-check_kvm_tuning,
  seen-check_kvm m (serious a b) (serious-Reads a b),
  seen-check_cpu,
  seen-check_virt_posture,
  seen-check_platform,
  or_assoc,
)

-- KVM cannot run Firecracker here, or the architecture is unknown; a device that only an
-- unprivileged user is refused says nothing.
abbrev pub kvm_fails : Machine → Bool
kvm_fails m = elim (caps_for m.arch) [
  | some caps ↦ not (denied m) && not (kvm_works m caps)
  | none ↦ true
]

-- The device is refused to an unprivileged user, on a known architecture.
abbrev pub kvm_undetermined : Machine → Bool
kvm_undetermined m = elim (caps_for m.arch) [ some caps ↦ denied m | none ↦ false ]

-- Some check of the preflight establishes that the host is unsuitable.
abbrev pub unsuitable : Machine → Bool
unsuitable m =
    kernel_too_old (parse_kernel_version (kernel_release m))
    || (no_virt_extensions m
        || (kvm_fails m
            || (any (paging_off m) params
                || (tun_missing m
                    || (no_seccomp m
                        || (no_cgroup_mount m || config_fails m (read_kernel_config m)))))))

and-true : (x : Bool) → x && true ≡ x
and-true x = ground arith

and-false : (x : Bool) → x && false ≡ false
and-false x = ground arith

or-false : (x : Bool) → x || false ≡ x
or-false x = ground arith

module _ (m : Machine) where
  kvm_loss-fail : kvm_loss m true false true ≡ kvm_fails m
  kvm_loss-fail = elim (Option-cases (caps_for m.arch)) [
    | inl e ↦ rw (e, kvm_loss, kvm_fails) refl
    | inr (caps, e) ↦
        rw (e, kvm_loss, kvm_fails)
          (elim (Bool-cases (denied m)) [
            | inl d ↦ rw d refl
            | inr d ↦ rw d (and-true (not (kvm_works m caps)))
          ])
  ]

  kvm_loss-blocked : kvm_loss m false true false ≡ kvm_undetermined m
  kvm_loss-blocked = elim (Option-cases (caps_for m.arch)) [
    | inl e ↦ rw (e, kvm_loss, kvm_undetermined) refl
    | inr (caps, e) ↦
        rw (e, kvm_loss, kvm_undetermined)
          (elim (Bool-cases (denied m)) [
            | inl d ↦ rw d refl
            | inr d ↦ rw d (and-false (not (kvm_works m caps)))
          ])
  ]

-- The preflight adds a failure exactly if the machine is unsuitable.
pub has-fail-run_preflight :
    (m : Machine) (r : Report)
    → has Status.fail (run_preflight m r).results ≡ has Status.fail r.results || unsuitable m
has-fail-run_preflight m r =
    has-fail (run_preflight m r).results
    ∙ seen-run_preflight true false m r
    ∙ rw (kvm_loss-fail m, has-fail r.results) (simp and-true)

-- It adds a blocked result exactly if /dev/kvm is refused to an unprivileged user.
pub has-blocked-run_preflight :
    (m : Machine) (r : Report)
    → has Status.blocked (run_preflight m r).results
      ≡ has Status.blocked r.results || kvm_undetermined m
has-blocked-run_preflight m r =
    has-blocked (run_preflight m r).results
    ∙ seen-run_preflight false true m r
    ∙ rw (kvm_loss-blocked m, has-blocked r.results) (simp (and-false, or-false))

-- The verdict of the preflight on a new report: fail exactly if the kernel is older than 5.10, an
-- x86 CPU has no virtualization extensions, KVM cannot run Firecracker (an unknown architecture
-- included), EPT or NPT is off, the tun device is missing, seccomp is missing on a known
-- architecture, statfs of /sys/fs/cgroup fails, or a readable kernel configuration lacks a required
-- option; otherwise blocked if /dev/kvm is refused to a user who is not root; otherwise pass.
pub run_preflight_verdict :
    (m : Machine) (hostname now elapsed : Bytes) (verbose : Bool)
    → (finish elapsed (run_preflight m (new_report hostname now verbose))).verdict ≡ (
        if unsuitable m
        then Status.fail
        else if kvm_undetermined m
        then Status.blocked
        else Status.pass)
unfolding new_report
run_preflight_verdict m hostname now elapsed verbose =
    finish-verdict elapsed (run_preflight m (new_report hostname now verbose))
    ∙ rw
        (
          has-fail-run_preflight m (new_report hostname now verbose),
          has-blocked-run_preflight m (new_report hostname now verbose),
        )
        refl
