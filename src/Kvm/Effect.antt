-- ===== src/Kvm/Effect.antt =====
-- What the KVM checks add to a report, as seen by a test on results.
use fc_preflight.Prelude.{
  ℕ, Bool, true, false, not, ◌&&◌, ◌||◌, none, some, List, [], ◌∷◌, ◌≡◌, refl, ◌∙◌, inl, inr, arith,
  ◌==◌, if◌then◌else◌, Bool-cases, Option-cases, any,
}
use fc_preflight.Text.{Bytes, codes}
use fc_preflight.Status.{Status}
use fc_preflight.Prelude.Int.{ℤ}
use fc_preflight.Report.{Datum, Result, Report}
use fc_preflight.Report.Seen.{
  seen, plain, seen-add, seen-addf, seen-fail, seen-warn, seen-blocked, seen-open_fd, seen-close_fd,
  or-false, or_assoc,
}
use fc_preflight.Host.Machine.{Outcome-cases, ok, err, is_ok, OsError, is_permission, Machine}
use fc_preflight.Kvm.Caps.{Cap}
use fc_preflight.Kvm.{
  check_vcpu, check_vm, check_mmap_size, check_sizing, check_sizing_cap, check_cap, check_caps,
  check_missing, check_capabilities, check_api, check_open, check_open_error, check_device,
  check_kvm, kvm_create_vcpu, kvm_create_vm, kvm_get_api_version, kvm_get_vcpu_mmap_size,
  kvm_check_extension, dev_kvm, missing_required, cap_value, caps_for,
}

-- A vCPU can be made in the VM.
abbrev pub vcpu_works : Machine → ℕ → Bool
vcpu_works m vmfd = is_ok (m.ioctl vmfd kvm_create_vcpu 0)

-- A VM can be made, and a vCPU in it.
abbrev pub vm_works : Machine → ℕ → Bool
vm_works m kvm = elim (m.ioctl kvm kvm_create_vm 0) [ ok vmfd ↦ vcpu_works m vmfd | err e ↦ false ]

-- A capability that Firecracker requires is not there.
abbrev pub lacks : Machine → ℕ → Cap → Bool
lacks m kvm c = cap_value m kvm c == 0 && c.required

abbrev pub api_works : Machine → List Cap → ℕ → Bool
api_works m caps kvm = elim (m.ioctl kvm kvm_get_api_version 0) [
  | ok v ↦ v == 12 && (not (any (lacks m kvm) caps) && vm_works m kvm)
  | err e ↦ false
]

abbrev pub opens : Machine → List Cap → Bool
opens m caps = elim (m.open_rw dev_kvm) [ ok kvm ↦ api_works m caps kvm | err e ↦ false ]

-- KVM can run Firecracker: its device is a character device that opens, speaks version 12 of the
-- interface, has the required capabilities, and hands out a VM and a vCPU.
abbrev pub kvm_works : Machine → List Cap → Bool
kvm_works m caps = elim (m.stat dev_kvm) [ ok fi ↦ fi.char_device && opens m caps | err e ↦ false ]

-- The device is there and refused to an unprivileged user.
abbrev pub denied : Machine → Bool
denied m = elim (m.stat dev_kvm) [
  | ok fi ↦
      fi.char_device
      && elim (m.open_rw dev_kvm) [ ok kvm ↦ false | err e ↦ is_permission e && not (m.euid == 0) ]
  | err e ↦ false
]

abbrev pub record_of : Bytes → Bytes → Status → Bytes → List (Bytes × Datum) → Bytes → Result
record_of id title st detail values remedy = record {
  id = id;
  title = title;
  status = st;
  detail = detail;
  values = values;
  remedy = remedy;
}

-- A test on results that passes over what is no failure, and has the value a at a failure of a KVM
-- check, b where the device was refused, and c at an unknown architecture.
pub record Reads (p : Result → Bool) (a b c : Bool) : Type 0 where
  pub at_pass :
      (id t d : Bytes) (v : List (Bytes × Datum)) → p (record_of id t Status.pass d v []) ≡ false
  pub at_info :
      (id t d : Bytes) (v : List (Bytes × Datum)) → p (record_of id t Status.info d v []) ≡ false
  pub at_warn : (id t d rem : Bytes) → p (plain id t Status.warn d rem) ≡ false
  pub at_device : (t d rem : Bytes) → p (plain (codes "kvm.device") t Status.fail d rem) ≡ a
  pub at_open : (t d rem : Bytes) → p (plain (codes "kvm.open") t Status.fail d rem) ≡ a
  pub at_api : (t d rem : Bytes) → p (plain (codes "kvm.api_version") t Status.fail d rem) ≡ a
  pub at_caps : (t d rem : Bytes) → p (plain (codes "kvm.caps.required") t Status.fail d rem) ≡ a
  pub at_create_vm : (t d rem : Bytes) → p (plain (codes "kvm.create_vm") t Status.fail d rem) ≡ a
  pub at_create_vcpu :
      (t d rem : Bytes) → p (plain (codes "kvm.create_vcpu") t Status.fail d rem) ≡ a
  pub at_open_blocked : (t d rem : Bytes) → p (plain (codes "kvm.open") t Status.blocked d rem) ≡ b
  pub at_arch : (t d rem : Bytes) → p (plain (codes "kvm.arch") t Status.fail d rem) ≡ c

-- What the checks after the architecture come to.
abbrev pub device_loss : Machine → List Cap → Bool → Bool → Bool
device_loss m caps a b = if denied m then b else not (kvm_works m caps) && a

abbrev pub kvm_loss : Machine → Bool → Bool → Bool → Bool
kvm_loss m a b c = elim (caps_for m.arch) [ some caps ↦ device_loss m caps a b | none ↦ c ]

either_lost : (l v a : Bool) → (l && a) || (not v && a) ≡ not (not l && v) && a
either_lost l v a = ground arith

ruleset seen_laws = (
  seen-add, seen-addf, seen-fail, seen-warn, seen-blocked, seen-open_fd, seen-close_fd, or-false,
  or_assoc,
)

missing-any :
    (m : Machine) (kvm : ℕ) (cs : List Cap)
    → any (λ n. true) (missing_required m kvm cs) ≡ any (lacks m kvm) cs
unfolding missing_required
missing-any m kvm [] = refl
missing-any m kvm (c ∷ cs) = elim (Bool-cases (lacks m kvm c)) [
  | inl e ↦ rw e refl
  | inr e ↦ rw e (missing-any m kvm cs)
]

module _ (m : Machine) (p : Result → Bool) {a b c : Bool} (h : Reads p a b c) where
  seen-check_vcpu :
      (vmfd : ℕ) (r : Report)
      → seen p (check_vcpu m vmfd r) ≡ seen p r || (not (vcpu_works m vmfd) && a)
  unfolding check_vcpu
  seen-check_vcpu vmfd r = elim (Outcome-cases (m.ioctl vmfd kvm_create_vcpu 0)) [
    | inl (fd, e) ↦ rw (e, check_vcpu) (simp (seen_laws, h.at_pass))
    | inr (x, e) ↦ rw (e, check_vcpu) (simp (seen_laws, h.at_create_vcpu))
  ]

  seen-check_vm :
      (kvm : ℕ) (r : Report) → seen p (check_vm m kvm r) ≡ seen p r || (not (vm_works m kvm) && a)
  unfolding check_vm
  seen-check_vm kvm r = elim (Outcome-cases (m.ioctl kvm kvm_create_vm 0)) [
    | inl (fd, e) ↦ rw (e, check_vm, vm_works) (simp (seen_laws, seen-check_vcpu, h.at_pass))
    | inr (x, e) ↦ rw (e, check_vm, vm_works) (simp (seen_laws, h.at_create_vm))
  ]

  seen-check_mmap_size : (kvm : ℕ) (r : Report) → seen p (check_mmap_size m kvm r) ≡ seen p r
  unfolding check_mmap_size
  seen-check_mmap_size kvm r = elim (Outcome-cases (m.ioctl kvm kvm_get_vcpu_mmap_size 0)) [
    | inl (fd, e) ↦ rw (e, check_mmap_size) (simp (seen_laws, h.at_info))
    | inr (x, e) ↦ rw (e, check_mmap_size) refl
  ]

  seen-check_sizing_cap :
      (kvm : ℕ) (k : Cap) (r : Report) → seen p (check_sizing_cap m kvm k r) ≡ seen p r
  unfolding check_sizing_cap
  seen-check_sizing_cap kvm k r = elim (Outcome-cases (m.ioctl kvm kvm_check_extension k.num)) [
    | inl (fd, e) ↦ rw (e, check_sizing_cap) (simp (seen_laws, h.at_info))
    | inr (x, e) ↦ rw (e, check_sizing_cap) refl
  ]

  seen-check_sizing :
      (kvm : ℕ) (ks : List Cap) (r : Report) → seen p (check_sizing m kvm ks r) ≡ seen p r
  unfolding check_sizing
  seen-check_sizing kvm [] r = refl
  seen-check_sizing kvm (k ∷ ks) r =
      seen-check_sizing kvm ks (check_sizing_cap m kvm k r) ∙ seen-check_sizing_cap kvm k r

  seen-check_cap : (kvm : ℕ) (k : Cap) (r : Report) → seen p (check_cap m kvm k r) ≡ seen p r
  unfolding check_cap
  seen-check_cap kvm k r = elim (Bool-cases (cap_value m kvm k == 0 && not k.required)) [
    | inl e ↦ rw e (simp (seen_laws, h.at_warn))
    | inr e ↦ rw e refl
  ]

  seen-check_caps :
      (kvm : ℕ) (ks : List Cap) (r : Report) → seen p (check_caps m kvm ks r) ≡ seen p r
  unfolding check_caps
  seen-check_caps kvm [] r = refl
  seen-check_caps kvm (k ∷ ks) r =
      seen-check_caps kvm ks (check_cap m kvm k r) ∙ seen-check_cap kvm k r

  seen-check_missing :
      (caps : List Cap) (present : List (Bytes × ℤ)) (names : List Bytes) (r : Report)
      → seen p (check_missing caps present names r) ≡ seen p r || (any (λ n. true) names && a)
  unfolding check_missing
  seen-check_missing caps present [] r = simp (seen_laws, h.at_pass)
  seen-check_missing caps present (n ∷ names) r = simp (seen_laws, h.at_caps)

  seen-check_capabilities :
      (caps : List Cap) (kvm : ℕ) (r : Report)
      → seen p (check_capabilities m caps kvm r)
        ≡ seen p r || (not (not (any (lacks m kvm) caps) && vm_works m kvm) && a)
  unfolding check_capabilities
  seen-check_capabilities caps kvm r =
      simp
        (
          seen-check_vm, seen-check_mmap_size, seen-check_sizing, seen-check_missing,
          seen-check_caps, missing-any, or_assoc,
        )
        (rw (either_lost (any (lacks m kvm) caps) (vm_works m kvm) a) refl)

  seen-check_api :
      (caps : List Cap) (kvm : ℕ) (r : Report)
      → seen p (check_api m caps kvm r) ≡ seen p r || (not (api_works m caps kvm) && a)
  unfolding check_api
  seen-check_api caps kvm r = elim (Outcome-cases (m.ioctl kvm kvm_get_api_version 0)) [
    | inl (v, e) ↦
        rw (e, check_api, api_works)
          (elim (Bool-cases (v == 12)) [
            | inl twelve ↦ rw twelve (simp (seen-check_capabilities, seen_laws, h.at_pass))
            | inr differs ↦ rw differs (simp (seen_laws, h.at_api))
          ])
    | inr (x, e) ↦ rw (e, check_api, api_works) (simp (seen_laws, h.at_api))
  ]

  seen-check_open_error :
      (x : OsError) (r : Report)
      → seen p (check_open_error m x r)
        ≡ seen p r || (if is_permission x && not (m.euid == 0) then b else a)
  unfolding check_open_error
  seen-check_open_error x r = elim (Bool-cases (is_permission x)) [
    | inl refused ↦ elim (Bool-cases (m.euid == 0)) [
      | inl root ↦ rw (refused, root) (simp (seen_laws, h.at_open))
      | inr user ↦ rw (refused, user) (simp (seen_laws, h.at_open_blocked))
    ]
    | inr fault ↦ rw fault (simp (seen_laws, h.at_open))
  ]

  seen-check_device :
      (caps : List Cap) (r : Report)
      → seen p (check_device m caps r) ≡ seen p r || device_loss m caps a b
  unfolding check_device check_open
  seen-check_device caps r = elim (Outcome-cases (m.stat dev_kvm)) [
    | inl (fi, e) ↦
        rw (e, check_device, kvm_works, denied)
          (elim (Bool-cases fi.char_device) [
            | inl device ↦ rw device (elim (Outcome-cases (m.open_rw dev_kvm)) [
              | inl (kvm, o) ↦
                  rw (o, check_open, opens) (simp (seen_laws, seen-check_api, h.at_pass))
              | inr (x, o) ↦
                  rw (o, check_open, opens) (simp (seen_laws, seen-check_open_error, h.at_pass))
            ])
            | inr plain_file ↦ rw plain_file (simp (seen_laws, h.at_device))
          ])
    | inr (x, e) ↦ rw (e, check_device, kvm_works, denied) (simp (seen_laws, h.at_device))
  ]

  -- What the KVM checks add, for any such test.
  pub seen-check_kvm : (r : Report) → seen p (check_kvm m r) ≡ seen p r || kvm_loss m a b c
  unfolding check_kvm
  seen-check_kvm r = elim (Option-cases (caps_for m.arch)) [
    | inl e ↦ rw (e, check_kvm, kvm_loss) (simp (seen_laws, h.at_arch))
    | inr (caps, e) ↦ rw (e, check_kvm, kvm_loss) (seen-check_device caps r)
  ]
