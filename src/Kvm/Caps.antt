-- ===== src/Kvm/Caps.antt =====
-- kvm_linux.go: the capabilities that are queried.
use fc_preflight.Prelude.{ℕ, suc, Bool, true, false, List, [], ◌∷◌, if◌then◌else◌}
use fc_preflight.Text.{Bytes, codes}

-- cap
pub record Cap : Type 0 where
  pub num : ℕ
  pub name : Bytes
  pub required : Bool
  pub note : Bytes

required_cap : ℕ → Bytes → Cap
required_cap n name = record { num = n; name = name; required = true; note = [] }

optional_cap : ℕ → Bytes → Bytes → Cap
optional_cap n name note = record { num = n; name = name; required = false; note = note }

unfoldable pub amd64_caps : List Cap
unfolding required_cap optional_cap
amd64_caps =
    required_cap 0 (codes "KVM_CAP_IRQCHIP")
    ∷ required_cap 3 (codes "KVM_CAP_USER_MEMORY")
    ∷ required_cap 4 (codes "KVM_CAP_SET_TSS_ADDR")
    ∷ required_cap 7 (codes "KVM_CAP_EXT_CPUID")
    ∷ required_cap 14 (codes "KVM_CAP_MP_STATE")
    ∷ required_cap 32 (codes "KVM_CAP_IRQFD")
    ∷ required_cap 33 (codes "KVM_CAP_PIT2")
    ∷ required_cap 35 (codes "KVM_CAP_PIT_STATE2")
    ∷ required_cap 36 (codes "KVM_CAP_IOEVENTFD")
    ∷ required_cap 39 (codes "KVM_CAP_ADJUST_CLOCK")
    ∷ required_cap 41 (codes "KVM_CAP_VCPU_EVENTS")
    ∷ required_cap 50 (codes "KVM_CAP_DEBUGREGS")
    ∷ required_cap 55 (codes "KVM_CAP_XSAVE")
    ∷ required_cap 56 (codes "KVM_CAP_XCRS")
    ∷ optional_cap 136 (codes "KVM_CAP_IMMEDIATE_EXIT") (
        codes
          "vCPU exit latency; Firecracker uses it to interrupt a running vCPU without a signal round trip")
    ∷ optional_cap 143 (codes "KVM_CAP_X86_DISABLE_EXITS") (
        codes
          "lets the host stop trapping HLT/PAUSE/MWAIT, which is a large part of idle microVM cost")
    ∷ optional_cap 105 (codes "KVM_CAP_CHECK_EXTENSION_VM") (codes "per-VM capability queries")
    ∷ []

unfoldable pub arm64_caps : List Cap
unfolding required_cap optional_cap
arm64_caps =
    required_cap 3 (codes "KVM_CAP_USER_MEMORY")
    ∷ required_cap 14 (codes "KVM_CAP_MP_STATE")
    ∷ required_cap 32 (codes "KVM_CAP_IRQFD")
    ∷ required_cap 36 (codes "KVM_CAP_IOEVENTFD")
    ∷ required_cap 70 (codes "KVM_CAP_ONE_REG")
    ∷ required_cap 89 (codes "KVM_CAP_DEVICE_CTRL")
    ∷ required_cap 102 (codes "KVM_CAP_ARM_PSCI_0_2")
    ∷ optional_cap 136 (codes "KVM_CAP_IMMEDIATE_EXIT") (codes "vCPU exit latency")
    ∷ optional_cap 165 (codes "KVM_CAP_ARM_VM_IPA_SIZE")
        (codes "guest physical address width; caps how much memory a microVM can be given")
    ∷ []

unfoldable pub sizing_caps : List Cap
unfolding optional_cap
sizing_caps =
    optional_cap 9 (codes "KVM_CAP_NR_VCPUS") (codes "recommended vCPUs per VM")
    ∷ optional_cap 66 (codes "KVM_CAP_MAX_VCPUS") (codes "hard vCPU ceiling per VM")
    ∷ optional_cap 10 (codes "KVM_CAP_NR_MEMSLOTS")
        (codes "memory slots per VM; Firecracker needs one per memory region")
    ∷ []

-- countRequired
unfoldable pub count_required : List Cap → ℕ
count_required [] = 0
count_required (c ∷ cs) = let n = count_required cs in if c.required then suc n else n
