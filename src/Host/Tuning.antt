-- ===== src/Host/Tuning.antt =====
-- host_linux.go: the parameters of the KVM modules.
pub mod Effect
use fc_preflight.Prelude.{ℕ, Bool, false, not, ◌&&◌, ◌||◌, List, [], ◌∷◌, ◌++◌, if◌then◌else◌}
use fc_preflight.Text.{Bytes, codes, is_empty, equal, to_upper, base_name}
use fc_preflight.Status.{Status}
use fc_preflight.Report.{Check, ◌>>◌, done, when, add_result, fail, warn}
use fc_preflight.Host.Machine.{ok, err, is_ok, Machine, read_file_trim}

-- One of `params`. `base` is `filepath.Base` of the path.
pub record Param : Type 0 where
  pub path : Bytes
  pub note : Bytes

unfoldable pub params : List Param
params =
    (record {
      path = codes "/sys/module/kvm/parameters/halt_poll_ns";
      note =
          codes
            "how long a vCPU spins before yielding on halt; the main idle-latency vs idle-CPU tradeoff";
    })
    ∷ (record {
      path = codes "/sys/module/kvm_intel/parameters/nested";
      note = codes "nested virt exposed to guests (Fly does not need this)";
    })
    ∷ (record {
      path = codes "/sys/module/kvm_amd/parameters/nested";
      note = codes "nested virt exposed to guests (Fly does not need this)";
    })
    ∷ (record {
      path = codes "/sys/module/kvm_intel/parameters/ept";
      note = codes "extended page tables; without it guest memory is unusably slow";
    })
    ∷ (record {
      path = codes "/sys/module/kvm_amd/parameters/npt";
      note = codes "nested page tables; without it guest memory is unusably slow";
    })
    ∷ (record {
      path = codes "/sys/module/kvm_intel/parameters/unrestricted_guest";
      note = codes "real-mode guests without emulation";
    })
    ∷ (record {
      path = codes "/sys/module/kvm_amd/parameters/sev";
      note = codes "AMD SEV availability";
    })
    ∷ (record { path = codes "/sys/module/kvm/parameters/enable_vmware_backdoor"; note = [] })
    ∷ []

abbrev pub is_off : Bytes → Bool
is_off v = equal v (codes "N") || equal v (codes "0")

abbrev pub is_paging : Bytes → Bool
is_paging base = equal base (codes "ept") || equal base (codes "npt")

-- The opinion on a parameter with the value v.
pub check_param_value : Param → Bytes → Check
check_param_value p v =
    let base = base_name p.path in
    if is_paging base && is_off v
    then fail (codes "host.kvm_tuning." ++ base) (codes "KVM " ++ to_upper base)
        (to_upper base ++ (codes " is disabled (" ++ (p.path ++ (codes "=" ++ (v ++ codes ")")))))
        (codes
            "Hardware-assisted memory virtualization is off, so KVM falls back to shadow paging. "
          ++ codes "Guest memory performance will be an order of magnitude worse. Re-enable it.")
    else when (not (is_empty p.note)) (
        add_result (record {
          id = codes "host.kvm_tuning." ++ base;
          title = codes "KVM parameter " ++ base;
          status = Status.info;
          detail = p.path ++ (codes " = " ++ (v ++ (codes " -- " ++ p.note)));
          values = [];
          remedy = [];
        }))

pub check_param : Machine → Param → Check
check_param m p = elim (read_file_trim m p.path) [ err e ↦ done | ok v ↦ check_param_value p v ]

pub check_params : Machine → List Param → Check
check_params m [] = done
check_params m (p ∷ ps) = do check_param m p; check_params m ps

-- `len(found) > 0`
pub any_found : Machine → List Param → Bool
any_found m [] = false
any_found m (p ∷ ps) = is_ok (read_file_trim m p.path) || any_found m ps

-- checkKVMTuning
pub check_kvm_tuning : Machine → Check
check_kvm_tuning m = do
  check_params m params
  when (not (any_found m params)) (
      warn (codes "host.kvm_tuning") (codes "KVM module parameters")
        (codes "no /sys/module/kvm*/parameters found")
        (codes
            "KVM may be built in rather than a module, which is fine, but the tuning knobs could not "
          ++ codes "be read and so cannot be compared against a Fly host."))
