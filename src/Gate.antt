-- ===== src/Gate.antt =====
-- main.go: the test between the two stages of `-stage all`.
use fc_preflight.Prelude.{
  Bool, true, false, not, ◌&&◌, ◌||◌, List, [], ◌∷◌, ◌≡◌, refl, arith, if◌then◌else◌, any,
}
use fc_preflight.Text.{Bytes, codes, equal}
use fc_preflight.Status.{Status, same}
use fc_preflight.Report.{Result, Report}

-- The identifiers of the switch.
unfoldable pub is_kvm_gate : Bytes → Bool
unfolding codes equal
is_kvm_gate id =
    equal id (codes "kvm.device")
    || equal id (codes "kvm.open")
    || equal id (codes "kvm.api_version")
    || equal id (codes "kvm.caps.required")
    || equal id (codes "kvm.create_vm")
    || equal id (codes "kvm.create_vcpu")
    || equal id (codes "host.cpu_virt")

-- The body of the loop returns at this result.
abbrev pub stops_boot : Result → Bool
stops_boot res =
    if not (same res.status Status.fail) && not (same res.status Status.blocked)
    then false
    else is_kvm_gate res.id

has_blocking : List Result → Bool
has_blocking [] = false
has_blocking (res ∷ rs) = let rest = has_blocking rs in if stops_boot res then true else rest

-- hasBlockingKVMFailure
unfoldable pub has_blocking_kvm_failure : Report → Bool
unfolding has_blocking
has_blocking_kvm_failure r = has_blocking r.results

has_blocking-any : (rs : List Result) → has_blocking rs ≡ any stops_boot rs
unfolding has_blocking
has_blocking-any [] = refl
has_blocking-any (res ∷ rs) = ground (arith, has_blocking-any rs)

-- The loop finds a result that passes its test, if there is one.
pub has_blocking_kvm_failure-any :
    (r : Report) → has_blocking_kvm_failure r ≡ any stops_boot r.results
unfolding has_blocking_kvm_failure
has_blocking_kvm_failure-any r = has_blocking-any r.results
