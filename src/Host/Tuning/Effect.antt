-- ===== src/Host/Tuning/Effect.antt =====
-- What the checks of the module parameters add to a report.
use fc_preflight.Prelude.{Bool, false, ◌&&◌, ◌||◌, List, [], ◌∷◌, ◌≡◌, ◌∙◌, inl, inr, arith, any}
use fc_preflight.Text.{Bytes, base_name}
use fc_preflight.Report.{Report}
use fc_preflight.Report.Seen.{seen}
use fc_preflight.Report.Serious.{serious, check_laws}
use fc_preflight.Host.Machine.{Outcome-cases, ok, err, Machine, read_file_trim}
use fc_preflight.Host.Tuning.{
  Param, params, is_off, is_paging, check_param_value, check_param, check_params, check_kvm_tuning,
}

-- The parameter switches hardware paging, and it is off.
abbrev pub paging_off : Machine → Param → Bool
paging_off m p = elim (read_file_trim m p.path) [
  | ok v ↦ is_paging (base_name p.path) && is_off v
  | err e ↦ false
]

module _ (a b : Bool) (m : Machine) where
  seen-check_param_value :
      (p : Param) (v : Bytes) (r : Report)
      → seen (serious a b) (check_param_value p v r)
        ≡ seen (serious a b) r || ((is_paging (base_name p.path) && is_off v) && a)
  unfolding check_param_value
  seen-check_param_value p v r = simp check_laws (ground arith)

  seen-check_param :
      (p : Param) (r : Report)
      → seen (serious a b) (check_param m p r) ≡ seen (serious a b) r || (paging_off m p && a)
  unfolding check_param
  seen-check_param p r = elim (Outcome-cases (read_file_trim m p.path)) [
    | inl (v, e) ↦ rw (e, check_param, paging_off) (seen-check_param_value p v r)
    | inr (x, e) ↦ rw (e, check_param, paging_off) (ground arith)
  ]

  seen-check_params :
      (ps : List Param) (r : Report)
      → seen (serious a b) (check_params m ps r)
        ≡ seen (serious a b) r || (any (paging_off m) ps && a)
  unfolding check_params
  seen-check_params [] r = ground arith
  seen-check_params (p ∷ ps) r =
      seen-check_params ps (check_param m p r) ∙ ground (arith, seen-check_param p r)

  pub seen-check_kvm_tuning :
      (r : Report)
      → seen (serious a b) (check_kvm_tuning m r)
        ≡ seen (serious a b) r || (any (paging_off m) params && a)
  unfolding check_kvm_tuning
  seen-check_kvm_tuning r = simp check_laws (ground (arith, seen-check_params params r))
