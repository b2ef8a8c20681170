-- ===== src/Host/Config/Effect.antt =====
-- What the check of the kernel's configuration adds to a report.
use fc_preflight.Prelude.{
  Bool, true, false, ◌&&◌, ◌||◌, not, List, [], ◌∷◌, ◌≡◌, refl, arith, Bool-cases, inl, inr, any,
  any-append,
}
use fc_preflight.Text.{Bytes}
use fc_preflight.Text.Dict.{Dict}
use fc_preflight.Report.{Report}
use fc_preflight.Report.Seen.{seen}
use fc_preflight.Report.Serious.{serious, check_laws}
use fc_preflight.Host.Machine.{Machine, is_amd64}
use fc_preflight.Host.Config.{
  KernelOption, host_kernel_options, ConfigRead, config, unreadable, read_kernel_config, enabled,
  missing_options, has_vendor, vendor_missing_req, check_vendor, report_required, report_optional,
  report_config, check_host_kernel_config,
}

-- The option is required and not enabled.
abbrev pub is_missing : Dict → KernelOption → Bool
is_missing cfg o = not (enabled cfg o.opt) && o.required

-- The configuration lacks a required option, or on x86 both modules of the CPU vendors.
abbrev pub lacks_option : Machine → Dict → Bool
lacks_option m cfg =
    any (is_missing cfg) host_kernel_options || (is_amd64 m.arch && not (has_vendor cfg))

-- The configuration can be read and lacks something that is required.
abbrev pub config_fails : Machine → ConfigRead → Bool
config_fails m (config cfg src) = lacks_option m cfg
config_fails m (unreadable message) = false

missing_options-any :
    (cfg : Dict) (os : List KernelOption)
    → any (λ o. true) (missing_options cfg true os) ≡ any (is_missing cfg) os
unfolding missing_options
missing_options-any cfg [] = refl
missing_options-any cfg (o ∷ os) = elim (Bool-cases (is_missing cfg o)) [
  | inl e ↦ rw e refl
  | inr e ↦ rw e (missing_options-any cfg os)
]

vendor_missing_req-any :
    (m : Machine) (cfg : Dict)
    → any (λ o. true) (vendor_missing_req m cfg) ≡ is_amd64 m.arch && not (has_vendor cfg)
unfolding vendor_missing_req
vendor_missing_req-any m cfg = elim (Bool-cases (is_amd64 m.arch && not (has_vendor cfg))) [
  | inl e ↦ rw e refl
  | inr e ↦ rw e refl
]

module _ (a b : Bool) (m : Machine) where
  seen-report_required :
      (src : Bytes) (missing : List Bytes) (r : Report)
      → seen (serious a b) (report_required src missing r)
        ≡ seen (serious a b) r || (any (λ o. true) missing && a)
  unfolding report_required
  seen-report_required src [] r = simp check_laws
  seen-report_required src (o ∷ os) r = simp check_laws

  seen-report_optional :
      (missing : List Bytes) (r : Report)
      → seen (serious a b) (report_optional missing r) ≡ seen (serious a b) r
  unfolding report_optional
  seen-report_optional [] r = refl
  seen-report_optional (o ∷ os) r = simp check_laws

  seen-check_vendor :
      (cfg : Dict) (r : Report) → seen (serious a b) (check_vendor m cfg r) ≡ seen (serious a b) r
  unfolding check_vendor
  seen-check_vendor cfg r = simp check_laws (ground arith)

  seen-report_config :
      (cfg : Dict) (src : Bytes) (r : Report)
      → seen (serious a b) (report_config m cfg src r)
        ≡ seen (serious a b) r || (lacks_option m cfg && a)
  unfolding report_config
  seen-report_config cfg src r = simp (
    seen-report_optional, seen-report_required, seen-check_vendor, any-append, missing_options-any,
    vendor_missing_req-any,
  )

  seen-check_host_kernel_config_at :
      (c : ConfigRead) (r : Report)
      → read_kernel_config m ≡ c
      → seen (serious a b) (check_host_kernel_config m r)
        ≡ seen (serious a b) r || (config_fails m c && a)
  unfolding check_host_kernel_config
  seen-check_host_kernel_config_at (config cfg src) r e =
      rw (e, check_host_kernel_config) (seen-report_config cfg src r)
  seen-check_host_kernel_config_at (unreadable message) r e =
      rw (e, check_host_kernel_config) (simp check_laws)

  pub seen-check_host_kernel_config :
      (r : Report)
      → seen (serious a b) (check_host_kernel_config m r)
        ≡ seen (serious a b) r || (config_fails m (read_kernel_config m) && a)
  seen-check_host_kernel_config r = seen-check_host_kernel_config_at (read_kernel_config m) r refl
