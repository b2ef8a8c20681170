-- ===== src/Host/Devices/Effect.antt =====
-- What the checks of devices and packet filters add to a report.
use fc_preflight.Prelude.{
  Bool, false, ◌&&◌, ◌||◌, List, [], ◌∷◌, ◌≡◌, refl, inl, inr, arith, Bool-cases, Option-cases,
}
use fc_preflight.Text.{Bytes, codes}
use fc_preflight.Report.{Report}
use fc_preflight.Report.Seen.{seen}
use fc_preflight.Report.Serious.{serious, check_laws}
use fc_preflight.Host.Machine.{OsError, Output, Outcome-cases, ok, err, is_not_exist, Machine}
use fc_preflight.Host.Devices.{
  check_tun, check_vhost_vsock, nbd_module, check_nbd, check_nftables, check_cpuid, check_devices,
  report_firewall, check_host_firewall, probe_matches, firewall_probes,
}

-- There is no device node for tap devices.
abbrev pub tun_missing : Machine → Bool
tun_missing m = elim (m.open_rw (codes "/dev/net/tun")) [ ok fd ↦ false | err e ↦ is_not_exist e ]

module _ (a b : Bool) (m : Machine) where
  seen-check_tun :
      (r : Report)
      → seen (serious a b) (check_tun m r) ≡ seen (serious a b) r || (tun_missing m && a)
  unfolding check_tun
  seen-check_tun r = elim (Outcome-cases (m.open_rw (codes "/dev/net/tun"))) [
    | inl (fd, e) ↦ rw (e, check_tun, tun_missing) (simp check_laws (ground arith))
    | inr (x, e) ↦
        rw (e, check_tun, tun_missing)
          (elim (Bool-cases (is_not_exist x)) [
            | inl gone ↦ rw gone (simp check_laws)
            | inr other_fault ↦ rw other_fault (simp check_laws (ground arith))
          ])
  ]

  seen-check_vhost_vsock :
      (r : Report) → seen (serious a b) (check_vhost_vsock m r) ≡ seen (serious a b) r
  unfolding check_vhost_vsock
  seen-check_vhost_vsock r = elim (Outcome-cases (m.stat (codes "/dev/vhost-vsock"))) [
    | inl (fi, e) ↦ rw (e, check_vhost_vsock) (simp check_laws)
    | inr (x, e) ↦ rw (e, check_vhost_vsock) (simp check_laws)
  ]

  seen-nbd_module :
      (o : Output) (x : OsError) (r : Report)
      → seen (serious a b) (nbd_module o x r) ≡ seen (serious a b) r
  unfolding nbd_module
  seen-nbd_module o x r = elim (Option-cases o.failure) [
    | inl e ↦ rw (e, nbd_module) (simp check_laws)
    | inr (y, e) ↦ rw (e, nbd_module) (simp check_laws)
  ]

  seen-check_nbd : (r : Report) → seen (serious a b) (check_nbd m r) ≡ seen (serious a b) r
  seen-check_nbd r = elim (Outcome-cases (m.stat (codes "/dev/nbd0"))) [
    | inl (fi, e) ↦ unfold check_nbd in rw (e, check_nbd) (simp check_laws)
    | inr (x, e) ↦
        unfold check_nbd in
        rw (e, check_nbd)
          (seen-nbd_module (m.run (codes "modprobe") (codes "-n" ∷ codes "nbd" ∷ [])) x r)
  ]

  seen-check_nftables :
      (r : Report) → seen (serious a b) (check_nftables m r) ≡ seen (serious a b) r
  unfolding check_nftables
  seen-check_nftables r = elim (Outcome-cases (m.look_path (codes "nft"))) [
    | inl (path, e) ↦ rw (e, check_nftables) (simp check_laws)
    | inr (x, e) ↦ rw (e, check_nftables) (simp check_laws)
  ]

  seen-check_cpuid : (r : Report) → seen (serious a b) (check_cpuid m r) ≡ seen (serious a b) r
  unfolding check_cpuid
  seen-check_cpuid r = elim (Outcome-cases (m.stat (codes "/dev/cpu/0/cpuid"))) [
    | inl (fi, e) ↦ rw (e, check_cpuid) (simp check_laws)
    | inr (x, e) ↦ rw (e, check_cpuid) refl
  ]

  pub seen-check_devices :
      (r : Report)
      → seen (serious a b) (check_devices m r) ≡ seen (serious a b) r || (tun_missing m && a)
  unfolding check_devices
  seen-check_devices r = simp (
    seen-check_cpuid, seen-check_nftables, seen-check_nbd, seen-check_vhost_vsock, seen-check_tun,
  )

  seen-report_firewall :
      (found : List Bytes) (r : Report)
      → seen (serious a b) (report_firewall found r) ≡ seen (serious a b) r
  unfolding report_firewall
  seen-report_firewall [] r = simp check_laws
  seen-report_firewall (f ∷ found) r = simp check_laws

  pub seen-check_host_firewall :
      (r : Report) → seen (serious a b) (check_host_firewall m r) ≡ seen (serious a b) r
  unfolding check_host_firewall
  seen-check_host_firewall r = seen-report_firewall (probe_matches m firewall_probes) r
