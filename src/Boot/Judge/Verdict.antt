-- ===== src/Boot/Judge/Verdict.antt =====
-- boot_linux.go: when judgeOutcomes finds a failure.
use fc_preflight.Prelude.{
  Bool, true, false, not, ◌||◌, ◌&&◌, Option, none, some, List, [], ◌∷◌, ◌≡◌, refl, ◌∙◌, inl, inr,
  arith, any, count, ltb, Bool-cases, Option-cases,
}
use fc_preflight.Float.{FloatOps}
use fc_preflight.Text.{Bytes, codes, equal, is_empty}
use fc_preflight.Report.{Report}
use fc_preflight.Report.Seen.{seen}
use fc_preflight.Report.Serious.{serious, check_laws, if_same}
use fc_preflight.Guest.Types.{GuestReport, VmOutcome}
use fc_preflight.Console.{is_failed}
use fc_preflight.Boot.{judge_launch}
use fc_preflight.Boot.Launch.{count-any}
use fc_preflight.Boot.Figures.{Reported, attach, guests, net_errors}
use fc_preflight.Boot.Judge.{
  report_network, has_driver, check_virtio, check_network, report_guests, judge_outcomes,
}

-- The guest has no device bound to virtio_blk, or none bound to virtio_net.
abbrev pub unbound : VmOutcome → Bool
unbound o = elim o.guest [
  | none ↦ false
  | some g ↦
      not (any (λ (d : Bytes × Bytes). equal d.1 (codes "virtio_blk")) g.virtio_devices)
      || not (any (λ (d : Bytes × Bytes). equal d.1 (codes "virtio_net")) g.virtio_devices)
]

-- The guest could not reach the host.
abbrev pub unreachable : VmOutcome → Bool
unreachable o = elim o.guest [ none ↦ false | some g ↦ not (is_empty g.net_error) ]

has_driver-any :
    (driver : Bytes) (ds : List (Bytes × Bytes))
    → has_driver driver ds ≡ any (λ (d : Bytes × Bytes). equal d.1 driver) ds
unfolding has_driver
has_driver-any driver [] = refl
has_driver-any driver ((name, drv) ∷ ds) = ground (arith, has_driver-any driver ds)

abbrev is_nil {ℓ} : {A : Type ℓ} → List A → Bool
is_nil [] = true
is_nil (x ∷ xs) = false

attach_both :
    (o : VmOutcome) (g : GuestReport) (vms : List Reported) (found : Option GuestReport)
    (rest : Option (List Reported))
    → found ≡ some g
    → rest ≡ some vms
    → attach o found rest ≡ some ((o, g) ∷ vms)
unfolding attach
attach_both o g vms found rest p q = rw (p, q) refl

guests_cons :
    (o : VmOutcome) (os : List VmOutcome) (g : GuestReport) (vms : List Reported)
    → o.guest ≡ some g
    → guests os ≡ some vms
    → guests (o ∷ os) ≡ some ((o, g) ∷ vms)
unfolding guests
guests_cons o os g vms e found = attach_both o g vms o.guest (guests os) e found

-- Outcomes none of which failed have reports, and a network error exactly where a guest has one.
guests_total :
    (os : List VmOutcome)
    → any is_failed os ≡ false
    → (vms : List Reported) × (guests os ≡ some vms)
      × (is_nil (net_errors vms) ≡ not (any unreachable os))
unfolding guests net_errors
guests_total [] h = ([], refl, refl)
guests_total (o ∷ os) h = elim (Option-cases o.guest) [
  | inl g ↦ absurd (ground (arith, g, h))
  | inr (report, g) ↦
      let (vms, e, n) = guests_total os (ground (arith, h)) in
      ((o, report) ∷ vms, attach_both o report vms o.guest (guests os) g e, ground (arith, g, n))
]

net_errors_cons :
    (o : VmOutcome) (g : GuestReport) (vms : List Reported)
    → is_nil (net_errors ((o, g) ∷ vms)) ≡ is_empty g.net_error && is_nil (net_errors vms)
unfolding net_errors
net_errors_cons o g vms = ground arith

drivers_unbound :
    (o : VmOutcome) (g : GuestReport)
    → o.guest ≡ some g
    → not (has_driver (codes "virtio_blk") g.virtio_devices)
        || not (has_driver (codes "virtio_net") g.virtio_devices)
      ≡ unbound o
drivers_unbound o g e = ground (
  arith,
  e,
  has_driver-any (codes "virtio_blk") g.virtio_devices,
  has_driver-any (codes "virtio_net") g.virtio_devices,
)

combine :
    (a x f v n first here others l : Bool)
    → l ≡ x || (f && a)
    → f ≡ false
    → v ≡ first
    → n ≡ not here && not others
    → l || ((v && a) || (not n && a)) ≡ x || ((f || (first || (here || others))) && a)
combine a x f v n first here others l p q r s = ground arith

-- The first microVM of a list that is not empty is unbound.
abbrev pub first_unbound : List VmOutcome → Bool
first_unbound [] = false
first_unbound (o ∷ os) = unbound o

-- What makes judgeOutcomes record a failure.
abbrev pub judge_fails : List VmOutcome → Bool
judge_fails os = any is_failed os || (first_unbound os || any unreachable os)

module _ (a b : Bool) (ops : FloatOps) (guest_net : Bytes) where
  seen-check_virtio :
      (g : GuestReport) (r : Report)
      → seen (serious a b) (check_virtio g r)
        ≡ seen (serious a b) r
          || ((not (has_driver (codes "virtio_blk") g.virtio_devices)
                || not (has_driver (codes "virtio_net") g.virtio_devices))
              && a)
  unfolding check_virtio
  seen-check_virtio g r = simp check_laws (ground arith)

  seen-report_network :
      (errors : List Bytes) (vms : List Reported) (r : Report)
      → seen (serious a b) (report_network ops guest_net errors vms r)
        ≡ seen (serious a b) r || (not (is_nil errors) && a)
  unfolding report_network
  seen-report_network [] vms r = simp check_laws
  seen-report_network (e ∷ errors) vms r = simp check_laws

  seen-report_guests :
      (g : GuestReport) (vms : List Reported) (os : List VmOutcome) (r : Report)
      → seen (serious a b) (report_guests ops guest_net g vms os r)
        ≡ seen (serious a b) r
          || (((not (has_driver (codes "virtio_blk") g.virtio_devices)
                  || not (has_driver (codes "virtio_net") g.virtio_devices))
                && a)
              || (not (is_nil (net_errors vms)) && a))
  unfolding report_guests check_network
  seen-report_guests g vms os r = simp (check_laws, seen-check_virtio, seen-report_network, if_same)

  seen-judge_launch :
      (os : List VmOutcome) (r : Report)
      → seen (serious a b) (judge_launch os r) ≡ seen (serious a b) r || (any is_failed os && a)
  unfolding judge_launch
  seen-judge_launch os r = elim (Bool-cases (ltb 0 (count is_failed os))) [
    | inl t ↦ rw (judge_launch, t) (simp check_laws (ground (arith, t, count-any os)))
    | inr t ↦ rw (judge_launch, t) (simp check_laws (ground (arith, t, count-any os)))
  ]

  judged :
      (o : VmOutcome) (os : List VmOutcome) (g : GuestReport) (vms : List Reported)
      → o.guest ≡ some g
      → any is_failed (o ∷ os) ≡ false
      → is_nil (net_errors vms) ≡ not (any unreachable os)
      → (r : Report)
      → seen
          (serious a b)
          (report_guests ops guest_net g ((o, g) ∷ vms) (o ∷ os) (judge_launch (o ∷ os) r))
        ≡ seen (serious a b) r || (judge_fails (o ∷ os) && a)
  judged o os g vms e f n r =
      seen-report_guests g ((o, g) ∷ vms) (o ∷ os) (judge_launch (o ∷ os) r)
      ∙ combine a (seen (serious a b) r) (any is_failed (o ∷ os))
          (not (has_driver (codes "virtio_blk") g.virtio_devices)
            || not (has_driver (codes "virtio_net") g.virtio_devices))
          (is_nil (net_errors ((o, g) ∷ vms))) (unbound o) (unreachable o) (any unreachable os)
          (seen (serious a b) (judge_launch (o ∷ os) r)) (seen-judge_launch (o ∷ os) r) f
          (drivers_unbound o g e) (ground (arith, net_errors_cons o g vms, n, e))

  -- Of one microVM or more, judgeOutcomes does not panic, and adds results for which a test of the
  -- status has the value a exactly if there is a failure.
  pub seen-judge_outcomes :
      (o : VmOutcome) (os : List VmOutcome) (r : Report)
      → (after : Report) × (judge_outcomes ops guest_net (o ∷ os) r ≡ some after)
        × (seen (serious a b) after ≡ seen (serious a b) r || (judge_fails (o ∷ os) && a))
  unfolding judge_outcomes
  seen-judge_outcomes o os r = elim (Bool-cases (any is_failed (o ∷ os))) [
    | inl f ↦ (
      judge_launch (o ∷ os) r,
      rw (count-any (o ∷ os), f) refl,
      seen-judge_launch (o ∷ os) r ∙ ground (arith, f),
    )
    | inr f ↦ elim (Option-cases o.guest) [
      | inl g ↦ absurd (ground (arith, g, f))
      | inr (g, e) ↦
          let (vms, found, n) = guests_total os (ground (arith, f)) in
          let both = guests_cons o os g vms e found in
          let all : List Reported = (o, g) ∷ vms in
          (
            report_guests ops guest_net g all (o ∷ os) (judge_launch (o ∷ os) r),
            rw (count-any (o ∷ os), f, both) refl,
            judged o os g vms e f n r,
          )
    ]
  ]
