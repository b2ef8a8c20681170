-- ===== src/Report/Serious.antt =====
-- Tests on results by their status, and how a check with branches bears on them.
use fc_preflight.Prelude.{Bool, true, false, List, [], ◌∷◌, ◌≡◌, refl, arith, any, if◌then◌else◌}
use fc_preflight.Report.Verdict.{has}
use fc_preflight.Status.{Status, same}
use fc_preflight.Report.{Result, Report, Check, when}
use fc_preflight.Report.Seen.{
  seen, seen-add, seen-addf, seen-fail, seen-warn, seen-blocked, seen-open_fd, seen-close_fd,
  or-false, or_assoc,
}

-- The value a at a failure, b where the check could not be carried out, false elsewhere.
abbrev pub serious : Bool → Bool → Result → Bool
serious a b res = elim res.status [ Status.fail ↦ a | Status.blocked ↦ b | _ ↦ false ]

module _ (p : Result → Bool) where
  pub seen-if :
      (t : Bool) (m k : Check) (r : Report)
      → seen p ((if t then m else k) r) ≡ (if t then seen p (m r) else seen p (k r))
  seen-if true m k r = refl
  seen-if false m k r = refl

  pub seen-when :
      (t : Bool) (m : Check) (r : Report)
      → seen p (when t m r) ≡ (if t then seen p (m r) else seen p r)
  seen-when true m r = refl
  seen-when false m r = refl

pub if_same {ℓ} : {A : Type ℓ} (t : Bool) (x : A) → (if t then x else x) ≡ x
if_same true x = refl
if_same false x = refl

serious-fail : (res : Result) → same res.status Status.fail ≡ serious true false res
serious-fail res = ground arith

serious-blocked : (res : Result) → same res.status Status.blocked ≡ serious false true res
serious-blocked res = ground arith

-- `has` as such a test.
pub has-fail : (rs : List Result) → has Status.fail rs ≡ any (serious true false) rs
has-fail [] = refl
has-fail (res ∷ rs) = ground (arith, serious-fail res, has-fail rs)

pub has-blocked : (rs : List Result) → has Status.blocked rs ≡ any (serious false true) rs
has-blocked [] = refl
has-blocked (res ∷ rs) = ground (arith, serious-blocked res, has-blocked rs)

pub ruleset check_laws = (
  seen-add, seen-addf, seen-fail, seen-warn, seen-blocked, seen-open_fd, seen-close_fd, seen-if,
  seen-when, or-false, or_assoc,
)
