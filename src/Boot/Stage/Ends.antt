-- ===== src/Boot/Stage/Ends.antt =====
-- boot_linux.go: how a flow of the boot stage ends, read by a test of the status.
use fc_preflight.Prelude.{
  ℕ, zero, suc, ◌+◌, ◌≤◌, Bool, true, false, ◌||◌, ◌&&◌, some, List, [], ◌∷◌, ◌≡◌, refl, sym, ap,
  ◌∙◌, inl, inr, arith, any, any-Perm, length, map, replicate, ◌==◌, Bool-cases, length-replicate,
}
use fc_preflight.Prelude.Int.{pos}
use fc_preflight.Text.{Bytes}
use fc_preflight.Report.{Report, Check, fail}
use fc_preflight.Report.Seen.{seen}
use fc_preflight.Report.Serious.{serious, check_laws}
use fc_preflight.Guest.Types.{VmOutcome}
use fc_preflight.Console.{new_outcome}
use fc_preflight.Boot.Launch.{collect-some, beyond}
use mathlib.Core.List.{Perm}
use fc_preflight.Boot.Judge.Verdict.{judge_fails, seen-judge_outcomes}
use fc_preflight.Boot.Flow.{
  BootFlags, BootWorld, BootState, Flow, goes, returns, panics, Step, ended, remove_dir, indices,
}
use fc_preflight.Boot.Stage.{boot_all, judge}

-- The flow ends with a report in which a test of the status has the value that it had, or x.
abbrev pub Ends : Bool → Bool → Bool → Report → Flow (Unit {0}) → Type 0
Ends a b x r flow =
    (after : Report) × (ended flow ≡ some after)
    × (seen (serious a b) after ≡ seen (serious a b) r || x)

-- The boots of a number of microVMs give outcomes, at least one.
abbrev pub Booted : BootWorld → BootFlags → (ℕ → VmOutcome) → Type 0
Booted w flags boot =
    (o : VmOutcome) × (os : List VmOutcome) × (boot_all w flags boot flags.vms ≡ some (o ∷ os))

nonempty :
    (n : ℕ) (xs : List VmOutcome)
    → length xs ≡ suc n
    → (o : VmOutcome) × (os : List VmOutcome) × (xs ≡ o ∷ os)
nonempty n [] e = absurd (omega (arith, e))
nonempty n (o ∷ os) e = (o, os, refl)

-- No microVM of a list of indices is beyond a number that they are below.
pub none_beyond :
    (boot : ℕ → VmOutcome) (n from k : ℕ)
    → ((i : ℕ) → (boot i).index ≡ i)
    → from + k ≤ n
    → any (beyond n) (map boot (indices from k)) ≡ false
unfolding indices
none_beyond boot n from zero own h = refl
none_beyond boot n from (suc k) own h =
    ground (arith, own from, h, none_beyond boot n (from + 1) k own (omega (arith, h)))

pub boot_all-some :
    (w : BootWorld) (flags : BootFlags) (boot : ℕ → VmOutcome) (n : ℕ)
    → flags.vms ≡ pos (suc n)
    → w.can_make (suc n) ≡ true
    → ((outcomes : List VmOutcome) → Perm outcomes (w.arrive outcomes))
    → ((i : ℕ) → (boot i).index ≡ i)
    → Booted w flags boot
unfolding boot_all
boot_all-some w flags boot n e room delivers own = elim (Bool-cases (suc n == 1)) [
  | inl t ↦ (boot 0, [], rw (e, boot_all, room, t) refl)
  | inr t ↦
      let sent : List VmOutcome = map boot (indices 0 (suc n)) in
      let fit : any (beyond (suc n)) (w.arrive sent) ≡ false =
        sym (any-Perm (beyond (suc n)) (delivers sent))
        ∙ none_beyond boot (suc n) 0 (suc n) own (omega arith) in
      let (ys, got, size) =
        collect-some (suc n) (w.arrive sent) (replicate (suc n) (new_outcome 0))
          (length-replicate (suc n) (new_outcome 0)) fit in
      let (o, os, f) = nonempty n ys size in (o, os, rw (e, boot_all, room, t) (got ∙ ap some f))
]

module _ (a b : Bool) where
  pub remove-Ends :
      (x : Bool) (r : Report) (dir : Bytes) (flow : Flow (Unit {0}))
      → Ends a b x r flow
      → Ends a b x r (remove_dir dir flow)
  unfolding remove_dir ended
  remove-Ends x r dir (goes v st) h = h
  remove-Ends x r dir (returns st) h = h
  remove-Ends x r dir (panics st) h = h

  -- A report that tests alike serves as well.
  pub shift :
      (x : Bool) (r before : Report) (flow : Flow (Unit {0}))
      → seen (serious a b) before ≡ seen (serious a b) r
      → Ends a b x before flow
      → Ends a b x r flow
  shift x r before flow e (after, f, g) = (after, f, g ∙ rw e refl)

  pub same_reading :
      (x y : Bool) (r : Report) (flow : Flow (Unit {0}))
      → x ≡ y
      → Ends a b x r flow
      → Ends a b y r flow
  same_reading x y r flow e h = rw (← e) h

  -- A result that the test passes over, and what follows.
  pub noted :
      {A : Type 0} (v : A) (check : Check) (k : A → Step (Unit {0})) (x : Bool) (st : BootState)
      → seen (serious a b) (check st.report) ≡ seen (serious a b) st.report
      → ((next : BootState) → Ends a b x next.report (k v next))
      → Ends a b x st.report (k v (record st { report = check st.report }))
  noted v check k x st quiet h =
      shift x st.report (check st.report) (k v (record st { report = check st.report })) quiet
        (h (record st { report = check st.report }))

  pub failing :
      (id title detail remedy : Bytes) (st : BootState)
      → Ends a b a st.report
          (returns (record st { report = fail id title detail remedy st.report }))
  unfolding ended
  failing id title detail remedy st = (fail id title detail remedy st.report, refl, simp check_laws)

  pub judge-Ends :
      (w : BootWorld) (flags : BootFlags) (o : VmOutcome) (os : List VmOutcome) (st : BootState)
      → Ends a b (judge_fails (o ∷ os) && a) st.report (judge w flags (some (o ∷ os)) st)
  unfolding judge ended
  judge-Ends w flags o os st =
      let (after, e, s) = seen-judge_outcomes a b w.ops flags.guest_net o os st.report in
      (after, rw (judge, e) refl, s)
