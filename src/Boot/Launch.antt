-- ===== src/Boot/Launch.antt =====
-- boot_linux.go: no outcome is lost or misplaced, and the verdict of the launch.
use fc_preflight.Prelude.{
  ℕ, zero, suc, ◌<◌, true, ◌||◌, some, List, [], ◌∷◌, ◌==◌, ◌≡◌, refl, ap, ◌∙◌, inl, inr, arith,
  any, any-append, count, length, leb, Bool, false, All, get_elem?, Bool-cases, ltb, if◌then◌else◌,
  ==_iff,
}
use fc_preflight.Status.{Status, same}
use fc_preflight.Report.{Report, fail, addf, add}
use fc_preflight.Report.Verdict.{has}
use fc_preflight.Guest.Types.{VmOutcome}
use fc_preflight.Console.{is_failed}
use fc_preflight.Boot.{set_at, collect, judge_launch}

-- An index in range is set, and nothing else.
record Placed (i : ℕ) (o : VmOutcome) (xs ys : List VmOutcome) : Type 0 where
  as_long : length ys ≡ length xs
  entries : (j : ℕ) → get_elem? ys j ≡ (if i == j then some o else get_elem? xs j)

set_at-some :
    (i : ℕ) (o : VmOutcome) (xs : List VmOutcome)
    → i < length xs
    → (ys : List VmOutcome) × (set_at i o xs ≡ some ys) × Placed i o xs ys
unfolding set_at
set_at-some i o [] h = absurd (omega (arith, h))
set_at-some zero o (x ∷ xs) h =
    (o ∷ xs, refl, record { as_long = refl; entries = elim [ zero ↦ refl | suc j ↦ ground arith ] })
set_at-some (suc i) o (x ∷ xs) h =
    let (ys, e, placed) = set_at-some i o xs (omega (arith, h)) in
    (
      x ∷ ys,
      rw e refl,
      record {
        as_long = ap suc placed.as_long;
        entries = elim [ zero ↦ ground arith | suc j ↦ placed.entries j ∙ ground arith ];
      },
    )

collect-next :
    (o : VmOutcome) (arrivals xs ys : List VmOutcome)
    → set_at o.index o xs ≡ some ys
    → collect (o ∷ arrivals) xs ≡ collect arrivals ys
unfolding collect
collect-next o arrivals xs ys e = rw (collect, e) refl

-- The index of an outcome is beyond a number of entries.
abbrev pub beyond : ℕ → VmOutcome → Bool
beyond n o = leb n o.index

-- If no index is out of range, the loop does not panic, and keeps the number of entries.
pub collect-some :
    (n : ℕ) (arrivals xs : List VmOutcome)
    → length xs ≡ n
    → any (beyond n) arrivals ≡ false
    → (ys : List VmOutcome) × (collect arrivals xs ≡ some ys) × (length ys ≡ n)
unfolding collect
collect-some n [] xs l h = (xs, refl, l)
collect-some n (o ∷ arrivals) xs l h =
    let (ys, e, placed) = set_at-some o.index o xs (ground (arith, h, l)) in
    let rest = collect-some n arrivals ys (placed.as_long ∙ l) (ground (arith, h)) in
    (rest.0, collect-next o arrivals xs ys e ∙ rest.1, rest.2)

-- An outcome that is the one of its microVM, with an index in range.
abbrev pub Belongs : (ℕ → VmOutcome) → ℕ → VmOutcome → Type 0
Belongs boot n o = (o ≡ boot o.index) × (o.index < n)

module _ (boot : ℕ → VmOutcome) where
  here : (o : VmOutcome) (i : ℕ) → (o.index == i) ≡ true → o ≡ boot o.index → some o ≡ some (boot i)
  here o i t e = ap some (e ∙ ap boot ((==_iff o.index i).0 t))

  -- The outcomes are collected, and the i-th of them is that of the i-th microVM.
  Collected : ℕ → List VmOutcome → List VmOutcome → Type 0
  Collected i arrivals xs =
      (ys : List VmOutcome) × (collect arrivals xs ≡ some ys) × (get_elem? ys i ≡ some (boot i))

  collect_kept :
      (n : ℕ) (arrivals xs : List VmOutcome) (i : ℕ)
      → length xs ≡ n
      → All (Belongs boot n) arrivals
      → get_elem? xs i ≡ some (boot i)
      → Collected i arrivals xs
  unfolding collect Collected
  collect_kept n [] xs i l a g = (xs, refl, g)
  collect_kept n (o ∷ arrivals) xs i l a g =
      let (ys, e, placed) = set_at-some o.index o xs (rw l a.0.1) in
      let entry = placed.entries i in
      let kept : get_elem? ys i ≡ some (boot i) = elim (Bool-cases (o.index == i)) [
        | inl t ↦ entry ∙ rw t (here o i t a.0.0)
        | inr t ↦ entry ∙ rw t g
      ] in
      let rest = collect_kept n arrivals ys i (placed.as_long ∙ l) a.1 kept in
      (rest.0, collect-next o arrivals xs ys e ∙ rest.1, rest.2)

  collects :
      (n : ℕ) (arrivals xs : List VmOutcome) (i : ℕ)
      → length xs ≡ n
      → All (Belongs boot n) arrivals
      → any (λ o. o.index == i) arrivals ≡ true
      → Collected i arrivals xs
  unfolding collect Collected
  collects n [] xs i l a h = absurd (ground (arith, h))
  collects n (o ∷ arrivals) xs i l a h =
      let (ys, e, placed) = set_at-some o.index o xs (rw l a.0.1) in
      let size = placed.as_long ∙ l in
      let entry = placed.entries i in
      let rest : Collected i arrivals ys = elim (Bool-cases (o.index == i)) [
        | inl t ↦ collect_kept n arrivals ys i size a.1 (entry ∙ rw t (here o i t a.0.0))
        | inr t ↦ collects n arrivals ys i size a.1 (ground (arith, h, t))
      ] in
      (rest.0, collect-next o arrivals xs ys e ∙ rest.1, rest.2)

  -- Whatever the order in which the microVMs end, if what arrives for an index is the outcome of that
  -- microVM, no index is out of range and the i-th has arrived, then the loop does not panic and the
  -- i-th entry of the outcomes is the outcome of the i-th.
  pub collect-get_elem? :
      (arrivals xs : List VmOutcome) (i : ℕ)
      → All (Belongs boot (length xs)) arrivals
      → any (λ o. o.index == i) arrivals ≡ true
      → (ys : List VmOutcome) × (collect arrivals xs ≡ some ys) × (get_elem? ys i ≡ some (boot i))
  unfolding Collected
  collect-get_elem? arrivals xs i a h = collects (length xs) arrivals xs i refl a h

pub count-any : (xs : List VmOutcome) → ltb 0 (count is_failed xs) ≡ any is_failed xs
count-any [] = refl
count-any (x ∷ xs) = ground (arith, count-any xs)

-- The launch check adds a failure exactly if some microVM has an error or gave no report.
pub judge_launch-has :
    (outcomes : List VmOutcome) (r : Report)
    → has Status.fail (judge_launch outcomes r).results
      ≡ has Status.fail r.results || any is_failed outcomes
unfolding judge_launch fail addf add
judge_launch-has outcomes r = elim (Bool-cases (ltb 0 (count is_failed outcomes))) [
  | inl t ↦
      rw (judge_launch, t)
        (any-append (λ res. same res.status Status.fail) r.results _
          ∙ ground (arith, t, count-any outcomes))
  | inr t ↦
      rw (judge_launch, t)
        (any-append (λ res. same res.status Status.fail) r.results _
          ∙ ground (arith, t, count-any outcomes))
]
