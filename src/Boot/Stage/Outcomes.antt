-- ===== src/Boot/Stage/Outcomes.antt =====
-- boot_linux.go: runBootStage hands the outcomes on in the order of the microVMs.
use fc_preflight.Prelude.{
  ℕ, zero, suc, ◌+◌, ◌≤◌, ◌<◌, true, some, List, [], ◌∷◌, ◌≡◌, refl, sym, ap, ◌∙◌, subst, inl, inr,
  arith, any, any-Permᴰ, All, length, get_elem?, map, replicate, ◌==◌, ==_iff, Bool-cases,
  length-replicate,
}
use fc_preflight.Prelude.Int.{pos}
use fc_preflight.Text.{Bytes}
use fc_preflight.Guest.Types.{VmOutcome}
use fc_preflight.Console.{new_outcome}
use fc_preflight.Boot.{collect}
use fc_preflight.Boot.Launch.{Belongs, collect-get_elem?, collect-some, beyond}
use fc_preflight.Boot.One.Course.{boot_one-index}
use fc_preflight.Boot.Flow.{BootFlags, BootWorld, indices, outcome_of}
use fc_preflight.Boot.Stage.{boot_all}
use fc_preflight.Boot.Stage.Ends.{none_beyond}
use mathlib.Core.List.{Permᴰ}
use mathlib.Core.Option.{some-injective}

All-Permᴰ : (P : VmOutcome → Type 0) {xs ys : List VmOutcome} → Permᴰ xs ys → All P xs → All P ys
All-Permᴰ P Permᴰ.nil h = h
All-Permᴰ P (Permᴰ.cons e d) h = (subst P e h.0, All-Permᴰ P d h.1)
All-Permᴰ P (Permᴰ.swap e f) h = (subst P f h.1.0, (subst P e h.0, h.1.1))
All-Permᴰ P (Permᴰ.trans d d') h = All-Permᴰ P d' (All-Permᴰ P d h)

module _ (boot : ℕ → VmOutcome) (own : (i : ℕ) → (boot i).index ≡ i) where
  own_indices : (n from k : ℕ) → from + k ≤ n → All (Belongs boot n) (map boot (indices from k))
  unfolding indices
  own_indices n from zero h = tt
  own_indices n from (suc k) h = (
    (ap boot (sym (own from)), rw (own from) (omega (arith, h))),
    own_indices n (from + 1) k (omega (arith, h)),
  )

  arrives :
      (i from k : ℕ)
      → from ≤ i
      → i < from + k
      → any (λ o. o.index == i) (map boot (indices from k)) ≡ true
  unfolding indices
  arrives i from zero h g = absurd (omega (arith, h, g))
  arrives i from (suc k) h g = elim (Bool-cases (from == i)) [
    | inl t ↦ ground (arith, own from, t)
    | inr t ↦ rw (own from, t) (arrives i (from + 1) k (ground (arith, h, g, t)) (omega (arith, g)))
  ]

  -- A list is known from its entries.
  pointwise :
      (from k : ℕ) (ys : List VmOutcome)
      → length ys ≡ k
      → ((j : ℕ) → j < k → get_elem? ys j ≡ some (boot (from + j)))
      → ys ≡ map boot (indices from k)
  unfolding indices
  pointwise from zero [] l h = refl
  pointwise from zero (y ∷ ys) l h = absurd (omega (arith, l))
  pointwise from (suc k) [] l h = absurd (omega (arith, l))
  pointwise from (suc k) (y ∷ ys) l h =
      let first : y ≡ boot from =
        some-injective _ _ (h 0 (omega arith) ∙ ap (λ (m : ℕ). some (boot m)) (omega arith)) in
      let rest : ys ≡ map boot (indices (from + 1) k) =
        pointwise (from + 1) k ys (omega (arith, l)) (λ j less.
          h (suc j) (omega (arith, less)) ∙ ap (λ (m : ℕ). some (boot m)) (omega arith)) in
      cc (first, rest)

  collects_in_order :
      (n : ℕ) (arrivals : List VmOutcome)
      → Permᴰ (map boot (indices 0 n)) arrivals
      → collect arrivals (replicate n (new_outcome 0)) ≡ some (map boot (indices 0 n))
  collects_in_order n arrivals d =
      let zeroed : List VmOutcome = replicate n (new_outcome 0) in
      let size : length zeroed ≡ n = length-replicate n (new_outcome 0) in
      let (ys, got, l) =
        collect-some n arrivals zeroed size
          (sym (any-Permᴰ (beyond n) d) ∙ none_beyond boot n 0 n own (omega arith)) in
      let entry : (j : ℕ) → j < n → get_elem? ys j ≡ some (boot j) = λ j less.
        let (zs, got', e) =
          collect-get_elem? boot arrivals zeroed j
            (rw size (All-Permᴰ (Belongs boot n) d (own_indices n 0 n (omega arith))))
            (sym (any-Permᴰ (λ o. o.index == j) d)
              ∙ arrives j 0 n (omega arith) (omega (arith, less))) in
        let same : zs ≡ ys = some-injective _ _ (sym got' ∙ got) in rw (← same) e in
      got
      ∙ ap some (
          pointwise 0 n ys l (λ j less. entry j less ∙ ap (λ (m : ℕ). some (boot m)) (omega arith)))

-- If `make` can allot that many outcomes and the channel delivers what was sent in some order, then,
-- whatever that order is, the boots of runBootStage come to the outcomes of bootOne in the order of
-- the microVMs, one for each; no index is out of range.
pub boot_all-outcome_of :
    (w : BootWorld) (flags : BootFlags) (fc_bin kernel initramfs dir : Bytes) (n : ℕ)
    → w.can_make n ≡ true
    → ((outcomes : List VmOutcome) → Permᴰ outcomes (w.arrive outcomes))
    → boot_all w flags (outcome_of w flags fc_bin kernel initramfs dir) (pos n)
      ≡ some (map (outcome_of w flags fc_bin kernel initramfs dir) (indices 0 n))
unfolding boot_all outcome_of indices
boot_all-outcome_of w flags fc_bin kernel initramfs dir n room delivers =
    let boot : ℕ → VmOutcome = outcome_of w flags fc_bin kernel initramfs dir in
    elim (Bool-cases (n == 1)) [
      | inl t ↦
          let one : n ≡ 1 = (==_iff n 1).0 t in
          rw (boot_all, room, t) (ap (λ (m : ℕ). some (map boot (indices 0 m))) (sym one))
      | inr t ↦
          rw (boot_all, room, t)
            (collects_in_order boot
              (λ i. boot_one-index (w.vm i) flags.vm w.base i fc_bin kernel initramfs dir []) n
              (w.arrive (map boot (indices 0 n))) (delivers (map boot (indices 0 n))))
    ]
