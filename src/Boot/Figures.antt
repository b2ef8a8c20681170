-- ===== src/Boot/Figures.antt =====
-- boot_linux.go: the figures that judgeOutcomes draws from the reports of the guests.
use fc_preflight.Prelude.{ℕ, Option, none, some, List, [], ◌∷◌, ◌++◌, ◌==◌, if◌then◌else◌, length}
use fc_preflight.Prelude.Int.{pos}
use fc_preflight.Float.{Float64, FloatOps, zero_float}
use fc_preflight.Text.{Bytes, codes, is_empty, join}
use fc_preflight.Text.Number.{itoa}
use fc_preflight.Guest.Types.{GuestReport, VmOutcome}

-- A microVM with the report that its `Guest` points to.
abbrev pub Reported : Type 0
Reported = VmOutcome × GuestReport

unfoldable pub attach :
    VmOutcome → Option GuestReport → Option (List Reported) → Option (List Reported)
attach o none rest = none
attach o (some g) none = none
attach o (some g) (some rest) = some ((o, g) ∷ rest)

-- Every `o.Guest`; `none` where one is nil, which panics.
unfoldable pub guests : List VmOutcome → Option (List Reported)
unfolding attach
guests [] = some []
guests (o ∷ os) = attach o o.guest (guests os)

pub record Stat : Type 0 where
  pub mean : Float64
  pub lo : Float64
  pub hi : Float64

module _ (ops : FloatOps) where
  -- The loop of `stat`.
  unfoldable pub stat_loop :
      (GuestReport → Float64) → List Reported → Float64 → Float64 → Float64 → Stat
  stat_loop pick [] sum lo hi = record { mean = sum; lo = lo; hi = hi }
  stat_loop pick ((o, g) ∷ rest) sum lo hi =
      stat_loop pick rest (ops.plus sum (pick g)) (ops.minimum lo (pick g))
        (ops.maximum hi (pick g))

  -- stat
  unfoldable pub stat : List Reported → (GuestReport → Float64) → Stat
  unfolding stat_loop
  stat vms pick =
      let s = stat_loop pick vms zero_float ops.infinity ops.neg_infinity in
      record s { mean = ops.divide s.mean (ops.of_ℤ (pos (length vms))) }

  -- spread
  unfoldable pub spread : ℕ → Bytes → Stat → Bytes
  spread n unit s =
      if n == 1
      then ops.show_rounded s.mean ++ (32 ∷ unit)
      else join
          (codes "mean "
            ∷ ops.show_rounded s.mean
            ∷ codes " "
            ∷ unit
            ∷ codes " ("
            ∷ ops.show_rounded s.lo
            ∷ codes ".."
            ∷ ops.show_rounded s.hi
            ∷ codes " over "
            ∷ itoa n
            ∷ codes " VMs)"
            ∷ [])
          []

-- netErrs
unfoldable pub net_errors : List Reported → List Bytes
net_errors [] = []
net_errors ((o, g) ∷ rest) =
    let others = net_errors rest in
    if is_empty g.net_error
    then others
    else join (codes "vm" ∷ itoa o.index ∷ codes ": " ∷ g.net_error ∷ []) [] ∷ others
