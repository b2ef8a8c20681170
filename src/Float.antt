-- ===== src/Float.antt =====
-- A Go float64, as its 64 bits. Arithmetic on floats and their printing are not defined here:
-- the parts of the program that compute with floats take those operations as a parameter.
use fc_preflight.Prelude.{ℕ, Bool}
use fc_preflight.Prelude.Int.{ℤ}
use fc_preflight.Text.{Bytes}

pub record Float64 : Type 0 where
  pub bits : ℕ

-- 0.0
abbrev pub zero_float : Float64
zero_float = record { bits = 0 }

-- The operations of Go on float64, math.Min, math.Max and math.Inf, `%.0f`, and the value that
-- strconv.ParseFloat returns, whatever its error.
pub record FloatOps : Type 0 where
  pub of_ℤ : ℤ → Float64
  pub plus : Float64 → Float64 → Float64
  pub times : Float64 → Float64 → Float64
  pub divide : Float64 → Float64 → Float64
  pub less_than : Float64 → Float64 → Bool
  pub minimum : Float64 → Float64 → Float64
  pub maximum : Float64 → Float64 → Float64
  pub infinity : Float64
  pub neg_infinity : Float64
  pub show_rounded : Float64 → Bytes
  pub parse_float : Bytes → Float64
