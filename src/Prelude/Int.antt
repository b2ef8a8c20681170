-- ===== src/Prelude/Int.antt =====
-- Signed integers over the native numbers, as `strconv.Atoi` returns them and `%d` prints them.
use fc_preflight.Prelude.{ℕ, Bool, true, false, ltb, ◌==◌}

-- `negsuc n` is -(n + 1).
pub data ℤ : Type 0 where
  pos : ℕ → ℤ
  negsuc : ℕ → ℤ

-- a < b, for a numeral b
abbrev pub lt_ℕ : ℤ → ℕ → Bool
lt_ℕ (pos a) b = ltb a b
lt_ℕ (negsuc a) b = true

abbrev pub eq_ℕ : ℤ → ℕ → Bool
eq_ℕ (pos a) b = a == b
eq_ℕ (negsuc a) b = false

-- a < b
abbrev pub ltb_ℤ : ℤ → ℤ → Bool
ltb_ℤ (pos a) (pos b) = ltb a b
ltb_ℤ (pos a) (negsuc b) = false
ltb_ℤ (negsuc a) (pos b) = true
ltb_ℤ (negsuc a) (negsuc b) = ltb b a
