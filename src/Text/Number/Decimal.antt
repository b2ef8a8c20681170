-- ===== src/Text/Number/Decimal.antt =====
-- Decimal numbers are words: no byte of them is white space.
use fc_preflight.Prelude.{
  ℕ, zero, suc, ◌+◌, ◌/◌, ◌%◌, ◌≡◌, false, inl, inr, [], ◌∷◌, arith, ltb, Bool-cases,
}
use fc_preflight.Text.{Bytes, is_space}
use fc_preflight.Text.Number.{decimal, itoa}
use fc_preflight.Text.Fields.{IsWord}

digit_no_space : (d : ℕ) → is_space (48 + d) ≡ false
digit_no_space d = ground arith

decimal-IsWord : (f n : ℕ) (acc : Bytes) → IsWord acc → IsWord (decimal f n acc)
unfolding decimal
decimal-IsWord zero n acc h = h
decimal-IsWord (suc f) n acc h = elim (Bool-cases (ltb n 10)) [
  | inl t ↦ rw t (digit_no_space n, h)
  | inr t ↦ rw t (decimal-IsWord f (n / 10) ((48 + n % 10) ∷ acc) (digit_no_space (n % 10), h))
]

pub itoa-IsWord : (n : ℕ) → IsWord (itoa n)
unfolding itoa
itoa-IsWord n = decimal-IsWord (suc n) n [] tt
