-- ===== src/Text/Number/Spell.antt =====
-- Decimal numbers spell the number, so different numbers are spelt apart.
use fc_preflight.Prelude.{
  ℕ, zero, suc, ◌+◌, ◌/◌, ◌%◌, ◌<◌, ◌≡◌, sym, ap, ◌∙◌, true, inl, inr, [], ◌∷◌, arith, ltb,
  Bool-cases,
}
use mathlib.Core.Option.{some-injective}
use fc_preflight.Text.{Bytes}
use fc_preflight.Text.Number.{decimal, itoa, digits_value, is_digit}

one_digit : (n : ℕ) (acc : Bytes) → n < 10 → digits_value 0 ((48 + n) ∷ acc) ≡ digits_value n acc
unfolding digits_value
one_digit n acc h =
    let digit : is_digit (48 + n) ≡ true = grind (arith, h) in
    rw (digit, digits_value) (ap (λ v. digits_value v acc) (omega arith))

last_digit :
    (n : ℕ) (acc : Bytes) → digits_value (n / 10) ((48 + n % 10) ∷ acc) ≡ digits_value n acc
unfolding digits_value
last_digit n acc =
    let digit : is_digit (48 + n % 10) ≡ true = grind arith in
    rw (digit, digits_value) (ap (λ v. digits_value v acc) (omega arith))

-- The digits spell the number.
digits_value-decimal :
    (f n : ℕ) (acc : Bytes) → n < f → digits_value 0 (decimal f n acc) ≡ digits_value n acc
unfolding decimal digits_value
digits_value-decimal zero n acc h = absurd (omega (arith, h))
digits_value-decimal (suc f) n acc h = elim (Bool-cases (ltb n 10)) [
  | inl t ↦ rw (t, decimal) (one_digit n acc (grind (arith, t)))
  | inr t ↦
      rw (t, decimal)
        (digits_value-decimal f (n / 10) ((48 + n % 10) ∷ acc) (grind (arith, t, h))
          ∙ last_digit n acc)
]

pub itoa_injective : (m n : ℕ) → itoa m ≡ itoa n → m ≡ n
unfolding itoa digits_value
itoa_injective m n h = some-injective m n (
    sym (digits_value-decimal (suc m) m [] (omega arith))
    ∙ ap (digits_value 0) h
    ∙ digits_value-decimal (suc n) n [] (omega arith))
