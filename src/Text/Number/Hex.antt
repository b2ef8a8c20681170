-- ===== src/Text/Number/Hex.antt =====
-- Hexadecimal numbers of a fixed width: their length, and how they are read back.
use native.Mathlib.Nat.{pow-suc}
use fc_preflight.Prelude.{
  ℕ, zero, suc, ◌+◌, ◌-◌, ◌*◌, ◌/◌, ◌%◌, ◌^◌, ◌<◌, ◌≡◌, refl, ◌∙◌, ap, Option, none, some, [], ◌∷◌,
  ◌++◌, arith, leb, ◌&&◌, if◌then◌else◌, length,
}
use fc_preflight.Text.{Bytes}
use fc_preflight.Text.Number.{hex_digit, hex_more, hex_min, hex8}

unfoldable pub hex_value : ℕ → Option ℕ
hex_value c =
    if leb 48 c && leb c 57
    then some (c - 48)
    else if leb 65 c && leb c 70
    then some (c - 55)
    else if leb 97 c && leb c 102
    then some (c - 87)
    else none

-- k hexadecimal digits behind the number a
unfoldable pub read_hex : ℕ → ℕ → Bytes → Option (ℕ × Bytes)
read_hex zero a s = some (a, s)
read_hex (suc k) a [] = none
read_hex (suc k) a (c ∷ s) = elim (hex_value c) [ none ↦ none | some d ↦ read_hex k (a * 16 + d) s ]

hex_value-hex_digit : (d : ℕ) → d < 16 → hex_value (hex_digit d) ≡ some d
unfolding hex_value hex_digit
hex_value-hex_digit d h = ground arith

below_pow : (w n : ℕ) → n < 16 ^ suc w → n / 16 < 16 ^ w
below_pow w n h = let e = pow-suc 16 w in omega (arith, e)

hex_more_zero : (n : ℕ) (acc : Bytes) → n < 1 → hex_more n n acc ≡ acc
unfolding hex_more
hex_more_zero zero acc h = refl
hex_more_zero (suc n) acc h = absurd (omega arith)

pub length-hex_min :
    (w n : ℕ) (acc : Bytes) → n < 16 ^ w → length (hex_min w n acc) ≡ w + length acc
unfolding hex_min
length-hex_min zero n acc h = rw (hex_more_zero n acc h) (omega arith)
length-hex_min (suc w) n acc h =
    omega (arith, length-hex_min w (n / 16) (hex_digit (n % 16) ∷ acc) (below_pow w n h))

read_hex-digit :
    (k a d : ℕ) (s : Bytes)
    → d < 16
    → read_hex (suc k) a (hex_digit d ∷ s) ≡ read_hex k (a * 16 + d) s
unfolding read_hex
read_hex-digit k a d s h = rw (hex_value-hex_digit d h, read_hex) refl

read_hex_eq : (k j a b : ℕ) (s : Bytes) → k ≡ j → a ≡ b → read_hex k a s ≡ read_hex j b s
read_hex_eq k j a b s p q = rw (p, q) refl

read_hex_done : (a n : ℕ) (s : Bytes) → a ≡ n → read_hex 0 a s ≡ some (n, s)
unfolding read_hex
read_hex_done a n s e = rw e refl

-- The digits of n are read as n, behind any number and in front of any k further digits.
read_hex-hex_min :
    (w k a n : ℕ) (acc : Bytes)
    → n < 16 ^ w
    → read_hex (w + k) a (hex_min w n acc) ≡ read_hex k (a * 16 ^ w + n) acc
unfolding hex_min
read_hex-hex_min zero k a n acc h =
    rw (hex_more_zero n acc h) (read_hex_eq _ _ _ _ acc (omega arith) (omega arith))
read_hex-hex_min (suc w) k a n acc h =
    read_hex_eq _ _ _ _ _ (omega arith) refl
    ∙ read_hex-hex_min w (suc k) a (n / 16) (hex_digit (n % 16) ∷ acc) (below_pow w n h)
    ∙ read_hex-digit k (a * 16 ^ w + n / 16) (n % 16) acc (omega arith)
    ∙ read_hex_eq _ _ _ _ acc refl (omega (arith, ap (λ (t : ℕ). a * t) (pow-suc 16 w)))

hex_min-append :
    (w n : ℕ) (acc rest : Bytes) → n < 16 ^ w → hex_min w n acc ++ rest ≡ hex_min w n (acc ++ rest)
unfolding hex_min
hex_min-append zero n acc rest h = rw (hex_more_zero n acc h, hex_more_zero n (acc ++ rest) h) refl
hex_min-append (suc w) n acc rest h =
    hex_min-append w (n / 16) (hex_digit (n % 16) ∷ acc) rest (below_pow w n h)

-- `%08X` of a 32-bit number is eight bytes.
pub length-hex8 : (n : ℕ) → n < 2 ^ 32 → length (hex8 n) ≡ 8
unfolding hex8
length-hex8 n h = length-hex_min 8 n [] h

-- The eight digits of a 32-bit number are read back as that number.
pub read_hex-hex8 :
    (n : ℕ) (rest : Bytes) → n < 2 ^ 32 → read_hex 8 0 (hex8 n ++ rest) ≡ some (n, rest)
unfolding hex8
read_hex-hex8 n rest h =
    rw (hex_min-append 8 n [] rest h)
      (read_hex-hex_min 8 0 0 n rest h ∙ read_hex_done _ n rest (omega arith))
