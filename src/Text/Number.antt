-- ===== src/Text/Number.antt =====
-- Numbers in text: `%d`, `%08X`, `%x`, `%02X`, strconv.Atoi and strconv.Itoa.
pub mod Hex
pub mod Decimal
pub mod Spell
use fc_preflight.Prelude.{
  ℕ, zero, suc, ◌+◌, ◌-◌, ◌*◌, ◌/◌, ◌%◌, ◌^◌, ◌≡◌, refl, Bool, true, false, ◌&&◌, ◌||◌, Option,
  none, some, List, [], ◌∷◌, ◌++◌, ltb, leb, ◌==◌, if◌then◌else◌,
}
use fc_preflight.Prelude.Int.{ℤ, pos, negsuc}
use fc_preflight.Text.{Bytes}

-- The digits of n in base ten in front of `acc`, on fuel above n.
pub decimal : ℕ → ℕ → Bytes → Bytes
decimal zero n acc = acc
decimal (suc f) n acc =
    let more = decimal f (n / 10) ((48 + n % 10) ∷ acc) in if ltb n 10 then (48 + n) ∷ acc else more

-- `%d` of a number that is not negative
unfoldable pub itoa : ℕ → Bytes
unfolding decimal
itoa n = decimal (suc n) n []

-- `%d`
unfoldable pub itoa_ℤ : ℤ → Bytes
unfolding itoa
itoa_ℤ (pos n) = itoa n
itoa_ℤ (negsuc n) = b'-' ∷ itoa (n + 1)

abbrev pub is_digit : ℕ → Bool
is_digit c = leb 48 c && leb c 57

-- The number that decimal digits spell behind n; `none` at any other byte.
unfoldable pub digits_value : ℕ → Bytes → Option ℕ
digits_value n [] = some n
digits_value n (c ∷ s) =
    let rest = digits_value (n * 10 + (c - 48)) s in if is_digit c then rest else none

abbrev pub natural : Bytes → Option ℕ
natural [] = none
natural (c ∷ s) = digits_value 0 (c ∷ s)

-- An int has 64 bits.
abbrev positive : Option ℕ → Option ℤ
positive none = none
positive (some n) = if ltb n (2 ^ 63) then some (pos n) else none

abbrev negative : Option ℕ → Option ℤ
negative none = none
negative (some zero) = some (pos 0)
negative (some (suc n)) = if ltb n (2 ^ 63) then some (negsuc n) else none

-- strconv.Atoi; `none` is any error, syntax or range
unfoldable pub atoi : Bytes → Option ℤ
unfolding digits_value
atoi [] = none
atoi (c ∷ s) =
    if c == b'-'
    then negative (natural s)
    else if c == b'+'
    then positive (natural s)
    else positive (natural (c ∷ s))

-- An upper-case hexadecimal digit.
unfoldable pub hex_digit : ℕ → ℕ
hex_digit d = if ltb d 10 then 48 + d else 55 + d

-- All digits of n in base sixteen in front of `acc`, on fuel from n.
pub hex_more : ℕ → ℕ → Bytes → Bytes
hex_more zero n acc = acc
hex_more (suc f) n acc =
    let more = hex_more f (n / 16) (hex_digit (n % 16) ∷ acc) in if n == 0 then acc else more

-- `%0wX` of n: at least w digits
pub hex_min : ℕ → ℕ → Bytes → Bytes
unfolding hex_more hex_digit
hex_min zero n acc = hex_more n n acc
hex_min (suc w) n acc = hex_min w (n / 16) (hex_digit (n % 16) ∷ acc)

-- `%08X`
unfoldable pub hex8 : ℕ → Bytes
unfolding hex_min
hex8 n = hex_min 8 n []

-- `%02X`
unfoldable pub hex2 : ℕ → Bytes
unfolding hex_min
hex2 n = hex_min 2 n []

abbrev lower_hex : ℕ → ℕ
lower_hex c = if ltb c 65 then c else c + 32

lower_all : Bytes → Bytes
lower_all [] = []
lower_all (c ∷ s) = lower_hex c ∷ lower_all s

-- `%x`
unfoldable pub hex : ℕ → Bytes
unfolding hex_min lower_all
hex n = lower_all (hex_min 1 n [])

abbrev max_int64 : ℕ
max_int64 = 2 ^ 63 - 1

abbrev clamp_positive : Option ℕ → ℤ
clamp_positive none = pos 0
clamp_positive (some n) = if leb n max_int64 then pos n else pos max_int64

abbrev clamp_negative : Option ℕ → ℤ
clamp_negative none = pos 0
clamp_negative (some zero) = pos 0
clamp_negative (some (suc n)) = if leb n max_int64 then negsuc n else negsuc max_int64

-- The value of strconv.ParseInt(s, 10, 64), its error dropped: 0 at a syntax error, the nearest
-- int64 at a number out of range.
unfoldable pub parse_int_value : Bytes → ℤ
unfolding digits_value
parse_int_value [] = pos 0
parse_int_value (c ∷ s) =
    if c == b'-'
    then clamp_negative (natural s)
    else if c == b'+'
    then clamp_positive (natural s)
    else clamp_positive (natural (c ∷ s))
