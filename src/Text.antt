-- ===== src/Text.antt =====
-- Go strings as lists of bytes, with the functions of `strings` and `bufio` that the program calls.
-- Texts are taken to be ASCII where a function of `strings` would decode UTF-8 (white space, case).
pub mod Number
pub mod Quote
pub mod Fields
pub mod Dict
pub mod Order
pub mod Show
use Prim.Native.Char.{code}
use Prim.Native.String.{String}
use fc_preflight.Prelude.{
  ℕ, zero, suc, ◌-◌, ◌+◌, Bool, true, false, not, ◌&&◌, ◌||◌, Option, none, some, List, [], ◌∷◌,
  ◌++◌, map, ltb, leb, ◌==◌, if◌then◌else◌, length, drop, replicate, ◌≡◌, refl, arith,
}

abbrev pub Bytes : Type 0
Bytes = List ℕ

-- The bytes of an ASCII literal.
unfoldable pub codes : String → Bytes
codes String.[] = []
codes (String.◌∷◌ letter text) = code letter ∷ codes text

unfoldable pub equal : Bytes → Bytes → Bool
equal [] [] = true
equal (x ∷ a) (y ∷ b) = x == y && equal a b
equal _ _ = false

-- s == ""
abbrev pub is_empty : Bytes → Bool
is_empty [] = true
is_empty (c ∷ s) = false

-- strings.HasPrefix(s, prefix)
unfoldable pub has_prefix : Bytes → Bytes → Bool
has_prefix s [] = true
has_prefix [] (c ∷ p) = false
has_prefix (x ∷ s) (c ∷ p) = x == c && has_prefix s p

-- strings.Contains(s, substr)
unfoldable pub contains : Bytes → Bytes → Bool
unfolding has_prefix
contains [] sub = has_prefix [] sub
contains (x ∷ s) sub = has_prefix (x ∷ s) sub || contains s sub

abbrev pub cons_first : ℕ → Option (Bytes × Bytes) → Option (Bytes × Bytes)
cons_first c none = none
cons_first c (some (a, b)) = some (c ∷ a, b)

-- strings.Cut(s, sep) for a separator of one byte; `none` is `ok == false`
unfoldable pub cut : Bytes → ℕ → Option (Bytes × Bytes)
cut [] sep = none
cut (c ∷ s) sep = let rest = cut s sep in if c == sep then some ([], s) else cons_first c rest

-- strings.Cut(s, sep) for a separator of any length
unfoldable pub cut_text : Bytes → Bytes → Option (Bytes × Bytes)
unfolding has_prefix
cut_text [] sep = if has_prefix [] sep then some ([], []) else none
cut_text (c ∷ s) sep =
    let rest = cut_text s sep in
    if has_prefix (c ∷ s) sep then some ([], drop (length sep) (c ∷ s)) else cons_first c rest

-- ASCII white space
abbrev pub is_space : ℕ → Bool
is_space c = c == 32 || (leb 9 c && leb c 13)

unfoldable pub trim_left : (ℕ → Bool) → Bytes → Bytes
trim_left p [] = []
trim_left p (c ∷ s) = let rest = trim_left p s in if p c then rest else c ∷ s

abbrev pub keep_unless : Bool → ℕ → Bytes → Bytes
keep_unless drop c [] = if drop then [] else c ∷ []
keep_unless drop c (d ∷ t) = c ∷ d ∷ t

unfoldable pub trim_right : (ℕ → Bool) → Bytes → Bytes
trim_right p [] = []
trim_right p (c ∷ s) = keep_unless (p c) c (trim_right p s)

-- strings.TrimSpace(s)
unfoldable pub trim_space : Bytes → Bytes
unfolding trim_left trim_right
trim_space s = trim_right is_space (trim_left is_space s)

-- strings.Trim(s, cutset) for a cutset of one byte
unfoldable pub trim : Bytes → ℕ → Bytes
unfolding trim_left trim_right
trim s b = trim_right (λ c. c == b) (trim_left (λ c. c == b) s)

-- strings.Join(parts, sep)
unfoldable pub join : List Bytes → Bytes → Bytes
join [] sep = []
join (p ∷ []) sep = p
join (p ∷ q ∷ ps) sep = p ++ (sep ++ join (q ∷ ps) sep)

abbrev pub cons_to_first : ℕ → List Bytes → List Bytes
cons_to_first c [] = (c ∷ []) ∷ []
cons_to_first c (p ∷ ps) = (c ∷ p) ∷ ps

-- strings.Split(s, sep) for a separator of one byte
unfoldable pub split : Bytes → ℕ → List Bytes
split [] sep = [] ∷ []
split (c ∷ s) sep = let rest = split s sep in if c == sep then [] ∷ rest else cons_to_first c rest

-- The lines that a `bufio.Scanner` splits a text into; a last line needs no newline.
lines_from : Bytes → Bytes → List Bytes
lines_from [] [] = []
lines_from [] (c ∷ cur) = (c ∷ cur) ∷ []
lines_from (c ∷ s) cur = elim (c == 10) [
  | true ↦ cur ∷ lines_from s []
  | false ↦ lines_from s (cur ++ c ∷ [])
]

-- A line that ends in a carriage return loses it.
drop_cr : Bytes → Bytes
drop_cr [] = []
drop_cr (c ∷ []) = if c == 13 then [] else c ∷ []
drop_cr (c ∷ d ∷ s) = c ∷ drop_cr (d ∷ s)

-- The scanner stops, with an error, at a line that does not fit its buffer.
until_long : ℕ → List Bytes → List Bytes × Bool
until_long limit [] = ([], false)
until_long limit (l ∷ ls) =
    let (rest, bad) = until_long limit ls in
    if ltb (length l) limit then (drop_cr l ∷ rest, bad) else ([], true)

-- The texts that `sc.Scan()` delivers with a buffer of `limit` bytes, and whether `sc.Err()` is set.
unfoldable pub scan_lines : ℕ → Bytes → List Bytes × Bool
unfolding lines_from drop_cr until_long
scan_lines limit content = until_long limit (lines_from content [])

-- `bufio.MaxScanTokenSize`, the buffer of a scanner that is given none
abbrev pub default_buffer : ℕ
default_buffer = 65536

-- `sc.Buffer(make([]byte, 1<<20), 1<<20)`
abbrev pub large_buffer : ℕ
large_buffer = 1048576

-- strings.ToLower, strings.ToUpper
abbrev pub lower : ℕ → ℕ
lower c = if leb 65 c && leb c 90 then c + 32 else c

abbrev pub upper : ℕ → ℕ
upper c = if leb 97 c && leb c 122 then c - 32 else c

unfoldable pub to_lower : Bytes → Bytes
to_lower s = map lower s

unfoldable pub to_upper : Bytes → Bytes
to_upper s = map upper s

-- `%-34s`: padded with blanks on the right
unfoldable pub pad_right : ℕ → Bytes → Bytes
pad_right width s = s ++ replicate (width - length s) 32

-- The part of a path after its last slash, for a path that does not end in one: filepath.Base.
base_from : Bytes → Bytes → Bytes
base_from [] cur = cur
base_from (c ∷ s) cur = base_from s (if c == b'/' then [] else cur ++ c ∷ [])

unfoldable pub base_name : Bytes → Bytes
unfolding base_from
base_name path = base_from path []

pub equal_refl : (a : Bytes) → equal a a ≡ true
unfolding equal
equal_refl [] = refl
equal_refl (c ∷ a) = ground (arith, equal_refl a)
