-- ===== src/Text/Quote.antt =====
-- `%q` of a text and `%v` of a list of texts.
use fc_preflight.Prelude.{
  ℕ, ◌+◌, ◌/◌, ◌%◌, ◌||◌, List, [], ◌∷◌, ◌++◌, ltb, leb, ◌==◌, if◌then◌else◌,
}
use fc_preflight.Text.{Bytes}

abbrev small_hex : ℕ → ℕ
small_hex d = if ltb d 10 then 48 + d else 87 + d

-- What strconv.Quote writes for one byte.
quote_byte : ℕ → Bytes
quote_byte c =
    if c == 34 || c == 92
    then 92 ∷ c ∷ []
    else if c == 7
    then 92 ∷ b'a' ∷ []
    else if c == 8
    then 92 ∷ b'b' ∷ []
    else if c == 12
    then 92 ∷ b'f' ∷ []
    else if c == 10
    then 92 ∷ b'n' ∷ []
    else if c == 13
    then 92 ∷ b'r' ∷ []
    else if c == 9
    then 92 ∷ b't' ∷ []
    else if c == 11
    then 92 ∷ b'v' ∷ []
    else if ltb c 32 || leb 127 c
    then 92 ∷ b'x' ∷ small_hex (c / 16) ∷ small_hex (c % 16) ∷ []
    else c ∷ []

quote_bytes : Bytes → Bytes
quote_bytes [] = []
quote_bytes (c ∷ s) = quote_byte c ++ quote_bytes s

-- `%q`
unfoldable pub quote : Bytes → Bytes
unfolding quote_byte quote_bytes
quote s = 34 ∷ (quote_bytes s ++ 34 ∷ [])

spaced : List Bytes → Bytes
spaced [] = []
spaced (p ∷ ps) = 32 ∷ (p ++ spaced ps)

-- `%v` of a slice of strings: blanks between the items, in brackets
unfoldable pub show_list : List Bytes → Bytes
unfolding spaced
show_list [] = b'[' ∷ b']' ∷ []
show_list (p ∷ ps) = b'[' ∷ (p ++ (spaced ps ++ b']' ∷ []))
