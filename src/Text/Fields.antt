-- ===== src/Text/Fields.antt =====
-- strings.Fields: the maximal runs of bytes that are not white space.
use fc_preflight.Prelude.{
  ℕ, true, false, List, [], ◌∷◌, ◌++◌, ◌≡◌, refl, sym, arith, append_assoc, append-nil, All,
  All-append, any, Bool-cases, inl, inr,
}
use fc_preflight.Text.{Bytes, is_space}

abbrev flush : Bytes → List Bytes → List Bytes
flush [] rest = rest
flush (c ∷ cur) rest = (c ∷ cur) ∷ rest

-- The fields of a text behind the bytes read of the current field.
pub fields_from : Bytes → Bytes → List Bytes
fields_from [] cur = flush cur []
fields_from (c ∷ s) cur = elim (is_space c) [
  | true ↦ flush cur (fields_from s [])
  | false ↦ fields_from s (cur ++ c ∷ [])
]

unfoldable pub fields : Bytes → List Bytes
unfolding fields_from
fields s = fields_from s []

-- No byte of the text is white space.
abbrev pub IsWord : Bytes → Type 0
IsWord = All (λ c. is_space c ≡ false)

fields_from-word :
    (w rest cur : Bytes) → IsWord w → fields_from (w ++ rest) cur ≡ fields_from rest (cur ++ w)
unfolding fields_from
fields_from-word [] rest cur h = simp append-nil
fields_from-word (c ∷ w) rest cur h =
    ground (arith, h.0, fields_from-word w rest (cur ++ c ∷ []) h.1, append_assoc cur (c ∷ []) w)

-- A word with a blank behind it is one field, and the rest of the text gives the others.
pub fields-word_blank :
    (c : ℕ) (w rest : Bytes)
    → IsWord (c ∷ w)
    → fields ((c ∷ w) ++ 32 ∷ rest) ≡ (c ∷ w) ∷ fields rest
unfolding fields
fields-word_blank c w rest h = fields_from-word (c ∷ w) (32 ∷ rest) [] h

-- A text that is one word is one field.
pub fields-word : (c : ℕ) (w : Bytes) → IsWord (c ∷ w) → fields (c ∷ w) ≡ (c ∷ w) ∷ []
unfolding fields
fields-word c w h = rw append-nil at (fields_from-word (c ∷ w) [] [] h)

flush-append : (cur : Bytes) (xs ys : List Bytes) → flush cur (xs ++ ys) ≡ flush cur xs ++ ys
flush-append [] xs ys = refl
flush-append (c ∷ cur) xs ys = refl

fields_from-blank :
    (s rest cur : Bytes) → fields_from (s ++ 32 ∷ rest) cur ≡ fields_from s cur ++ fields rest
unfolding fields fields_from
fields_from-blank [] rest cur = flush-append cur [] (fields_from rest [])
fields_from-blank (c ∷ s) rest cur = elim (Bool-cases (is_space c)) [
  | inl t ↦
      rw (t, fields_from, fields_from-blank s rest [])
        (flush-append cur (fields_from s []) (fields rest))
  | inr t ↦ rw (t, fields_from) (fields_from-blank s rest (cur ++ c ∷ []))
]

-- A blank between two texts separates their fields.
pub fields-blank : (s rest : Bytes) → fields (s ++ 32 ∷ rest) ≡ fields s ++ fields rest
unfolding fields
fields-blank s rest = fields_from-blank s rest []

-- A text without white space, by test.
pub any-IsWord : (s : Bytes) → any is_space s ≡ false → IsWord s
any-IsWord [] h = tt
any-IsWord (c ∷ s) h = (ground (arith, h), any-IsWord s (ground (arith, h)))

-- A key and a value give one field together.
pub fields-parameter :
    (c : ℕ) (key value rest : Bytes)
    → any is_space (c ∷ key) ≡ false
    → IsWord value
    → fields ((c ∷ key) ++ (value ++ 32 ∷ rest)) ≡ ((c ∷ key) ++ value) ∷ fields rest
fields-parameter c key value rest h w = rw (sym (append_assoc (c ∷ key) value (32 ∷ rest))) (
    fields-word_blank c (key ++ value) rest
      (All-append (λ x. is_space x ≡ false) (c ∷ key) value (any-IsWord (c ∷ key) h) w))
