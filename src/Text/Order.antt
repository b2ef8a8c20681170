-- ===== src/Text/Order.antt =====
-- The order of Go strings, and sorting by it.
pub mod Sorted
use fc_preflight.Prelude.{Bool, true, false, List, [], ◌∷◌, ltb, if◌then◌else◌}
use fc_preflight.Text.{Bytes}

-- a < b, byte by byte
unfoldable pub less : Bytes → Bytes → Bool
less [] [] = false
less [] (y ∷ b) = true
less (x ∷ a) [] = false
less (x ∷ a) (y ∷ b) =
    let rest = less a b in if ltb x y then true else if ltb y x then false else rest

-- Insertion in front of the first item with a key that is not less: the sort is stable.
module _ {ℓ} {A : Type ℓ} (key : A → Bytes) where
  unfoldable pub insert_by : A → List A → List A
  insert_by a [] = a ∷ []
  insert_by a (b ∷ bs) =
      let rest = insert_by a bs in if less (key b) (key a) then b ∷ rest else a ∷ b ∷ bs

  unfoldable pub sort_by : List A → List A
  unfolding insert_by
  sort_by [] = []
  sort_by (a ∷ as') = insert_by a (sort_by as')

-- sort.Strings
unfoldable pub sort_texts : List Bytes → List Bytes
unfolding sort_by
sort_texts = sort_by (λ s. s)
