-- ===== src/Text/Order/Sorted.antt =====
-- What sorting by the order of Go strings gives.
use fc_preflight.Prelude.{
  Bool, true, false, List, [], ◌∷◌, ◌≡◌, refl, ◌∙◌, arith, inl, inr, Bool-cases, count,
}
use fc_preflight.Text.{Bytes}
use fc_preflight.Text.Order.{less, insert_by, sort_by}

less_asymmetric : (a b : Bytes) → less a b ≡ true → less b a ≡ false
unfolding less
less_asymmetric [] [] h = refl
less_asymmetric [] (y ∷ b) h = refl
less_asymmetric (x ∷ a) [] h = absurd (ground (arith, h))
less_asymmetric (x ∷ a) (y ∷ b) h = ground (arith, h, less_asymmetric a b)

module _ {ℓ} {A : Type ℓ} (key : A → Bytes) where
  -- No item is greater than the one behind it.
  abbrev pub IsSorted : List A → Type 0
  IsSorted [] = Unit
  IsSorted (a ∷ []) = Unit
  IsSorted (a ∷ b ∷ items) = (less (key b) (key a) ≡ false) × IsSorted (b ∷ items)

  rest-IsSorted : (b : A) (items : List A) → IsSorted (b ∷ items) → IsSorted items
  rest-IsSorted b [] s = tt
  rest-IsSorted b (c ∷ items) s = s.1

  behind :
      (a b : A) (items : List A)
      → less (key b) (key a) ≡ true
      → IsSorted (b ∷ items)
      → IsSorted (insert_by key a items)
      → IsSorted (b ∷ insert_by key a items)
  unfolding insert_by
  behind a b [] h s t = (less_asymmetric (key b) (key a) h, tt)
  behind a b (c ∷ items) h s t = elim (Bool-cases (less (key c) (key a))) [
    | inl e ↦ rw (e, insert_by) (s.0, rw (e, insert_by) at t)
    | inr e ↦ rw (e, insert_by) (less_asymmetric (key b) (key a) h, (e, s.1))
  ]

  insert_by-IsSorted : (a : A) (items : List A) → IsSorted items → IsSorted (insert_by key a items)
  unfolding insert_by
  insert_by-IsSorted a [] s = tt
  insert_by-IsSorted a (b ∷ items) s = elim (Bool-cases (less (key b) (key a))) [
    | inr e ↦ rw (e, insert_by) (e, s)
    | inl e ↦
        rw (e, insert_by)
          (behind a b items e s (insert_by-IsSorted a items (rest-IsSorted b items s)))
  ]

  pub sort_by-IsSorted : (items : List A) → IsSorted (sort_by key items)
  unfolding sort_by
  sort_by-IsSorted [] = tt
  sort_by-IsSorted (a ∷ items) = insert_by-IsSorted a (sort_by key items) (sort_by-IsSorted items)

  count-insert_by :
      (p : A → Bool) (a : A) (items : List A)
      → count p (insert_by key a items) ≡ count p (a ∷ items)
  unfolding insert_by
  count-insert_by p a [] = refl
  count-insert_by p a (b ∷ items) = elim (Bool-cases (less (key b) (key a))) [
    | inr e ↦ rw (e, insert_by) refl
    | inl e ↦ rw (e, insert_by) (ground (arith, count-insert_by p a items))
  ]

  -- Sorting keeps every item as often as it was there.
  pub count-sort_by : (p : A → Bool) (items : List A) → count p (sort_by key items) ≡ count p items
  unfolding sort_by
  count-sort_by p [] = refl
  count-sort_by p (a ∷ items) =
      count-insert_by p a (sort_by key items) ∙ ground (arith, count-sort_by p items)
