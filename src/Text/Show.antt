-- ===== src/Text/Show.antt =====
-- `%v` of fmt on a map of texts.
use fc_preflight.Prelude.{List, [], ◌∷◌, ◌++◌}
use fc_preflight.Text.{Bytes, codes}
use fc_preflight.Text.Quote.{show_list}
use fc_preflight.Text.Order.{sort_by}

-- `%v` of a map of texts: its entries in the order of the keys
unfoldable pub entry_texts : List (Bytes × Bytes) → List Bytes
entry_texts [] = []
entry_texts ((k, v) ∷ rest) = (k ++ (b':' ∷ v)) ∷ entry_texts rest

unfoldable pub show_map : List (Bytes × Bytes) → Bytes
unfolding entry_texts
show_map m = codes "map" ++ show_list (entry_texts (sort_by (λ (e : Bytes × Bytes). e.0) m))
