-- ===== src/Text/Dict.antt =====
-- A `map[string]string` as an association list with one entry for each key, and a set of texts.
use fc_preflight.Prelude.{Bool, false, ◌||◌, Option, none, some, List, [], ◌∷◌, if◌then◌else◌}
use fc_preflight.Text.{Bytes, equal}

abbrev pub Dict : Type 0
Dict = List (Bytes × Bytes)

-- m[k] and whether it is there
unfoldable pub lookup : Bytes → Dict → Option Bytes
lookup key [] = none
lookup key (entry ∷ entries) =
    let later = lookup key entries in if equal entry.0 key then some entry.1 else later

-- m[k], which is empty for a missing key
unfoldable pub get : Dict → Bytes → Bytes
unfolding lookup
get m k = elim (lookup k m) [ none ↦ [] | some v ↦ v ]

-- m[k] = v
unfoldable pub insert : Bytes → Bytes → Dict → Dict
insert key value [] = (key, value) ∷ []
insert key value (entry ∷ entries) =
    let later = entry ∷ insert key value entries in
    if equal entry.0 key then (entry.0, value) ∷ entries else later

-- Membership in a set of texts.
unfoldable pub member : Bytes → List Bytes → Bool
member k [] = false
member k (j ∷ js) = equal j k || member k js

unfoldable pub add_member : Bytes → List Bytes → List Bytes
unfolding member
add_member k js = if member k js then js else k ∷ js

unfoldable pub add_members : List Bytes → List Bytes → List Bytes
unfolding add_member
add_members [] js = js
add_members (k ∷ ks) js = add_members ks (add_member k js)
