-- ===== src/Guest/Survey/Drivers.antt =====
-- guest_linux.go: the driver of a virtio device, by its link.
use fc_preflight.Prelude.{
  inl, inr, Bool-cases, ℕ, Bool, true, false, List, [], ◌∷◌, ◌++◌, ◌≡◌, refl, ap, ◌∙◌, arith, any,
  ◌==◌,
}
use fc_preflight.Text.{Bytes, trim_right, keep_unless, split, cons_to_first}
use fc_preflight.Host.Machine.{ok}
use fc_preflight.Guest.Survey.{last_part, driver_of}

-- A slash.
abbrev pub is_slash : ℕ → Bool
is_slash c = c == b'/'

-- A byte in front of others is kept.
kept : (b : Bool) (c x : ℕ) (rest xs : Bytes) → rest ≡ x ∷ xs → keep_unless b c rest ≡ c ∷ x ∷ xs
kept b c x rest xs h = rw h refl

last_kept : (b : Bool) (c : ℕ) → b ≡ false → keep_unless b c [] ≡ c ∷ []
last_kept b c h = rw h refl

trim_name :
    (c : ℕ) (name : Bytes)
    → any is_slash (c ∷ name) ≡ false
    → trim_right is_slash (c ∷ name) ≡ c ∷ name
unfolding trim_right
trim_name c [] h = last_kept (is_slash c) c (ground (arith, h))
trim_name c (d ∷ name) h =
    kept (is_slash c) c d (trim_right is_slash (d ∷ name)) name
      (trim_name d name (ground (arith, h)))

trim_path :
    (path : Bytes) (c : ℕ) (name : Bytes)
    → any is_slash (c ∷ name) ≡ false
    → trim_right is_slash (path ++ b'/' ∷ c ∷ name) ≡ path ++ b'/' ∷ c ∷ name
unfolding trim_right
trim_path [] c name h = kept true b'/' c (trim_right is_slash (c ∷ name)) name (trim_name c name h)
trim_path (d ∷ []) c name h =
    kept (is_slash d) d b'/' (trim_right is_slash (b'/' ∷ c ∷ name)) (c ∷ name)
      (trim_path [] c name h)
trim_path (d ∷ e ∷ path) c name h =
    kept (is_slash d) d e (trim_right is_slash (e ∷ path ++ b'/' ∷ c ∷ name))
      (path ++ b'/' ∷ c ∷ name) (trim_path (e ∷ path) c name h)

-- A name is its own only part.
split_name : (name : Bytes) → any is_slash name ≡ false → split name b'/' ≡ name ∷ []
unfolding split
split_name [] h = refl
split_name (c ∷ name) h =
    let plain : is_slash c ≡ false = ground (arith, h) in
    rw (plain, split) (ap (cons_to_first c) (split_name name (ground (arith, h))))

-- The parts of a path with a name behind it: one part, and others that end in the name.
split_path :
    (path name : Bytes)
    → any is_slash name ≡ false
    → (p : Bytes) × (q : Bytes) × (qs : List Bytes) × (split (path ++ b'/' ∷ name) b'/'
        ≡ p ∷ q ∷ qs)
      × (last_part (q ∷ qs) ≡ name)
unfolding split last_part
split_path [] name h = ([], name, [], ap (λ (ps : List Bytes). [] ∷ ps) (split_name name h), refl)
split_path (d ∷ path) name h =
    let (p, q, qs, e, l) = split_path path name h in
    elim (Bool-cases (is_slash d)) [
      | inl t ↦ ([], p, q ∷ qs, rw (t, split) (ap (λ (ps : List Bytes). [] ∷ ps) e), l)
      | inr t ↦ (d ∷ p, q, qs, rw (t, split) (ap (cons_to_first d) e), l)
    ]

-- If the link of a device ends in a slash and a name that is not empty and has no slash, then the
-- driver that the guest reports for the device is that name.
pub driver_of-link :
    (path : Bytes) (c : ℕ) (name : Bytes)
    → any is_slash (c ∷ name) ≡ false
    → driver_of (ok (path ++ b'/' ∷ c ∷ name)) ≡ c ∷ name
unfolding driver_of last_part
driver_of-link path c name h =
    let (p, q, qs, e, l) = split_path path (c ∷ name) h in
    ap (λ (s : Bytes). last_part (split s b'/')) (trim_path path c name h) ∙ ap last_part e ∙ l
