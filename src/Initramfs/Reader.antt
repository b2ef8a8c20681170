-- ===== src/Initramfs/Reader.antt =====
-- A reader of newc archives, written from the format and not from the writer: what a kernel that
-- unpacks the archive sees.
use fc_preflight.Prelude.{
  ℕ, zero, suc, ◌+◌, ◌-◌, ◌%◌, Option, none, some, List, [], ◌∷◌, if◌then◌else◌,
}
use fc_preflight.Text.{Bytes, codes, equal}
use fc_preflight.Text.Number.Hex.{read_hex}
use fc_preflight.Initramfs.{CpioEntry}

infixl 5 ◌>>=◌
abbrev pub ◌>>=◌ {ℓ κ} : {A : Type ℓ} {B : Type κ} → Option A → (A → Option B) → Option B
none >>= f = none
some a >>= f = f a

-- k fields of eight digits
unfoldable pub read_fields : ℕ → Bytes → Option (List ℕ × Bytes)
read_fields zero s = some ([], s)
read_fields (suc k) s = do
  (n, s') ← read_hex 8 0 s
  (ns, s'') ← read_fields k s'
  some (n ∷ ns, s'')

-- The first n bytes and the rest, if there are as many.
unfoldable pub split_at : ℕ → Bytes → Option (Bytes × Bytes)
split_at zero s = some ([], s)
split_at (suc n) [] = none
split_at (suc n) (c ∷ s) = do (a, b) ← split_at n s; some (c ∷ a, b)

-- How far n is from the next multiple of four.
abbrev pub padding : ℕ → ℕ
padding n = (4 - n % 4) % 4

pub record Sizes : Type 0 where
  pub mode : ℕ
  pub file_size : ℕ
  pub rdev_major : ℕ
  pub rdev_minor : ℕ
  pub name_size : ℕ

unfoldable pub sizes_of : List ℕ → Option Sizes
sizes_of
      (ino ∷ mode ∷ uid ∷ gid ∷ nlink ∷ mtime ∷ size ∷ maj ∷ min ∷ rmaj ∷ rmin ∷ nsize ∷ check
        ∷ []) =
    some (record {
      mode = mode;
      file_size = size;
      rdev_major = rmaj;
      rdev_minor = rmin;
      name_size = nsize;
    })
sizes_of _ = none

-- One entry: magic, header, name with its NUL, padding, content, padding.
unfoldable pub read_entry : Bytes → Option (CpioEntry × Bytes)
unfolding sizes_of
read_entry s = do
  (magic, s1) ← split_at 6 s
  (ns, s2) ← if equal magic (codes "070701") then read_fields 13 s1 else none
  h ← sizes_of ns
  (name, s3) ← split_at (h.name_size - 1) s2
  (gap, s4) ← split_at (1 + padding (110 + h.name_size)) s3
  (content, s5) ← split_at h.file_size s4
  (gap', s6) ← split_at (padding h.file_size) s5
  some (
    record {
      name = name;
      mode = h.mode;
      content = content;
      rdev_major = h.rdev_major;
      rdev_minor = h.rdev_minor;
    },
    s6,
  )

-- The entries in front of the trailer, at most as many as the fuel.
unfoldable pub read_archive : ℕ → Bytes → Option (List CpioEntry)
read_archive zero s = none
read_archive (suc f) s = do
  (e, rest) ← read_entry s
  let more = (do es ← read_archive f rest; some (e ∷ es))
  if equal e.name (codes "TRAILER!!!") then some [] else more
