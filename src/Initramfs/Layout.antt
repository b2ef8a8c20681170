-- ===== src/Initramfs/Layout.antt =====
-- Where the writer puts the bytes of an entry.
use fc_preflight.Prelude.{
  ℕ, zero, suc, ◌+◌, ◌-◌, ◌*◌, ◌%◌, ◌^◌, ◌<◌, ◌≡◌, refl, ◌∙◌, ap, List, [], ◌∷◌, ◌++◌, arith,
  append_assoc, append-nil, length, length-append, replicate, length-replicate, All,
}
use fc_preflight.Text.{Bytes, codes}
use fc_preflight.Text.Number.Hex.{length-hex8}
use fc_preflight.Initramfs.{
  CpioEntry, CpioWriter, pad_rounds, pad, write, hex_fields, header_fields, next_ino, add, finish,
  build_initramfs,
}
use fc_preflight.Initramfs.Reader.{padding}

padding-suc : (n p : ℕ) → suc p ≡ padding n → p ≡ padding (n + 1)
padding-suc n p h = omega arith

padding-zero : (n : ℕ) → 0 ≡ padding n → n % 4 ≡ 0
padding-zero n h = omega arith

pad_rounds-replicate :
    (f p : ℕ) (buf : Bytes)
    → p ≡ padding (length buf)
    → p < f
    → pad_rounds f buf ≡ buf ++ replicate p 0
unfolding pad_rounds
pad_rounds-replicate zero p buf h lt = absurd (omega arith)
pad_rounds-replicate (suc f) zero buf h lt =
    ground (arith, padding-zero (length buf) h, append-nil buf)
pad_rounds-replicate (suc f) (suc p) buf h lt =
    let grown = length-append buf (0 ∷ []) in
    let rest =
      pad_rounds-replicate f p (buf ++ 0 ∷ []) (rw grown (padding-suc (length buf) p h))
        (omega arith) in
    ground (arith, rest, append_assoc buf (0 ∷ []) (replicate p 0), h)

-- `pad` appends as many zeros as are missing to a multiple of four.
pub pad-buf : (w : CpioWriter) → (pad w).buf ≡ w.buf ++ replicate (padding (length w.buf)) 0
unfolding pad
pad-buf w = pad_rounds-replicate 4 _ w.buf refl (omega arith)

pub pad_aligned : (w : CpioWriter) → length (pad w).buf % 4 ≡ 0
pad_aligned w = rw (pad-buf, length-append, length-replicate) (omega arith)

-- The archive is a whole number of four-byte words, whatever the size of the init binary.
pub build_initramfs_aligned : (init_binary : Bytes) → length (build_initramfs init_binary) % 4 ≡ 0
unfolding build_initramfs finish
build_initramfs_aligned init_binary = pad_aligned _

-- A header is eight bytes for each field.
length-hex_fields :
    (ns : List ℕ) → All (λ n. n < 2 ^ 32) ns → length (hex_fields ns) ≡ 8 * length ns
unfolding hex_fields
length-hex_fields [] h = refl
length-hex_fields (n ∷ ns) h =
    rw length-append (omega (arith, length-hex8 n h.0, length-hex_fields ns h.1))

-- The numbers of the entry fit into the fields of a header.
pub record Fits (e : CpioEntry) : Type 0 where
  pub mode : e.mode < 2 ^ 32
  pub size : length e.content < 2 ^ 32
  pub major : e.rdev_major < 2 ^ 32
  pub minor : e.rdev_minor < 2 ^ 32
  pub name_size : length e.name + 1 < 2 ^ 32

-- The bytes of one entry at a multiple of four.
abbrev pub entry_bytes : ℕ → CpioEntry → Bytes
entry_bytes ino e =
    codes "070701"
    ++ (hex_fields (header_fields ino e)
        ++ (e.name
            ++ (0 ∷ replicate (padding (110 + (length e.name + 1))) 0
                ++ (e.content ++ replicate (padding (length e.content)) 0))))

pub header_fields_fit :
    (ino : ℕ) (e : CpioEntry) → ino < 2 ^ 32 → Fits e → All (λ n. n < 2 ^ 32) (header_fields ino e)
header_fields_fit ino e h f = omega arith

pub pad_after :
    (w : CpioWriter) (n : ℕ)
    → length w.buf % 4 ≡ n % 4
    → (pad w).buf ≡ w.buf ++ replicate (padding n) 0
pad_after w n h = pad-buf w ∙ ap (λ (k : ℕ). w.buf ++ replicate ((4 - k) % 4) 0) h

-- The length of magic, header and name with its NUL, behind whole words.
header_length :
    (buf : Bytes) (ino : ℕ) (e : CpioEntry)
    → length buf % 4 ≡ 0
    → ino < 2 ^ 32
    → Fits e
    → length (((buf ++ (codes "070701" ++ hex_fields (header_fields ino e))) ++ e.name) ++ 0 ∷ [])
        % 4
      ≡ (110 + (length e.name + 1)) % 4
unfolding codes
header_length buf ino e h lt f =
    rw (length-append, length-append, length-append, length-append)
      (omega (arith, length-hex_fields (header_fields ino e) (header_fields_fit ino e lt f)))

-- The writer in front of the first padding of `add`.
abbrev headed : CpioWriter → CpioEntry → CpioWriter
headed w e =
    let ino = next_ino w.ino in
    write (0 ∷ []) (
      write e.name
        (write (codes "070701" ++ hex_fields (header_fields ino e)) (record w { ino = ino })))

headed-buf :
    (w : CpioWriter) (e : CpioEntry)
    → length w.buf % 4 ≡ 0
    → Fits e
    → (pad (headed w e)).buf
      ≡ (((w.buf ++ (codes "070701" ++ hex_fields (header_fields (next_ino w.ino) e))) ++ e.name)
          ++ 0 ∷ [])
        ++ replicate (padding (110 + (length e.name + 1))) 0
unfolding write
headed-buf w e h f =
    pad_after (headed w e) (110 + (length e.name + 1))
      (header_length w.buf (next_ino w.ino) e h (omega arith) f)

content_length : (w : CpioWriter) (s : Bytes) → length (write s (pad w)).buf % 4 ≡ length s % 4
unfolding write
content_length w s = rw length-append (omega (arith, pad_aligned w))

-- At a multiple of four `add` appends the bytes of the entry.
pub add-buf :
    (w : CpioWriter) (e : CpioEntry)
    → length w.buf % 4 ≡ 0
    → Fits e
    → (add w e).buf ≡ w.buf ++ entry_bytes (next_ino w.ino) e
unfolding add
add-buf w e h f =
    pad_after (write e.content (pad (headed w e))) (length e.content)
      (content_length (headed w e) e.content)
    ∙ unfold write in rw (headed-buf w e h f) (simp append_assoc)

-- Entries and archive start at multiples of four.
pub add_aligned : (w : CpioWriter) (e : CpioEntry) → length (add w e).buf % 4 ≡ 0
unfolding add
add_aligned w e = pad_aligned _

pub ino-add : (w : CpioWriter) (e : CpioEntry) → (add w e).ino ≡ next_ino w.ino
unfolding add pad write
ino-add w e = refl
