-- ===== src/Initramfs/RoundTrip.antt =====
-- Reading an archive gives the entries that were written.
use fc_preflight.Prelude.{
  ℕ, zero, suc, ◌+◌, ◌-◌, ◌%◌, ◌^◌, ◌<◌, ◌≡◌, refl, ◌∙◌, true, false, some, List, [], ◌∷◌, ◌++◌,
  arith, append_assoc, append-nil, length, length-append, replicate, length-replicate, All,
}
use fc_preflight.Text.{Bytes, codes, equal}
use fc_preflight.Text.Number.{hex8}
use fc_preflight.Text.Number.Hex.{read_hex-hex8}
use fc_preflight.Initramfs.{
  CpioEntry, CpioWriter, write, hex_fields, header_fields, next_ino, add, add_all, finish,
  empty_writer, initramfs_entries, directory, build_initramfs, trailer_rounds, trailer_field,
  trailer_name,
}
use fc_preflight.Initramfs.Layout.{
  Fits, entry_bytes, header_fields_fit, add-buf, add_aligned, ino-add, pad_after,
}
use fc_preflight.Initramfs.Reader.{split_at, read_fields, padding, read_entry, read_archive}

split_at-append : (n : ℕ) (a b : Bytes) → length a ≡ n → split_at n (a ++ b) ≡ some (a, b)
unfolding split_at
split_at-append zero [] b h = refl
split_at-append zero (c ∷ a) b h = absurd (omega arith)
split_at-append (suc n) [] b h = absurd (omega arith)
split_at-append (suc n) (c ∷ a) b h = rw (split_at-append n a b (omega arith)) refl

read_fields-hex_fields :
    (ns : List ℕ) (rest : Bytes)
    → All (λ n. n < 2 ^ 32) ns
    → read_fields (length ns) (hex_fields ns ++ rest) ≡ some (ns, rest)
unfolding read_fields hex_fields
read_fields-hex_fields [] rest h = refl
read_fields-hex_fields (n ∷ ns) rest h =
    rw
      (
        append_assoc (hex8 n) (hex_fields ns) rest,
        read_hex-hex8 n (hex_fields ns ++ rest) h.0,
        read_fields-hex_fields ns rest h.1,
      )
      refl

module _ (ino : ℕ) (e : CpioEntry) (rest : Bytes) where
  after_content : Bytes
  after_content = replicate (padding (length e.content)) 0 ++ rest

  after_name : Bytes
  after_name =
      0 ∷ (replicate (padding (110 + (length e.name + 1))) 0 ++ (e.content ++ after_content))

  read_magic :
      split_at 6 (codes "070701" ++ (hex_fields (header_fields ino e) ++ (e.name ++ after_name)))
      ≡ some (codes "070701", hex_fields (header_fields ino e) ++ (e.name ++ after_name))
  read_magic = split_at-append 6 (codes "070701") _ (unfold codes in refl)

  read_name : split_at (length e.name + 1 - 1) (e.name ++ after_name) ≡ some (e.name, after_name)
  read_name = split_at-append _ e.name after_name (omega arith)

  read_gap :
      split_at (1 + padding (110 + (length e.name + 1))) after_name
      ≡ some (0 ∷ replicate (padding (110 + (length e.name + 1))) 0, e.content ++ after_content)
  unfolding after_name
  read_gap =
      split_at-append _ (0 ∷ replicate (padding (110 + (length e.name + 1))) 0) _
        (omega (arith, length-replicate {0} {A = ℕ} (padding (110 + (length e.name + 1))) 0))

  read_content :
      split_at (length e.content) (e.content ++ after_content) ≡ some (e.content, after_content)
  read_content = split_at-append _ e.content after_content refl

  read_tail :
      split_at (padding (length e.content)) after_content
      ≡ some (replicate (padding (length e.content)) 0, rest)
  unfolding after_content
  read_tail = split_at-append _ _ rest (length-replicate _ 0)

  regroup :
      entry_bytes ino e ++ rest
      ≡ codes "070701" ++ (hex_fields (header_fields ino e) ++ (e.name ++ after_name))
  unfolding after_name after_content
  regroup = simp append_assoc

  -- The bytes of an entry are read as that entry.
  read_entry-entry_bytes :
      ino < 2 ^ 32 → Fits e → read_entry (entry_bytes ino e ++ rest) ≡ some (e, rest)
  unfolding read_entry
  read_entry-entry_bytes h f =
      rw (regroup, read_magic)
        (rw
          (
            magic_reads,
            read_fields-hex_fields (header_fields ino e) (e.name ++ after_name)
                (header_fields_fit ino e h f),
          )
          (rw read_name (rw read_gap (rw read_content (rw read_tail refl)))))
    where
      magic_reads : equal (codes "070701") (codes "070701") ≡ true
      magic_reads = unfold codes equal in refl

-- The trailer is an entry with no content.
abbrev trailer : CpioEntry
trailer = record {
  name = codes "TRAILER!!!";
  mode = 0;
  content = [];
  rdev_major = 0;
  rdev_minor = 0;
}

trailer-Fits : Fits trailer
unfolding codes
trailer-Fits = omega arith

-- The loop of `finish` writes the fields of such a header.
trailer_header :
    (w : CpioWriter)
    → (trailer_rounds 13 0 (write (codes "070701") w)).buf
      ≡ (w.buf ++ codes "070701") ++ hex_fields (header_fields 0 trailer)
unfolding trailer_rounds write trailer_field trailer_name hex_fields codes hex8
trailer_header w = simp append_assoc

abbrev trailed : CpioWriter → CpioWriter
trailed w = write (0 ∷ []) (write trailer_name (trailer_rounds 13 0 (write (codes "070701") w)))

trailed-buf :
    (w : CpioWriter)
    → (trailed w).buf
      ≡ (((w.buf ++ codes "070701") ++ hex_fields (header_fields 0 trailer)) ++ codes "TRAILER!!!")
        ++ 0 ∷ []
unfolding write trailer_name
trailed-buf w = rw (← trailer_header w) (unfold write in refl)

length-trailed : (w : CpioWriter) → length w.buf % 4 ≡ 0 → length (trailed w).buf % 4 ≡ 121 % 4
length-trailed w h =
    rw (trailed-buf w, length-append, length-append, length-append, length-append)
      (unfold codes hex_fields hex8 in omega arith)

-- `finish` appends the trailer.
finish-buf : (w : CpioWriter) → length w.buf % 4 ≡ 0 → finish w ≡ w.buf ++ entry_bytes 0 trailer
unfolding finish
finish-buf w h =
    pad_after (trailed w) 121 (length-trailed w h)
    ∙ rw (trailed-buf w) (simp append_assoc (unfold codes in refl))

-- The bytes of an archive behind the inode number that was given last.
abbrev archive_bytes : ℕ → List CpioEntry → Bytes
archive_bytes ino [] = entry_bytes 0 trailer
archive_bytes ino (e ∷ es) = entry_bytes (next_ino ino) e ++ archive_bytes (next_ino ino) es

archive-buf :
    (es : List CpioEntry) (w : CpioWriter)
    → length w.buf % 4 ≡ 0
    → All Fits es
    → finish (add_all w es) ≡ w.buf ++ archive_bytes w.ino es
unfolding add_all
archive-buf [] w h fits = finish-buf w h
archive-buf (e ∷ es) w h fits =
    archive-buf es (add w e) (add_aligned w e) fits.1
    ∙ rw (add-buf w e h fits.0, ino-add w e) (append_assoc w.buf _ _)

-- An entry that a reader does not take for the end.
abbrev pub IsNamed : CpioEntry → Type 0
IsNamed e = equal e.name (codes "TRAILER!!!") ≡ false

read_archive_bytes :
    (es : List CpioEntry) (ino : ℕ)
    → All Fits es
    → All IsNamed es
    → read_archive (suc (length es)) (archive_bytes ino es) ≡ some es
unfolding read_archive
read_archive_bytes [] ino fits named = rw (← append-nil (entry_bytes 0 trailer)) (
    rw (read_entry-entry_bytes 0 trailer [] (omega arith) trailer-Fits)
      (unfold codes equal in refl))
read_archive_bytes (e ∷ es) ino fits named =
    rw
      (read_entry-entry_bytes (next_ino ino) e (archive_bytes (next_ino ino) es) (omega arith)
        fits.0)
      (rw named.0 (rw (read_archive_bytes es (next_ino ino) fits.1 named.1) refl))

-- An archive of entries whose numbers fit into the header fields, none named like the trailer, is
-- read back as those entries, in order: names, modes, device numbers, and the content of each byte
-- for byte. The reader's fuel is one more than the entries.
pub read_archive-finish :
    (es : List CpioEntry)
    → All Fits es
    → All IsNamed es
    → read_archive (suc (length es)) (finish (add_all empty_writer es)) ≡ some es
read_archive-finish es fits named =
    rw (archive-buf es empty_writer refl fits) (read_archive_bytes es 0 fits named)

initramfs_entries-Fits :
    (init_binary : Bytes) → length init_binary < 2 ^ 32 → All Fits (initramfs_entries init_binary)
unfolding initramfs_entries directory codes
initramfs_entries-Fits init_binary h = omega arith

initramfs_entries-IsNamed : (init_binary : Bytes) → All IsNamed (initramfs_entries init_binary)
unfolding initramfs_entries directory codes equal
initramfs_entries-IsNamed init_binary = (refl, (refl, (refl, (refl, (refl, (refl, tt))))))

abbrev node : Bytes → ℕ → Bytes → ℕ → ℕ → CpioEntry
node name mode content major minor = record {
  name = name;
  mode = mode;
  content = content;
  rdev_major = major;
  rdev_minor = minor;
}

-- What the guest's root has to hold: four directories with permissions 0755, the character device
-- 5:1 with 0600, and the regular file init with 0755.
abbrev pub guest_root : Bytes → List CpioEntry
guest_root init_binary =
    node (codes "dev") 0o40755 [] 0 0
    ∷ node (codes "proc") 0o40755 [] 0 0
    ∷ node (codes "sys") 0o40755 [] 0 0
    ∷ node (codes "tmp") 0o40755 [] 0 0
    ∷ node (codes "dev/console") 0o20600 [] 5 1
    ∷ node (codes "init") 0o100755 init_binary 0 0
    ∷ []

entries_are : (init_binary : Bytes) → initramfs_entries init_binary ≡ guest_root init_binary
unfolding initramfs_entries directory
entries_are init_binary = refl

-- The initramfs of a binary of less than 4 GiB unpacks to the directories dev, proc, sys and tmp,
-- then the console device 5:1, then the binary as the executable file init, unchanged.
pub read_archive-build_initramfs :
    (init_binary : Bytes)
    → length init_binary < 2 ^ 32
    → read_archive 7 (build_initramfs init_binary) ≡ some (guest_root init_binary)
unfolding build_initramfs initramfs_entries directory
read_archive-build_initramfs init_binary h =
    read_archive-finish (initramfs_entries init_binary) (initramfs_entries-Fits init_binary h)
      (initramfs_entries-IsNamed init_binary)
