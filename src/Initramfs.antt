-- ===== src/Initramfs.antt =====
-- initramfs.go: the writer of the cpio archive that the guest starts from.
pub mod Layout
pub mod Reader
pub mod RoundTrip
use Prim.Native.Nat.{bit_or}
use fc_preflight.Prelude.{
  ℕ, zero, suc, ◌+◌, ◌%◌, ◌^◌, List, [], ◌∷◌, ◌++◌, ◌==◌, if◌then◌else◌, length,
}
use fc_preflight.Text.{Bytes, codes}
use fc_preflight.Text.Number.{hex8}

abbrev pub mode_file : ℕ
mode_file = 0o100000

abbrev pub mode_dir : ℕ
mode_dir = 0o040000

abbrev pub mode_char : ℕ
mode_char = 0o020000

-- cpioEntry; `content` is its `data`
pub record CpioEntry : Type 0 where
  pub name : Bytes
  pub mode : ℕ
  pub content : Bytes
  pub rdev_major : ℕ
  pub rdev_minor : ℕ

-- cpioWriter
pub record CpioWriter : Type 0 where
  pub buf : Bytes
  pub ino : ℕ

-- The loop of `pad`, on fuel: it makes at most three rounds.
pad_rounds : ℕ → Bytes → Bytes
pad_rounds zero buf = buf
pad_rounds (suc f) buf =
    let more = pad_rounds f (buf ++ 0 ∷ []) in if length buf % 4 == 0 then buf else more

pub pad : CpioWriter → CpioWriter
pad w = record w { buf = pad_rounds 4 w.buf }

-- What `Fprintf` writes for a run of `%08X`.
pub hex_fields : List ℕ → Bytes
hex_fields [] = []
hex_fields (n ∷ ns) = hex8 n ++ hex_fields ns

write : Bytes → CpioWriter → CpioWriter
write s w = record w { buf = w.buf ++ s }

-- The numbers of a header, in order. `uint32` values stay below 2 ^ 32; `len` is an int.
abbrev pub header_fields : ℕ → CpioEntry → List ℕ
header_fields ino e =
    ino
    ∷ e.mode
    ∷ 0
    ∷ 0
    ∷ 1
    ∷ 0
    ∷ length e.content
    ∷ 0
    ∷ 0
    ∷ e.rdev_major
    ∷ e.rdev_minor
    ∷ (length e.name + 1)
    ∷ 0
    ∷ []

abbrev pub next_ino : ℕ → ℕ
next_ino ino = (ino + 1) % 2 ^ 32

-- add
pub add : CpioWriter → CpioEntry → CpioWriter
add w e =
    let ino = next_ino w.ino in
    let headed =
      write (codes "070701" ++ hex_fields (header_fields ino e)) (record w { ino = ino }) in
    let named = pad (write (0 ∷ []) (write e.name headed)) in pad (write e.content named)

trailer_name : Bytes
trailer_name = codes "TRAILER!!!"

-- What round i of the loop in `finish` writes.
trailer_field : ℕ → Bytes
trailer_field i =
    if i == 11 then hex8 (length trailer_name + 1) else if i == 4 then hex8 1 else codes "00000000"

-- The rounds left, and the loop's variable.
trailer_rounds : ℕ → ℕ → CpioWriter → CpioWriter
trailer_rounds zero i w = w
trailer_rounds (suc k) i w = trailer_rounds k (i + 1) (write (trailer_field i) w)

-- finish
pub finish : CpioWriter → Bytes
finish w =
    let fields = trailer_rounds 13 0 (write (codes "070701") w) in
    (pad (write (0 ∷ []) (write trailer_name fields))).buf

pub add_all : CpioWriter → List CpioEntry → CpioWriter
add_all w [] = w
add_all w (e ∷ es) = add_all (add w e) es

abbrev pub empty_writer : CpioWriter
empty_writer = record { buf = []; ino = 0 }

directory : Bytes → CpioEntry
directory name = record {
  name = name;
  mode = bit_or mode_dir 0o755;
  content = [];
  rdev_major = 0;
  rdev_minor = 0;
}

-- The entries that `buildInitramfs` adds, in order.
pub initramfs_entries : Bytes → List CpioEntry
initramfs_entries init_binary =
    directory (codes "dev")
    ∷ directory (codes "proc")
    ∷ directory (codes "sys")
    ∷ directory (codes "tmp")
    ∷ (record {
      name = codes "dev/console";
      mode = bit_or mode_char 0o600;
      content = [];
      rdev_major = 5;
      rdev_minor = 1;
    })
    ∷ (record {
      name = codes "init";
      mode = bit_or mode_file 0o755;
      content = init_binary;
      rdev_major = 0;
      rdev_minor = 0;
    })
    ∷ []

-- buildInitramfs
pub build_initramfs : Bytes → Bytes
build_initramfs init_binary = finish (add_all empty_writer (initramfs_entries init_binary))
