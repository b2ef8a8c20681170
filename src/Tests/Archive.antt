-- ===== src/Tests/Archive.antt =====
-- Archives of a few bytes.
use fc_preflight.Prelude.{◌≡◌, refl, ◌%◌, some, [], ◌∷◌, length, suc, All, arith}
use fc_preflight.Text.{codes, equal}
use fc_preflight.Initramfs.{CpioEntry, build_initramfs, finish, add_all, empty_writer}
use fc_preflight.Initramfs.Layout.{build_initramfs_aligned}
use fc_preflight.Initramfs.Reader.{read_archive}
use fc_preflight.Initramfs.RoundTrip.{
  guest_root, IsNamed, read_archive-build_initramfs, read_archive-finish,
}
use Prim.Native.Nat.{ℕ}
use mathlib.Core.List.{List}

abbrev payload : List ℕ
payload = 127 ∷ 69 ∷ 76 ∷ 70 ∷ 2 ∷ []

read_archive-build_initramfs_example :
    read_archive 7 (build_initramfs payload) ≡ some (guest_root payload)
read_archive-build_initramfs_example = read_archive-build_initramfs payload (omega arith)

abbrev one_file : List CpioEntry
one_file =
    (record { name = 97 ∷ []; mode = 0o100644; content = payload; rdev_major = 0; rdev_minor = 0 })
    ∷ []

one_file-IsNamed : All IsNamed one_file
unfolding equal codes
one_file-IsNamed = (refl, tt)

read_archive-finish_example :
    read_archive (suc (length one_file)) (finish (add_all empty_writer one_file)) ≡ some one_file
read_archive-finish_example = read_archive-finish one_file (omega arith) one_file-IsNamed

build_initramfs_aligned_example : length (build_initramfs payload) % 4 ≡ 0
build_initramfs_aligned_example = build_initramfs_aligned payload
