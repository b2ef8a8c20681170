-- ===== src/Host/Machine.antt =====
-- What the checks ask of the machine that they run on: files, devices, system calls, programs.
-- The answers are the machine's, so they are the fields of a record that the checks take.
use fc_preflight.Prelude.{ℕ, Bool, true, false, Option, List, ◌⊎◌, inl, inr, ◌≡◌, refl}
use fc_preflight.Text.{Bytes, codes, trim_space}

-- runtime.GOARCH
pub data Arch : Type 0 where
  amd64 arm64 : Arch
  other : Bytes → Arch

unfoldable pub arch_name : Arch → Bytes
arch_name amd64 = codes "amd64"
arch_name arm64 = codes "arm64"
arch_name (other name) = name

abbrev pub is_amd64 : Arch → Bool
is_amd64 amd64 = true
is_amd64 _ = false

abbrev pub is_arm64 : Arch → Bool
is_arm64 arm64 = true
is_arm64 _ = false

-- What os.IsNotExist and os.IsPermission tell apart.
pub data ErrorKind : Type 0 where
  not_exist permission other_error : ErrorKind

pub record OsError : Type 0 where
  pub kind : ErrorKind
  pub message : Bytes

abbrev pub is_not_exist : OsError → Bool
is_not_exist e = elim e.kind [ not_exist ↦ true | _ ↦ false ]

abbrev pub is_permission : OsError → Bool
is_permission e = elim e.kind [ permission ↦ true | _ ↦ false ]

-- A pair of a value and an error, of which one is nil.
pub data Outcome {ℓ} (A : Type ℓ) : Type ℓ where
  ok : A → Outcome A
  err : OsError → Outcome A

abbrev pub is_ok {ℓ} : {A : Type ℓ} → Outcome A → Bool
is_ok (ok a) = true
is_ok (err e) = false

pub Outcome-cases {ℓ} :
    {A : Type ℓ} (o : Outcome A) → ((a : A) × (o ≡ ok a)) ⊎ ((e : OsError) × (o ≡ err e))
Outcome-cases (ok a) = inl (a, refl)
Outcome-cases (err e) = inr (e, refl)

-- os.FileInfo, as far as it is read. `owner_gid` is `none` where `Sys()` is no `Stat_t`.
pub record FileInfo : Type 0 where
  pub char_device : Bool
  pub mode : Bytes
  pub perm : Bytes
  pub owner_gid : Option ℕ

-- The output of a program, and its failure.
pub record Output : Type 0 where
  pub out : Bytes
  pub failure : Option OsError

-- `gunzip` is compress/gzip: `none` where no reader can be made, otherwise the text that it reads
-- and whether reading ended in an error. `sys_call` takes a number and the first argument, and
-- returns the result and the errno, 0 for none.
pub record Machine : Type 0 where
  pub arch : Arch
  pub euid : ℕ
  pub num_cpu : ℕ
  pub read_file : Bytes → Outcome Bytes
  pub stat : Bytes → Outcome FileInfo
  pub open_rw : Bytes → Outcome ℕ
  pub ioctl : ℕ → ℕ → ℕ → Outcome ℕ
  pub sys_call : ℕ → ℕ → ℕ × ℕ
  pub errno_text : ℕ → Bytes
  pub look_path : Bytes → Outcome Bytes
  pub run : Bytes → List Bytes → Output
  pub groups : Outcome (List ℕ)
  pub statfs_type : Bytes → Outcome ℕ
  pub nofile_limit : Outcome (ℕ × ℕ)
  pub gunzip : Bytes → Option (Bytes × Option OsError)

-- readFileTrim
unfoldable pub read_file_trim : Machine → Bytes → Outcome Bytes
read_file_trim m path = elim (m.read_file path) [ ok b ↦ ok (trim_space b) | err e ↦ err e ]

-- readFileDefault
unfoldable pub read_file_default : Machine → Bytes → Bytes → Bytes
unfolding read_file_trim
read_file_default m path default = elim (read_file_trim m path) [ ok s ↦ s | err e ↦ default ]
