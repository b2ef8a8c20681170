-- ===== src/Tests/Machines.antt =====
-- Machines that the tests run on.
use fc_preflight.Prelude.{ℕ, ◌+◌, true, none, some, [], ◌==◌, if◌then◌else◌}
use fc_preflight.Text.{codes}
use fc_preflight.Host.Machine.{
  amd64, OsError, not_exist, permission, Outcome, ok, err, FileInfo, Machine,
}

abbrev pub missing_file : OsError
missing_file = record { kind = not_exist; message = codes "no such file or directory" }

abbrev pub refused : OsError
refused = record { kind = permission; message = codes "permission denied" }

abbrev char_node : FileInfo
char_node = record { char_device = true; mode = []; perm = codes "rw-rw----"; owner_gid = some 108 }

-- KVM answers every request: version 12, and 1 or a new descriptor otherwise.
abbrev working_ioctl : ℕ → ℕ → ℕ → Outcome ℕ
working_ioctl fd request arg = ok (if request == 0xAE00 then 12 else fd + 1)

abbrev pub bare : Machine
bare = record {
  arch = amd64;
  euid = 0;
  num_cpu = 4;
  read_file = λ path. err missing_file;
  stat = λ path. ok char_node;
  open_rw = λ path. ok 3;
  ioctl = working_ioctl;
  sys_call = λ nr arg. (5, 0);
  errno_text = λ e. codes "errno";
  look_path = λ name. err missing_file;
  run = λ path args. record { out = []; failure = some missing_file };
  groups = ok [];
  statfs_type = λ path. ok 0x63677270;
  nofile_limit = ok (1024, 4096);
  gunzip = λ b. none;
}

-- The same machine for a user who may not open the device.
abbrev pub unprivileged : Machine
unprivileged = record bare { euid = 1000; open_rw = λ path. err refused }
