-- ===== src/Guest/Cmdline.antt =====
-- guest_linux.go: the settings of the guest, read from the kernel command line.
pub mod RoundTrip
use fc_preflight.Prelude.{ℕ, Bool, true, false, Option, none, some, List, [], ◌∷◌, if◌then◌else◌}
use fc_preflight.Prelude.Int.{ℤ, pos}
use fc_preflight.Text.{Bytes, codes, equal, cut}
use fc_preflight.Text.Fields.{fields}
use fc_preflight.Text.Number.{atoi}
use fc_preflight.BootArgs.{echo_port}

-- The variables guestIface to guestDisk.
pub record Settings : Type 0 where
  pub guest_iface : Bytes
  pub guest_ip : Bytes
  pub guest_mask : Bytes
  pub host_ip : Bytes
  pub guest_port : ℤ
  pub guest_disk : Bytes

abbrev pub initial_settings : Settings
initial_settings = record {
  guest_iface = codes "eth0";
  guest_ip = [];
  guest_mask = codes "255.255.255.252";
  host_ip = [];
  guest_port = pos echo_port;
  guest_disk = [];
}

-- The port stays where the value is no number.
abbrev set_port : Option ℤ → Settings → Settings
set_port none st = st
set_port (some n) st = record st { guest_port = n }

-- The switch on the key.
unfoldable pub set_parameter : Bytes → Bytes → Settings → Settings
unfolding codes equal
set_parameter k v st =
    if equal k (codes "fcpf.ip")
    then record st { guest_ip = v }
    else if equal k (codes "fcpf.mask")
    then record st { guest_mask = v }
    else if equal k (codes "fcpf.host")
    then record st { host_ip = v }
    else if equal k (codes "fcpf.iface")
    then record st { guest_iface = v }
    else if equal k (codes "fcpf.disk")
    then record st { guest_disk = v }
    else if equal k (codes "fcpf.port")
    then set_port (atoi v) st
    else st

-- The body of the loop.
unfoldable pub apply_field : Bytes → Settings → Settings
unfolding cut
apply_field field st = elim (cut field b'=') [ none ↦ st | some (k, v) ↦ set_parameter k v st ]

pub apply_fields : List Bytes → Settings → Settings
apply_fields [] st = st
apply_fields (field ∷ rest) st = apply_fields rest (apply_field field st)

-- parseGuestCmdline
unfoldable pub parse_guest_cmdline : Bytes → Settings → Settings
unfolding apply_fields
parse_guest_cmdline cmdline st = apply_fields (fields cmdline) st
