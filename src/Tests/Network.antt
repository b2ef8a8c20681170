-- ===== src/Tests/Network.antt =====
-- Ranges of addresses, one of which the standard library reads as IPv6.
use fc_preflight.Prelude.{◌-◌, ◌*◌, ◌^◌, ◌≤◌, none, some, ◌≡◌, ◌↔◌, refl, arith}
use fc_preflight.Prelude.Int.{pos}
use fc_preflight.Text.{Bytes, codes}
use fc_preflight.Text.Number.{itoa, hex2}
use fc_preflight.Host.Machine.{Outcome, ok}
use fc_preflight.GuestNet.{
  Addr4, Cidr, resolved, panicked, network_base, resolve_guest_net, vm_host_ip, vm_guest_ip, vm_mac,
  ip_string, vm_base, subnets,
}
use fc_preflight.BootArgs.{boot_args, echo_port, guest_netmask}
use fc_preflight.Guest.Cmdline.{initial_settings, parse_guest_cmdline}
use fc_preflight.Guest.Cmdline.RoundTrip.{parse_guest_cmdline-boot_args}
use fc_preflight.GuestNet.Ranges.{
  IsApart, IsMasked, resolve_guest_net-IsApart, resolve_guest_net_iff,
}

abbrev private_base : Addr4
private_base = record { a = 172; b = 31; c = 240; d = 0 }

-- 172.31.240.0/22
abbrev private_net : Cidr
private_net = record { ip_v4 = some private_base; net_v4 = some private_base; ones = 22; bits = 32 }

abbrev pub parse_private : Bytes → Outcome Cidr
parse_private s = ok private_net

abbrev pub default_range : Bytes
default_range = codes "172.31.240.0/22"

parse_private_masks :
    (s : Bytes) (net : Cidr) (base : Addr4)
    → parse_private s ≡ ok net
    → net.net_v4 ≡ some base
    → IsMasked net base
unfolding network_base
parse_private_masks s net base p q = grind (arith, p, q)

pub accepts_two : resolve_guest_net parse_private default_range (pos 2) ≡ resolved 2887774208
unfolding resolve_guest_net subnets network_base
accepts_two = refl

resolve_guest_net-IsApart_example :
    (net : Cidr) × (parse_private default_range ≡ ok net)
    × IsApart 2887774208 (net.bits - net.ones) 1
resolve_guest_net-IsApart_example =
    resolve_guest_net-IsApart parse_private parse_private_masks default_range (pos 2) 2887774208 1
      accepts_two refl

resolve_guest_net_iff_example :
    (resolve_guest_net parse_private default_range (pos 256) ≡ resolved (network_base private_base))
    ↔ (4 * 256 ≤ 2 ^ (32 - 22))
resolve_guest_net_iff_example =
    resolve_guest_net_iff parse_private default_range private_net private_base private_base 256 refl
      refl refl (omega arith)

-- ::ffff:172.31.240.0/80: To4 of the address is not nil, that of the masked network is.
mapped_panics :
    resolve_guest_net
      (λ s. ok (record { ip_v4 = some private_base; net_v4 = none; ones = 80; bits = 128 }))
      (codes "::ffff:172.31.240.0/80")
      (pos 1)
    ≡ panicked
unfolding resolve_guest_net subnets
mapped_panics = refl

host_ip : vm_host_ip 2887774208 1 ≡ codes "172.31.240.5"
unfolding vm_host_ip ip_string vm_base itoa
host_ip = refl

mac : vm_mac 2887774208 1 ≡ codes "06:00:AC:1F:F0:06"
unfolding vm_mac hex2
mac = refl

abbrev default_boot_args : Bytes
default_boot_args = codes "console=ttyS0 reboot=k panic=1 pci=off"

parse_guest_cmdline-boot_args_example :
    parse_guest_cmdline (boot_args default_boot_args 2887774208 1) initial_settings
    ≡ record (parse_guest_cmdline default_boot_args initial_settings) {
      guest_ip = vm_guest_ip 2887774208 1;
      guest_mask = guest_netmask;
      host_ip = vm_host_ip 2887774208 1;
      guest_port = pos echo_port;
      guest_disk = codes "/dev/vda";
    }
parse_guest_cmdline-boot_args_example =
    parse_guest_cmdline-boot_args default_boot_args 2887774208 1 initial_settings
