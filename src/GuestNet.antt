-- ===== src/GuestNet.antt =====
-- boot_linux.go: the addresses of the microVMs and the range of -guest-net.
pub mod Ranges
use fc_preflight.Prelude.{
  ℕ, ◌+◌, ◌-◌, ◌*◌, ◌/◌, ◌%◌, ◌^◌, Bool, true, false, Option, none, some, List, [], ◌∷◌, ◌++◌, ltb,
  ◌==◌, if◌then◌else◌,
}
use fc_preflight.Prelude.Int.{ℤ, pos, negsuc, ltb_ℤ}
use fc_preflight.Text.{Bytes, codes}
use fc_preflight.Text.Quote.{quote}
use fc_preflight.Text.Number.{itoa, itoa_ℤ, hex2}
use fc_preflight.Host.Machine.{Outcome, ok, err}

-- The four bytes of an IPv4 address.
pub record Addr4 : Type 0 where
  pub a : ℕ
  pub b : ℕ
  pub c : ℕ
  pub d : ℕ

-- What net.ParseCIDR returns: `ip_v4` and `net_v4` are To4 of the address and of the network's
-- address, `none` for nil; `ones` and `bits` are the size of the mask.
pub record Cidr : Type 0 where
  pub ip_v4 : Option Addr4
  pub net_v4 : Option Addr4
  pub ones : ℕ
  pub bits : ℕ

-- byte(v>>24) and its neighbours
abbrev pub octet : ℕ → ℕ → ℕ
octet v k = v / 2 ^ k % 256

-- ipString
unfoldable pub ip_string : ℕ → Bytes
unfolding codes
ip_string v =
    itoa (octet v 24)
    ++ codes "."
    ++ itoa (octet v 16)
    ++ codes "."
    ++ itoa (octet v 8)
    ++ codes "."
    ++ itoa (octet v 0)

-- vmBase, for the base of the range
unfoldable pub vm_base : ℕ → ℕ → ℕ
vm_base base i = (base + i % 2 ^ 32 * 4 % 2 ^ 32) % 2 ^ 32

-- vmHostIP
unfoldable pub vm_host_ip : ℕ → ℕ → Bytes
vm_host_ip base i = ip_string ((vm_base base i + 1) % 2 ^ 32)

-- vmGuestIP
unfoldable pub vm_guest_ip : ℕ → ℕ → Bytes
vm_guest_ip base i = ip_string ((vm_base base i + 2) % 2 ^ 32)

-- vmTap
unfoldable pub vm_tap : ℕ → Bytes
unfolding codes
vm_tap i = codes "fcpf" ++ itoa i

-- vmMAC
unfoldable pub vm_mac : ℕ → ℕ → Bytes
unfolding codes vm_base
vm_mac base i =
    let b = (vm_base base i + 2) % 2 ^ 32 in
    codes "06:00:"
    ++ hex2 (octet b 24)
    ++ codes ":"
    ++ hex2 (octet b 16)
    ++ codes ":"
    ++ hex2 (octet b 8)
    ++ codes ":"
    ++ hex2 (octet b 0)

-- How resolveGuestNet ends: guestNetBase is set, an error is returned, or base[0] panics on nil.
pub data Resolved : Type 0 where
  resolved : ℕ → Resolved
  rejected : Bytes → Resolved
  panicked : Resolved

-- 1 << n on a signed 64-bit int, divided by 4
unfoldable pub subnets : ℕ → ℤ
subnets n = if ltb n 63 then pos (2 ^ n / 4) else if n == 63 then negsuc (2 ^ 61 - 1) else pos 0

-- The base of the network as a uint32.
unfoldable pub network_base : Addr4 → ℕ
network_base x = x.a * 2 ^ 24 + x.b * 2 ^ 16 + x.c * 2 ^ 8 + x.d

module _ (parse_cidr : Bytes → Outcome Cidr) where
  -- resolveGuestNet
  unfoldable pub resolve_guest_net : Bytes → ℤ → Resolved
  unfolding codes
  resolve_guest_net cidr vms = elim (parse_cidr cidr) [
    | err e ↦ rejected (codes "-guest-net " ++ quote cidr ++ codes ": " ++ e.message)
    | ok net ↦ elim net.ip_v4 [
      | none ↦ rejected (codes "-guest-net " ++ quote cidr ++ codes ": must be IPv4")
      | some v4 ↦
          let avail = subnets (net.bits - net.ones) in
          if ltb_ℤ avail vms
          then rejected (
              codes "-guest-net "
              ++ cidr
              ++ codes " holds "
              ++ itoa_ℤ avail
              ++ codes " /30s but -vms is "
              ++ itoa_ℤ vms)
          else elim net.net_v4 [ none ↦ panicked | some base ↦ resolved (network_base base) ]
    ]
  ]
