-- ===== src/Guest/Interface.antt =====
-- guest_linux.go: configureGuestNet, the guest's interface set up by ioctl.
pub mod Requests
use fc_preflight.Prelude.{
  ℕ, ◌+◌, ◌-◌, ◌/◌, ◌%◌, ◌^◌, Bool, true, false, Option, none, some, List, [], ◌∷◌, ◌++◌, ◌==◌,
  if◌then◌else◌, length, take, replicate,
}
use fc_preflight.Text.{Bytes, codes}
use fc_preflight.Text.Quote.{quote}
use fc_preflight.Host.Machine.{Outcome, ok, err}

-- The four bytes of an IPv4 address.
pub record Ip4 : Type 0 where
  pub a : ℕ
  pub b : ℕ
  pub c : ℕ
  pub d : ℕ

-- siocSIFADDR to iffRunning
abbrev pub sioc_set_addr : ℕ
sioc_set_addr = 35094

abbrev pub sioc_set_netmask : ℕ
sioc_set_netmask = 35100

abbrev pub sioc_get_flags : ℕ
sioc_get_flags = 35091

abbrev pub sioc_set_flags : ℕ
sioc_set_flags = 35092

-- `copy(r.name[:], iface)` on 16 zero bytes
unfoldable pub ifreq_name : Bytes → Bytes
ifreq_name iface = take 16 iface ++ replicate (16 - length iface) 0

-- A uint16 in memory, on a little-endian machine.
abbrev pub two_bytes : ℕ → Bytes
two_bytes n = n % 256 ∷ n / 256 % 256 ∷ []

-- ifreqAddr, as it lies in memory: AF_INET is 2, and the port is 0.
unfoldable pub ifreq_addr : Bytes → Ip4 → Bytes
unfolding ifreq_name
ifreq_addr iface ip =
    ifreq_name iface
    ++ (two_bytes 2
        ++ (two_bytes 0 ++ (ip.a ∷ ip.b ∷ ip.c ∷ ip.d ∷ replicate 8 0 ++ replicate 8 0)))

-- ifreqFlags
unfoldable pub ifreq_flags : Bytes → ℕ → Bytes
unfolding ifreq_name
ifreq_flags iface flags = ifreq_name iface ++ (two_bytes flags ++ replicate 22 0)

-- `n | 1<<b`
unfoldable pub set_bit : ℕ → ℕ → ℕ
set_bit b n = if n / 2 ^ b % 2 == 0 then n + 2 ^ b else n

-- `flags | iffUp | iffRunning`, of 0x1 and 0x40
unfoldable pub raise_flags : ℕ → ℕ
unfolding set_bit
raise_flags flags = set_bit 6 (set_bit 0 flags)

-- What the guest has asked of the kernel: a request with what it points at, and the socket closed.
pub data Request : Type 0 where
  ioctl : ℕ → ℕ → Bytes → Request
  closes : ℕ → Request

-- The kernel and net.ParseIP: the descriptor of a datagram socket, the four bytes of a text that is
-- an IPv4 address, the answer to a request behind the earlier ones (`some` for an error), and the
-- flags that the request for them brings.
pub record Kernel : Type 0 where
  pub socket : Outcome ℕ
  pub parse_ip4 : Bytes → Option Ip4
  pub answer : List Request → ℕ → Bytes → Option Bytes
  pub flags : List Request → ℕ

-- An error, and the requests that were made, the latest first.
abbrev pub Configured : Type 0
Configured = Option Bytes × List Request

-- On to the next step unless there is an error, which gets its prefix.
unfoldable pub wrap : Bytes → Configured → (List Request → Configured) → Configured
wrap prefix (some e, tr) next = (some (prefix ++ e), tr)
wrap prefix (none, tr) next = next tr

module _ (k : Kernel) (fd : ℕ) where
  abbrev pub do_ioctl : ℕ → Bytes → List Request → Configured
  do_ioctl req arg tr = (k.answer tr req arg, ioctl fd req arg ∷ tr)

  -- The closure set, behind net.ParseIP.
  unfoldable pub set_parsed : ℕ → Bytes → Bytes → Option Ip4 → List Request → Configured
  unfolding codes ifreq_addr
  set_parsed req iface ip none tr = (some (codes "not an IPv4 address: " ++ quote ip), tr)
  set_parsed req iface ip (some parsed) tr = do_ioctl req (ifreq_addr iface parsed) tr

  -- set
  unfoldable pub set_ip : ℕ → Bytes → Bytes → List Request → Configured
  unfolding set_parsed
  set_ip req iface ip = set_parsed req iface ip (k.parse_ip4 ip)

  -- The request for the flags and the one that sets them.
  unfoldable pub bring_up : Bytes → List Request → Configured
  unfolding wrap raise_flags ifreq_flags codes
  bring_up iface tr =
      wrap (codes "get flags: ") (do_ioctl sioc_get_flags (ifreq_flags iface 0) tr) (λ got.
        wrap (codes "set flags up: ")
          (do_ioctl sioc_set_flags (ifreq_flags iface (raise_flags (k.flags got))) got)
          (λ up. (none, up)))

  -- Behind the socket.
  unfoldable pub configure : Bytes → Bytes → Bytes → Configured
  unfolding wrap set_ip bring_up codes
  configure iface addr mask =
      wrap (codes "set address: ") (set_ip sioc_set_addr iface addr []) (λ addressed.
        wrap (codes "set netmask: ") (set_ip sioc_set_netmask iface mask addressed)
          (λ masked. bring_up iface masked))

-- `defer syscall.Close(fd)`
abbrev pub closing : ℕ → Configured → Configured
closing fd (e, tr) = (e, closes fd ∷ tr)

unfoldable pub with_socket : Kernel → Outcome ℕ → Bytes → Bytes → Bytes → Configured
unfolding configure codes
with_socket k (err e) iface addr mask = (some (codes "socket: " ++ e.message), [])
with_socket k (ok fd) iface addr mask = closing fd (configure k fd iface addr mask)

-- configureGuestNet
unfoldable pub configure_guest_net : Kernel → Bytes → Bytes → Bytes → Configured
unfolding with_socket
configure_guest_net k iface addr mask = with_socket k k.socket iface addr mask
