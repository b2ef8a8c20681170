-- ===== src/Guest/Interface/Requests.antt =====
-- guest_linux.go: the requests that configureGuestNet makes.
use fc_preflight.Prelude.{
  ℕ, zero, suc, ◌*◌, Bool-cases, ◌+◌, ◌-◌, ◌/◌, ◌%◌, ◌^◌, ◌<◌, Option, none, some, List, [], ◌∷◌,
  ◌==◌, ◌≡◌, refl, sym, ap, ◌∙◌, arith, length, take, replicate, length-append, length-replicate,
  inl, inr,
}
use fc_preflight.Text.{Bytes, codes}
use fc_preflight.Host.Machine.{Outcome, ok, Outcome-cases}
use fc_preflight.Guest.Interface.{
  Ip4, Request, ioctl, closes, Kernel, Configured, sioc_set_addr, sioc_set_netmask, sioc_get_flags,
  sioc_set_flags, ifreq_name, ifreq_addr, ifreq_flags, set_bit, raise_flags, wrap, do_ioctl,
  set_parsed, set_ip, bring_up, configure, closing, with_socket, configure_guest_net,
}

length-take : (n : ℕ) (s : Bytes) → length (take n s) + (n - length s) ≡ n
length-take zero s = omega arith
length-take (suc n) [] = omega arith
length-take (suc n) (c ∷ s) = omega (arith, length-take n s)

length-ifreq_name : (iface : Bytes) → length (ifreq_name iface) ≡ 16
unfolding ifreq_name
length-ifreq_name iface = omega (
  arith,
  length-append (take 16 iface) (replicate (16 - length iface) 0),
  length-replicate {A = ℕ} (16 - length iface) 0,
  length-take 16 iface,
)

-- Both requests have the 40 bytes of a struct ifreq, whatever the length of the interface's name.
pub length-ifreq :
    (iface : Bytes) (ip : Ip4) (flags : ℕ)
    → (length (ifreq_addr iface ip) ≡ 40) × (length (ifreq_flags iface flags) ≡ 40)
unfolding ifreq_addr ifreq_flags
length-ifreq iface ip flags = (
  omega (arith, length-append (ifreq_name iface) _, length-ifreq_name iface),
  omega (arith, length-append (ifreq_name iface) _, length-ifreq_name iface),
)

set_low : (n : ℕ) → set_bit 0 n ≡ n / 2 * 2 + 1
unfolding set_bit
set_low n = elim (Bool-cases (n % 2 == 0)) [ inl t ↦ grind (arith, t) | inr t ↦ grind (arith, t) ]

set_sixth : (n : ℕ) → set_bit 6 n ≡ n / 128 * 128 + 64 + n % 64
unfolding set_bit
set_sixth n = elim (Bool-cases (n / 64 % 2 == 0)) [
  | inl t ↦ grind (arith, t)
  | inr t ↦ grind (arith, t)
]

-- The flags that are set are those that were read with the bits 0 and 6 (IFF_UP and IFF_RUNNING) set
-- and every other bit kept; they fit the 16 bits if those that were read do.
pub raise_flags_bits :
    (flags : ℕ)
    → (raise_flags flags ≡ flags / 128 * 128 + 64 + flags / 2 % 32 * 2 + 1)
      × (flags < 2 ^ 16 → raise_flags flags < 2 ^ 16)
unfolding raise_flags
raise_flags_bits flags = (
  omega (arith, set_low flags, set_sixth (set_bit 0 flags)),
  λ h. omega (arith, h, set_low flags, set_sixth (set_bit 0 flags)),
)

wrap-none :
    (prefix : Bytes) (x : Configured) (next : List Request → Configured)
    → (wrap prefix x next).0 ≡ none
    → (x.0 ≡ none) × (wrap prefix x next ≡ next x.1)
unfolding wrap
wrap-none prefix (some e, tr) next h = absurd (cc h)
wrap-none prefix (none, tr) next h = (refl, refl)

module _ (k : Kernel) (fd : ℕ) (iface : Bytes) where
  set_parsed-none :
      (req : ℕ) (ip : Bytes) (parsed : Option Ip4) (tr : List Request)
      → (set_parsed k fd req iface ip parsed tr).0 ≡ none
      → (v : Ip4) × (parsed ≡ some v)
        × ((set_parsed k fd req iface ip parsed tr).1 ≡ ioctl fd req (ifreq_addr iface v) ∷ tr)
  unfolding set_parsed
  set_parsed-none req ip none tr h = absurd (cc h)
  set_parsed-none req ip (some v) tr h = (v, refl, refl)

  -- The two requests for the flags, the latest first.
  abbrev pub flag_requests : List Request → List Request
  flag_requests tr =
      let got = ioctl fd sioc_get_flags (ifreq_flags iface 0) ∷ tr in
      ioctl fd sioc_set_flags (ifreq_flags iface (raise_flags (k.flags got))) ∷ got

  bring_up-none :
      (tr : List Request)
      → (bring_up k fd iface tr).0 ≡ none
      → (bring_up k fd iface tr).1 ≡ flag_requests tr
  unfolding bring_up
  bring_up-none tr h =
      let (p, e) =
        wrap-none (codes "get flags: ") (do_ioctl k fd sioc_get_flags (ifreq_flags iface 0) tr) _
          h in
      let got : List Request = ioctl fd sioc_get_flags (ifreq_flags iface 0) ∷ tr in
      let (q, f) =
        wrap-none (codes "set flags up: ")
          (do_ioctl k fd sioc_set_flags (ifreq_flags iface (raise_flags (k.flags got))) got) _
          (ap (λ (c : Configured). c.0) (sym e) ∙ h) in
      ap (λ (c : Configured). c.1) (e ∙ f)

  configure-none :
      (addr mask : Bytes)
      → (configure k fd iface addr mask).0 ≡ none
      → (ip : Ip4) × (m : Ip4) × (k.parse_ip4 addr ≡ some ip)
        × (k.parse_ip4 mask ≡ some m)
        × ((configure k fd iface addr mask).1
            ≡ flag_requests (
                ioctl fd sioc_set_netmask (ifreq_addr iface m)
                ∷ ioctl fd sioc_set_addr (ifreq_addr iface ip)
                ∷ []))
  unfolding configure set_ip
  configure-none addr mask h =
      let (p, e) =
        wrap-none (codes "set address: ") (set_ip k fd sioc_set_addr iface addr []) _ h in
      let (ip, parsed, t) = set_parsed-none sioc_set_addr addr (k.parse_ip4 addr) [] p in
      let addressed : List Request = (set_ip k fd sioc_set_addr iface addr []).1 in
      let (q, f) =
        wrap-none (codes "set netmask: ") (set_ip k fd sioc_set_netmask iface mask addressed) _
          (ap (λ (c : Configured). c.0) (sym e) ∙ h) in
      let (m, masked, u) = set_parsed-none sioc_set_netmask mask (k.parse_ip4 mask) addressed q in
      (
        ip,
        m,
        parsed,
        masked,
        ap (λ (c : Configured). c.1) (e ∙ f)
            ∙ bring_up-none (set_ip k fd sioc_set_netmask iface mask addressed).1
                (ap (λ (c : Configured). c.0) (sym (e ∙ f)) ∙ h)
            ∙ ap flag_requests (
                u
                ∙ ap (λ (tr : List Request). ioctl fd sioc_set_netmask (ifreq_addr iface m) ∷ tr)
                    t),
      )

-- If configureGuestNet returns no error, then the socket was opened, the address and the mask were
-- IPv4 addresses, and on that socket the kernel was asked, in this order, for the address, for the
-- mask, for the flags, and to set those flags with IFF_UP and IFF_RUNNING, all of the named interface,
-- and then to close it.
pub configure_guest_net-none :
    (k : Kernel) (iface addr mask : Bytes)
    → (configure_guest_net k iface addr mask).0 ≡ none
    → (fd : ℕ) × (ip : Ip4) × (m : Ip4) × (k.socket ≡ ok fd)
      × (k.parse_ip4 addr ≡ some ip)
      × (k.parse_ip4 mask ≡ some m)
      × ((configure_guest_net k iface addr mask).1
          ≡ closes fd
            ∷ flag_requests k fd iface (
                ioctl fd sioc_set_netmask (ifreq_addr iface m)
                ∷ ioctl fd sioc_set_addr (ifreq_addr iface ip)
                ∷ []))
unfolding configure_guest_net with_socket
configure_guest_net-none k iface addr mask h = elim (Outcome-cases k.socket) [
  | inr (e, s) ↦ absurd (cc (h, s))
  | inl (fd, s) ↦
      let opened : configure_guest_net k iface addr mask
          ≡ closing fd (configure k fd iface addr mask) =
        ap (λ (o : Outcome ℕ). with_socket k o iface addr mask) s in
      let (ip, m, p, q, t) =
        configure-none k fd iface addr mask (ap (λ (c : Configured). c.0) (sym opened) ∙ h) in
      (
        fd,
        ip,
        m,
        s,
        p,
        q,
        ap (λ (c : Configured). c.1) opened ∙ ap (λ (tr : List Request). closes fd ∷ tr) t,
      )
]
