-- ===== src/GuestNet/Ranges.antt =====
-- boot_linux.go: the microVMs' /30s are apart and lie in the range of -guest-net.
use native.Mathlib.Nat.{pow-suc, div-add-mod, mul_assoc, mul-mod_right}
use fc_preflight.Prelude.{
  ℕ, zero, suc, ◌+◌, ◌-◌, ◌*◌, ◌/◌, ◌%◌, ◌^◌, ◌≤◌, ◌<◌, ◌≡◌, sym, ap, true, false, some, arith, ◌↔◌,
  inl, inr, Option-cases, Bool-cases,
}
use fc_preflight.Prelude.Int.{ℤ, pos, negsuc, ltb_ℤ}
use fc_preflight.Text.{Bytes}
use fc_preflight.Host.Machine.{Outcome, ok, Outcome-cases}
use fc_preflight.GuestNet.{Addr4, Cidr, resolved, subnets, network_base, resolve_guest_net, vm_base}

-- The addresses of the network: as many as the mask leaves, from a multiple of that number, and all
-- of them IPv4.
abbrev pub IsMasked : Cidr → Addr4 → Type 0
IsMasked net base =
    (net.bits - net.ones ≤ 32)
    × (network_base base % 2 ^ (net.bits - net.ones) ≡ 0)
    × (network_base base + 2 ^ (net.bits - net.ones) ≤ 2 ^ 32)

-- The /30 of the i-th microVM starts on a multiple of four, lies in the range of 2^n addresses from
-- the base, and ends before that of any later microVM starts.
abbrev pub IsApart : ℕ → ℕ → ℕ → Type 0
IsApart base n i =
    (vm_base base i % 4 ≡ 0)
    × (base ≤ vm_base base i)
    × (vm_base base i + 4 ≤ base + 2 ^ n)
    × ((j : ℕ) → i < j → j < 2 ^ n / 4 → vm_base base i + 4 ≤ vm_base base j)

four_divides : (n : ℕ) → 0 < 2 ^ n / 4 → (k : ℕ) × (2 ^ n ≡ 4 * k)
four_divides zero h = absurd (omega arith)
four_divides (suc zero) h = absurd (omega arith)
four_divides (suc (suc n)) h =
    (2 ^ n, let a = pow-suc 2 (suc n) in let b = pow-suc 2 n in omega (arith, a, b))

-- A multiple of a multiple of four is a multiple of four.
mod_four : (base m k : ℕ) → m ≡ 4 * k → base % m ≡ 0 → base % 4 ≡ 0
mod_four base m k f e =
    let d = div-add-mod base m in
    let p = mul_assoc 4 k (base / m) in
    let q = ap (λ (t : ℕ). t * (base / m)) f in
    let z = mul-mod_right 4 (k * (base / m)) in omega (arith, d, p, q, z, e)

base_aligned : (base n : ℕ) → 0 < 2 ^ n / 4 → base % 2 ^ n ≡ 0 → base % 4 ≡ 0
base_aligned base n h e = let (k, f) = four_divides n h in mod_four base (2 ^ n) k f e

vm_base_sum : (base n i : ℕ) → base + 2 ^ n ≤ 2 ^ 32 → i < 2 ^ n / 4 → vm_base base i ≡ base + 4 * i
unfolding vm_base
vm_base_sum base n i h l = omega arith

vm_base-IsApart :
    (base n i : ℕ) → base % 2 ^ n ≡ 0 → base + 2 ^ n ≤ 2 ^ 32 → i < 2 ^ n / 4 → IsApart base n i
vm_base-IsApart base n i e h l =
    let s = vm_base_sum base n i h l in
    let al = base_aligned base n (omega arith) e in
    (
      omega (arith, s, al),
      omega (arith, s),
      omega (arith, s),
      λ j lt lj. let t = vm_base_sum base n j h lj in omega (arith, s, t),
    )

below_avail :
    (n i : ℕ) (vms : ℤ)
    → n ≤ 32
    → ltb_ℤ (subnets n) vms ≡ false
    → ltb_ℤ (pos i) vms ≡ true
    → i < 2 ^ n / 4
unfolding subnets
below_avail n i (pos v) h p q = ground arith
below_avail n i (negsuc v) h p q = ground arith

-- A base that resolveGuestNet accepts.
module _ (parse_cidr : Bytes → Outcome Cidr)
    (parse_cidr_masks : (s : Bytes) (net : Cidr) (base : Addr4)
      → parse_cidr s ≡ ok net
      → net.net_v4 ≡ some base
      → IsMasked net base) where
  -- The network is the one that the text parses to, and it holds enough /30s.
  resolved_cases :
      (s : Bytes) (vms : ℤ) (b : ℕ)
      → resolve_guest_net parse_cidr s vms ≡ resolved b
      → (net : Cidr) × (base : Addr4) × (parse_cidr s ≡ ok net)
        × (net.net_v4 ≡ some base)
        × (network_base base ≡ b)
        × (ltb_ℤ (subnets (net.bits - net.ones)) vms ≡ false)
  unfolding resolve_guest_net
  resolved_cases s vms b h = elim (Outcome-cases (parse_cidr s)) [
    | inr (e, f) ↦ grind (arith, f)
    | inl (net, f) ↦ elim (Option-cases net.ip_v4) [
      | inl n ↦ grind (arith, f, n)
      | inr (v4, n) ↦ elim (Bool-cases (ltb_ℤ (subnets (net.bits - net.ones)) vms)) [
        | inl t ↦ grind (arith, f, n, t)
        | inr t ↦ elim (Option-cases net.net_v4) [
          | inl w ↦ grind (arith, f, n, t, w)
          | inr (base, w) ↦ (net, base, f, w, grind (arith, f, n, t, w), t)
        ]
      ]
    ]
  ]

  -- If resolveGuestNet accepts a range for a number of microVMs, and net.ParseCIDR masks the host bits
  -- of the network it returns, then the /30 of every one of these microVMs starts on a multiple of
  -- four, lies in the range, and ends before that of any later microVM in the range starts.
  pub resolve_guest_net-IsApart :
      (s : Bytes) (vms : ℤ) (b i : ℕ)
      → resolve_guest_net parse_cidr s vms ≡ resolved b
      → ltb_ℤ (pos i) vms ≡ true
      → (net : Cidr) × (parse_cidr s ≡ ok net) × IsApart b (net.bits - net.ones) i
  resolve_guest_net-IsApart s vms b i h l =
      let (net, base, p, q, e, a) = resolved_cases s vms b h in
      let (small, al, fits) = parse_cidr_masks s net base p q in
      (
        net,
        p,
        rw (sym e) (
            vm_base-IsApart (network_base base) (net.bits - net.ones) i al fits
              (below_avail (net.bits - net.ones) i vms small a l)),
      )

-- For an IPv4 network, resolveGuestNet sets the base exactly if the range holds four addresses for
-- each microVM.
pub resolve_guest_net_iff :
    (parse_cidr : Bytes → Outcome Cidr) (s : Bytes) (net : Cidr) (v4 base : Addr4) (vms : ℕ)
    → parse_cidr s ≡ ok net
    → net.ip_v4 ≡ some v4
    → net.net_v4 ≡ some base
    → net.bits - net.ones ≤ 32
    → (resolve_guest_net parse_cidr s (pos vms) ≡ resolved (network_base base))
      ↔ (4 * vms ≤ 2 ^ (net.bits - net.ones))
unfolding resolve_guest_net subnets
resolve_guest_net_iff parse_cidr s net v4 base vms p q r h =
    elim (Bool-cases (ltb_ℤ (subnets (net.bits - net.ones)) (pos vms))) [
      | inl t ↦ (λ e. grind (arith, p, q, r, t, e), λ l. absurd (ground (arith, t)))
      | inr t ↦ (λ e. ground (arith, t), λ l. grind (arith, p, q, r, t))
    ]
