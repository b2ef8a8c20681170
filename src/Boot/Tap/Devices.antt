-- ===== src/Boot/Tap/Devices.antt =====
-- boot_linux.go: which tap devices exist behind the commands of a boot.
use fc_preflight.Prelude.{
  ℕ, Bool, true, false, ◌&&◌, Option, none, some, List, [], ◌∷◌, ◌≡◌, refl, ◌∙◌, arith, Bool-cases,
  inl, inr, if◌then◌else◌,
}
use fc_preflight.Text.{Bytes, codes, equal, equal_refl}
use fc_preflight.GuestNet.{vm_tap}
use fc_preflight.Boot.Tap.{
  ran, Trace, Tried, CommandError, then_try, run_as, run_ip, link_del, tuntap_add, addr_add,
  link_up, setup_tap, teardown_tap,
}

unfoldable pub equal_all : List Bytes → List Bytes → Bool
equal_all [] [] = true
equal_all (x ∷ xs) (y ∷ ys) = equal x y && equal_all xs ys
equal_all _ _ = false

equal_all_refl : (xs : List Bytes) → equal_all xs xs ≡ true
unfolding equal_all
equal_all_refl [] = refl
equal_all_refl (x ∷ xs) = ground (arith, equal_refl x, equal_all_refl xs)

-- A tap device exists: `ip tuntap add` makes it, `ip link del` takes it away, and it existed at
-- first or not.
unfoldable pub has_tap : Bool → Bytes → Trace → Bool
unfolding equal_all
has_tap before tap [] = before
has_tap before tap (ran args true ∷ tr) =
    let earlier = has_tap before tap tr in
    if equal_all args (link_del tap)
    then false
    else if equal_all args (tuntap_add tap)
    then true
    else earlier
has_tap before tap (_ ∷ tr) = has_tap before tap tr

abbrev pub is_none {ℓ} : {A : Type ℓ} → Option A → Bool
is_none none = true
is_none (some a) = false

module _ (exec : Trace → List Bytes → Option CommandError) (before : Bool) (tap : Bytes) where
  abbrev tap_in : Trace → Bool
  tap_in = has_tap before tap

  run_as-error :
      (args : List Bytes) (answer : Option CommandError) (tr : Trace)
      → is_none (run_as exec args answer tr).0 ≡ is_none answer
  unfolding run_as
  run_as-error args none tr = refl
  run_as-error args (some e) tr = refl

  -- A command that is neither of the two leaves the devices.
  pub quiet :
      (args : List Bytes) (answer : Option CommandError) (tr : Trace)
      → equal_all args (link_del tap) ≡ false
      → equal_all args (tuntap_add tap) ≡ false
      → tap_in (run_as exec args answer tr).1 ≡ tap_in tr
  unfolding run_as has_tap
  quiet args none tr p q = rw (p, q) refl
  quiet args (some e) tr p q = refl

  adds :
      (answer : Option CommandError) (tr : Trace)
      → tap_in tr ≡ false
      → tap_in (run_as exec (tuntap_add tap) answer tr).1 ≡ is_none answer
  unfolding run_as has_tap equal_all codes equal
  adds none tr p = rw (equal_all_refl (tuntap_add tap)) refl
  adds (some e) tr p = p

  deletes :
      (answer : Option CommandError) (tr : Trace)
      → (tap_in tr ≡ true → answer ≡ none)
      → tap_in (run_as exec (link_del tap) answer tr).1 ≡ false
  unfolding run_as has_tap
  deletes none tr works = rw (equal_all_refl (link_del tap)) refl
  deletes (some e) tr works = elim (Bool-cases (tap_in tr)) [
    | inl t ↦ absurd (cc (works t))
    | inr t ↦ t
  ]

  pub then_quiet :
      (x : Tried) (next : Trace → Tried)
      → ((tr : Trace) → tap_in (next tr).1 ≡ tap_in tr)
      → tap_in (then_try x next).1 ≡ tap_in x.1
  unfolding then_try
  then_quiet (some e, tr) next h = refl
  then_quiet (none, tr) next h = h tr

  quiet_addr :
      (address : Bytes) (tr : Trace) → tap_in (run_ip exec (addr_add address tap) tr).1 ≡ tap_in tr
  unfolding run_ip equal_all codes equal
  quiet_addr address tr = quiet (addr_add address tap) (exec tr (addr_add address tap)) tr refl refl

  quiet_up : (tr : Trace) → tap_in (run_ip exec (link_up tap) tr).1 ≡ tap_in tr
  unfolding run_ip equal_all codes equal
  quiet_up tr = quiet (link_up tap) (exec tr (link_up tap)) tr refl refl

-- Whether `ip tuntap add` succeeds in setupTap, behind the first `ip link del`.
abbrev pub added : (Trace → List Bytes → Option CommandError) → ℕ → Trace → Bool
added exec i tr = is_none (exec (run_ip exec (link_del (vm_tap i)) tr).1 (tuntap_add (vm_tap i)))

module _ (exec : Trace → List Bytes → Option CommandError) (before : Bool) (i : ℕ)
    (deletable : (tr : Trace)
      → has_tap before (vm_tap i) tr ≡ true
      → exec tr (link_del (vm_tap i)) ≡ none) where
  pub has_tap-setup_tap :
      (base : ℕ) (tr : Trace)
      → has_tap before (vm_tap i) (setup_tap exec base i tr).1 ≡ added exec i tr
  unfolding setup_tap run_ip
  has_tap-setup_tap base tr =
      let tap : Bytes = vm_tap i in
      let cleared : Trace = (run_ip exec (link_del tap) tr).1 in
      then_quiet exec before tap (run_ip exec (tuntap_add tap) cleared) _ (λ made.
        then_quiet exec before tap _ _ (quiet_up exec before tap)
        ∙ quiet_addr exec before tap _ made)
      ∙ adds exec before tap (exec cleared (tuntap_add tap)) cleared
          (deletes exec before tap (exec tr (link_del tap)) tr (deletable tr))

  pub has_tap-teardown_tap :
      (tr : Trace) → has_tap before (vm_tap i) (teardown_tap exec (vm_tap i) tr) ≡ false
  unfolding teardown_tap run_ip
  has_tap-teardown_tap tr =
      deletes exec before (vm_tap i) (exec tr (link_del (vm_tap i))) tr (deletable tr)
