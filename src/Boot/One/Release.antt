-- ===== src/Boot/One/Release.antt =====
-- boot_linux.go: what is left behind a microVM once bootOne has returned.
use fc_preflight.Prelude.{
  ℕ, Bool, true, false, not, ◌&&◌, Option, none, some, List, [], ◌∷◌, ◌++◌, ◌≡◌, refl, ◌∙◌, arith,
  if◌then◌else◌,
}
use fc_preflight.Text.{Bytes, codes, equal, equal_refl}
use fc_preflight.GuestNet.{vm_tap, vm_host_ip}
use fc_preflight.Boot.Tap.{
  listens, cancels, Trace, Tried, CommandError, then_try, run_as, run_ip, link_del, link_up,
  addr_add, tuntap_add, setup_tap, teardown_tap,
}
use fc_preflight.Boot.Tap.Devices.{has_tap, is_none, added, has_tap-setup_tap, has_tap-teardown_tap}
use fc_preflight.Boot.One.{
  VmWorld, VmFlags, Booted, deferred, echo_address, listened, with_echo, after_tap, boot_one,
}

module _ (w : VmWorld) (flags : VmFlags) (base i : ℕ) (fc_bin kernel initramfs work_dir : Bytes)
    (before : Bool)
    (deletable : (tr : Trace)
      → has_tap before (vm_tap i) tr ≡ true
      → w.exec tr (link_del (vm_tap i)) ≡ none) where
  tap-after_tap :
      (x : Tried) (a : Bool)
      → has_tap before (vm_tap i) x.1 ≡ a
      → has_tap before (vm_tap i) (after_tap w flags base i fc_bin kernel initramfs work_dir x).1
        ≡ a && not (is_none x.0)
  unfolding after_tap
  tap-after_tap (some e, tr) a h = ground (arith, h)
  tap-after_tap (none, tr) a h =
      has_tap-teardown_tap w.exec before i deletable
        (with_echo w flags base i fc_bin kernel initramfs work_dir tr).1
      ∙ ground arith

  -- If `ip link del` succeeds on a device that exists, then, once bootOne has returned, the tap device
  -- of the microVM exists exactly if setupTap added it and then failed to address it or to bring it
  -- up: it is removed on every other path, whatever fails behind it.
  pub boot_one-has_tap :
      (tr : Trace)
      → has_tap before (vm_tap i) (boot_one w flags base i fc_bin kernel initramfs work_dir tr).1
        ≡ added w.exec i tr && not (is_none (setup_tap w.exec base i tr).0)
  unfolding boot_one
  boot_one-has_tap tr =
      tap-after_tap (setup_tap w.exec base i tr) (added w.exec i tr)
        (has_tap-setup_tap w.exec before i deletable base tr)

-- An echo server was started on an address, and the context that its listener is closed for is not
-- cancelled.
unfoldable pub is_open : Bytes → Trace → Bool
is_open address [] = false
is_open address (listens a ∷ tr) =
    let earlier = is_open address tr in if equal a address then true else earlier
is_open address (cancels a ∷ tr) =
    let earlier = is_open address tr in if equal a address then false else earlier
is_open address (_ ∷ tr) = is_open address tr

module _ (address : Bytes) where
  open-run_as :
      (exec : Trace → List Bytes → Option CommandError) (args : List Bytes)
      (answer : Option CommandError) (tr : Trace)
      → is_open address (run_as exec args answer tr).1 ≡ is_open address tr
  unfolding run_as is_open
  open-run_as exec args none tr = refl
  open-run_as exec args (some e) tr = refl

  open-run_ip :
      (exec : Trace → List Bytes → Option CommandError) (args : List Bytes) (tr : Trace)
      → is_open address (run_ip exec args tr).1 ≡ is_open address tr
  unfolding run_ip
  open-run_ip exec args tr = open-run_as exec args (exec tr args) tr

  open-then_try :
      (x : Tried) (next : Trace → Tried)
      → ((tr : Trace) → is_open address (next tr).1 ≡ is_open address tr)
      → is_open address (then_try x next).1 ≡ is_open address x.1
  unfolding then_try
  open-then_try (some e, tr) next h = refl
  open-then_try (none, tr) next h = h tr

  open-setup_tap :
      (exec : Trace → List Bytes → Option CommandError) (base i : ℕ) (tr : Trace)
      → is_open address (setup_tap exec base i tr).1 ≡ is_open address tr
  unfolding setup_tap
  open-setup_tap exec base i tr =
      open-then_try (run_ip exec (tuntap_add (vm_tap i)) (run_ip exec (link_del (vm_tap i)) tr).1) _
        (λ made.
          open-then_try (run_ip exec (addr_add (vm_host_ip base i ++ codes "/30") (vm_tap i)) made)
            (run_ip exec (link_up (vm_tap i))) (λ set. open-run_ip exec (link_up (vm_tap i)) set)
          ∙ open-run_ip exec (addr_add (vm_host_ip base i ++ codes "/30") (vm_tap i)) made)
      ∙ open-run_ip exec (tuntap_add (vm_tap i)) (run_ip exec (link_del (vm_tap i)) tr).1
      ∙ open-run_ip exec (link_del (vm_tap i)) tr

module _ (w : VmWorld) (flags : VmFlags) (base i : ℕ)
    (fc_bin kernel initramfs work_dir : Bytes) where
  -- The address that the echo server of this microVM has.
  abbrev pub address : Bytes
  address = echo_address w flags base i

  stops : (b : Booted) → is_open address (deferred (λ done. cancels address ∷ done) b).1 ≡ false
  unfolding is_open
  stops (out, tr) = rw (equal_refl address) refl

  open-after_tap :
      (x : Tried)
      → is_open address x.1 ≡ false
      → is_open address (after_tap w flags base i fc_bin kernel initramfs work_dir x).1 ≡ false
  unfolding after_tap with_echo teardown_tap
  open-after_tap (some e, tr) h = h
  open-after_tap (none, tr) h =
      open-run_ip address w.exec (link_del (vm_tap i)) _
      ∙ stops (listened w flags base i fc_bin kernel initramfs work_dir tr)

  -- If no echo server on the address of the microVM has a context that is not cancelled before
  -- bootOne, then, on every path, none has one once bootOne has returned.
  pub boot_one-is_open :
      (tr : Trace)
      → is_open address tr ≡ false
      → is_open address (boot_one w flags base i fc_bin kernel initramfs work_dir tr).1 ≡ false
  unfolding boot_one
  boot_one-is_open tr h =
      open-after_tap (setup_tap w.exec base i tr) (open-setup_tap address w.exec base i tr ∙ h)
