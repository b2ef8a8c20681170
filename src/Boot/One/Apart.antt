-- ===== src/Boot/One/Apart.antt =====
-- boot_linux.go: a boot leaves the tap devices of the other microVMs alone.
use fc_preflight.Prelude.{
  ℕ, Bool, true, false, Option, none, some, List, [], ◌∷◌, ◌++◌, ◌≡◌, ◌≢◌, refl, ap, ◌∙◌, arith,
  Bool-cases, inl, inr, drop,
}
use fc_preflight.Text.{Bytes, codes, equal}
use fc_preflight.Text.Number.{itoa}
use fc_preflight.Text.Number.Spell.{itoa_injective}
use fc_preflight.GuestNet.{vm_tap, vm_host_ip}
use fc_preflight.Console.{watch_output}
use fc_preflight.Boot.Tap.{
  Event, makes, removes, listens, writes, starts, sizes, Trace, Tried, CommandError, run_ip,
  link_del, tuntap_add, addr_add, link_up, setup_tap, teardown_tap,
}
use fc_preflight.Boot.Tap.Devices.{has_tap, equal_all, quiet, then_quiet}
use fc_preflight.Boot.One.{
  VmWorld, VmFlags, Booted, attempt, listened, scratch_size, deferred, echo_address, vm_config,
  fire, launch, configured, sized, with_scratch, with_echo, after_tap, boot_one,
}

equal_sound : (a b : Bytes) → equal a b ≡ true → a ≡ b
unfolding equal
equal_sound [] [] h = refl
equal_sound [] (y ∷ b) h = absurd (ground (arith, h))
equal_sound (x ∷ a) [] h = absurd (ground (arith, h))
equal_sound (x ∷ a) (y ∷ b) h =
    let head : x ≡ y = grind (arith, h) in
    let tail : a ≡ b = equal_sound a b (ground (arith, h)) in cc (head, tail)

-- Different microVMs have different tap devices.
vm_tap-apart : (i j : ℕ) → i ≢ j → equal (vm_tap i) (vm_tap j) ≡ false
unfolding vm_tap codes
vm_tap-apart i j h = elim (Bool-cases (equal (vm_tap i) (vm_tap j))) [
  | inl t ↦ absurd (h (itoa_injective i j (ap (drop 4) (equal_sound (vm_tap i) (vm_tap j) t))))
  | inr t ↦ t
]

module _ (exec : Trace → List Bytes → Option CommandError) (before : Bool) (mine tap : Bytes)
    (apart : equal mine tap ≡ false) where
  quiet_del :
      (tr : Trace) → has_tap before tap (run_ip exec (link_del mine) tr).1 ≡ has_tap before tap tr
  unfolding run_ip equal_all codes equal
  quiet_del tr =
      quiet exec before tap (link_del mine) (exec tr (link_del mine)) tr (rw apart refl) refl

  quiet_add :
      (tr : Trace) → has_tap before tap (run_ip exec (tuntap_add mine) tr).1 ≡ has_tap before tap tr
  unfolding run_ip equal_all codes equal
  quiet_add tr =
      quiet exec before tap (tuntap_add mine) (exec tr (tuntap_add mine)) tr refl (rw apart refl)

  quiet_other_addr :
      (address : Bytes) (tr : Trace)
      → has_tap before tap (run_ip exec (addr_add address mine) tr).1 ≡ has_tap before tap tr
  unfolding run_ip equal_all codes equal
  quiet_other_addr address tr =
      quiet exec before tap (addr_add address mine) (exec tr (addr_add address mine)) tr refl refl

  quiet_other_up :
      (tr : Trace) → has_tap before tap (run_ip exec (link_up mine) tr).1 ≡ has_tap before tap tr
  unfolding run_ip equal_all codes equal
  quiet_other_up tr = quiet exec before tap (link_up mine) (exec tr (link_up mine)) tr refl refl

-- A step that leaves the question whether a tap device exists as it was.
record Leaves (before : Bool) (tap : Bytes) (next : Trace → Booted) : Type 0 where
  leaves : (tr : Trace) → has_tap before tap (next tr).1 ≡ has_tap before tap tr

attempt-Leaves :
    (before : Bool) (tap : Bytes) (i : ℕ) (prefix : Bytes) (answer : Option Bytes)
    (events : List Event) (next : Trace → Booted) (tr : Trace)
    → has_tap before tap (events ++ tr) ≡ has_tap before tap tr
    → Leaves before tap next
    → has_tap before tap (attempt i prefix answer events next tr).1 ≡ has_tap before tap tr
unfolding attempt
attempt-Leaves before tap i prefix (some e) events next tr h k = refl
attempt-Leaves before tap i prefix none events next tr h k = k.leaves (events ++ tr) ∙ h

module _ (w : VmWorld) (flags : VmFlags) (base i : ℕ) (fc_bin kernel initramfs work_dir : Bytes)
    (before : Bool) (tap : Bytes) where
  fire-Leaves : (cfg_path : Bytes) → Leaves before tap (fire w flags base i fc_bin cfg_path)
  unfolding fire has_tap
  fire-Leaves cfg_path = record {
    leaves = λ tr.
        attempt-Leaves before tap i (codes "start firecracker: ") (w.start tr)
          (starts (fc_bin ∷ codes "--no-api" ∷ codes "--config-file" ∷ cfg_path ∷ []) ∷ [])
          (λ started. (
            watch_output w.unmarshal w.times_1000 flags.boot_timeout (w.waited started) i
                (w.console started),
            started,
          ))
          tr refl (record { leaves = λ s. refl });
  }

  launch-Leaves : (cfg_path : Bytes) → Leaves before tap (launch w flags base i fc_bin cfg_path)
  unfolding launch
  launch-Leaves cfg_path = record {
    leaves = λ tr.
        attempt-Leaves before tap i (codes "stdout pipe: ") (w.stdout_pipe tr) []
          (fire w flags base i fc_bin cfg_path) tr refl (fire-Leaves cfg_path);
  }

  configured-Leaves :
      (scratch : Bytes)
      → Leaves before tap (configured w flags base i fc_bin kernel initramfs work_dir scratch)
  unfolding configured has_tap
  configured-Leaves scratch = record {
    leaves = λ tr.
        let cfg_path = w.path_join work_dir (codes "config" ++ (itoa i ++ codes ".json")) in
        attempt-Leaves before tap i (codes "write config: ") (w.write_file tr cfg_path)
          (writes cfg_path (w.marshal (vm_config w flags base i kernel initramfs scratch)) ∷ [])
          (launch w flags base i fc_bin cfg_path) tr refl (launch-Leaves cfg_path);
  }

  sized-Leaves :
      (scratch : Bytes)
      → Leaves before tap (sized w flags base i fc_bin kernel initramfs work_dir scratch)
  unfolding sized has_tap
  sized-Leaves scratch = record {
    leaves = λ tr.
        attempt-Leaves before tap i (codes "scratch disk truncate: ")
          (w.truncate tr scratch scratch_size) (sizes scratch scratch_size ∷ [])
          (λ done.
            deferred (λ closed. removes scratch ∷ closed)
              (configured w flags base i fc_bin kernel initramfs work_dir scratch done))
          tr refl (record { leaves = (configured-Leaves scratch).leaves });
  }

  with_scratch-Leaves :
      Leaves before tap (with_scratch w flags base i fc_bin kernel initramfs work_dir)
  unfolding with_scratch has_tap
  with_scratch-Leaves = record {
    leaves = λ tr.
        let scratch = w.path_join work_dir (codes "scratch" ++ (itoa i ++ codes ".img")) in
        attempt-Leaves before tap i (codes "scratch disk: ") (w.create tr scratch)
          (makes scratch ∷ []) (sized w flags base i fc_bin kernel initramfs work_dir scratch) tr
          refl (sized-Leaves scratch);
  }

  listened-Leaves : Leaves before tap (listened w flags base i fc_bin kernel initramfs work_dir)
  unfolding listened has_tap
  listened-Leaves = record {
    leaves = λ tr.
        attempt-Leaves before tap i (codes "echo server: ")
          (w.listen tr (echo_address w flags base i)) (listens (echo_address w flags base i) ∷ [])
          (with_scratch w flags base i fc_bin kernel initramfs work_dir) tr refl
          with_scratch-Leaves;
  }

  with_echo-Leaves : Leaves before tap (with_echo w flags base i fc_bin kernel initramfs work_dir)
  unfolding with_echo has_tap
  with_echo-Leaves = record { leaves = listened-Leaves.leaves }

module _ (w : VmWorld) (flags : VmFlags) (base i j : ℕ) (fc_bin kernel initramfs work_dir : Bytes)
    (before : Bool) (differ : i ≢ j) where
  abbrev others : Trace → Bool
  others = has_tap before (vm_tap j)

  others-setup_tap : (tr : Trace) → others (setup_tap w.exec base i tr).1 ≡ others tr
  unfolding setup_tap
  others-setup_tap tr =
      let apart : equal (vm_tap i) (vm_tap j) ≡ false = vm_tap-apart i j differ in
      let cleared : Trace = (run_ip w.exec (link_del (vm_tap i)) tr).1 in
      then_quiet w.exec before (vm_tap j) (run_ip w.exec (tuntap_add (vm_tap i)) cleared) _
        (λ added.
          then_quiet w.exec before (vm_tap j)
            (run_ip w.exec (addr_add (vm_host_ip base i ++ codes "/30") (vm_tap i)) added)
            (run_ip w.exec (link_up (vm_tap i)))
            (quiet_other_up w.exec before (vm_tap i) (vm_tap j) apart)
          ∙ quiet_other_addr w.exec before (vm_tap i) (vm_tap j) apart
              (vm_host_ip base i ++ codes "/30") added)
      ∙ quiet_add w.exec before (vm_tap i) (vm_tap j) apart cleared
      ∙ quiet_del w.exec before (vm_tap i) (vm_tap j) apart tr

  others-after_tap :
      (x : Tried)
      → others (after_tap w flags base i fc_bin kernel initramfs work_dir x).1 ≡ others x.1
  unfolding after_tap teardown_tap
  others-after_tap (some e, tr) = refl
  others-after_tap (none, tr) =
      quiet_del w.exec before (vm_tap i) (vm_tap j) (vm_tap-apart i j differ) _
      ∙ (with_echo-Leaves w flags base i fc_bin kernel initramfs work_dir before (vm_tap j)).leaves
          tr

  -- On every path, bootOne of one microVM leaves it as it was whether the tap device of another one
  -- exists.
  pub boot_one-apart :
      (tr : Trace)
      → has_tap before (vm_tap j) (boot_one w flags base i fc_bin kernel initramfs work_dir tr).1
        ≡ has_tap before (vm_tap j) tr
  unfolding boot_one
  boot_one-apart tr = others-after_tap (setup_tap w.exec base i tr) ∙ others-setup_tap tr
