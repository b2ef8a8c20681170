-- ===== src/Guest/Init/Dials.antt =====
-- guest_linux.go and boot_linux.go: where the guest looks for what bootOne has set up.
use fc_preflight.Prelude.{ℕ, ◌≡◌, ap, ◌∙◌}
use fc_preflight.Prelude.Int.{pos}
use fc_preflight.Text.{Bytes, codes}
use fc_preflight.Text.Number.{itoa, itoa_ℤ}
use fc_preflight.BootArgs.{boot_args, echo_port, guest_netmask}
use fc_preflight.GuestNet.{vm_guest_ip, vm_host_ip}
use fc_preflight.Boot.One.{VmWorld, VmFlags, echo_address}
use fc_preflight.Guest.Cmdline.{Settings, initial_settings, parse_guest_cmdline}
use fc_preflight.Guest.Cmdline.RoundTrip.{parse_guest_cmdline-boot_args}
use fc_preflight.Guest.Net.{measure_net}
use fc_preflight.Guest.Survey.{GuestWorld, surveyed}
use fc_preflight.Guest.Init.{net_run}

-- The settings of a guest, from the command line that it reads.
abbrev pub settings_of : GuestWorld → Settings
settings_of w = parse_guest_cmdline (surveyed w).cmdline initial_settings

-- If the guest reads the command line that bootOne made for its microVM, and both join a host and a
-- port alike, then the guest measures the network against the very address on which bootOne has the
-- echo server listen, and the disk on /dev/vda.
pub net_run-echo_address :
    (w : GuestWorld) (vm : VmWorld) (flags : VmFlags) (base i : ℕ)
    → (surveyed w).cmdline ≡ boot_args flags.boot_args base i
    → w.join_host_port ≡ vm.join_host_port
    → (net_run w (settings_of w)
        ≡ measure_net w.ops w.ping_micros w.send_seconds
            (w.dial (echo_address vm flags base i))
            w.now
            w.conn
            w.dial_start
            102
            (echo_address vm flags base i))
      × ((settings_of w).guest_disk ≡ codes "/dev/vda")
unfolding net_run itoa_ℤ
net_run-echo_address w vm flags base i c j =
    let same : settings_of w ≡ record (parse_guest_cmdline flags.boot_args initial_settings) {
      guest_ip = vm_guest_ip base i;
      guest_mask = guest_netmask;
      host_ip = vm_host_ip base i;
      guest_port = pos echo_port;
      guest_disk = codes "/dev/vda";
    } =
      ap (λ (s : Bytes). parse_guest_cmdline s initial_settings) c
      ∙ parse_guest_cmdline-boot_args flags.boot_args base i initial_settings in
    (
      ap (net_run w) same
          ∙ ap
              (λ (joined : Bytes → Bytes → Bytes).
                let addr = joined (vm_host_ip base i) (itoa echo_port) in
                measure_net w.ops w.ping_micros w.send_seconds (w.dial addr) w.now w.conn
                  w.dial_start 102 addr)
              j,
      ap (λ (set : Settings). set.guest_disk) same,
    )
