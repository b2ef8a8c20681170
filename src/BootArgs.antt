-- ===== src/BootArgs.antt =====
-- boot_linux.go: the kernel command line that bootOne gives a microVM.
use fc_preflight.Prelude.{ℕ, ◌++◌}
use fc_preflight.Text.{Bytes, codes}
use fc_preflight.Text.Number.{itoa}
use fc_preflight.GuestNet.{vm_guest_ip, vm_host_ip}

-- echoPort
abbrev pub echo_port : ℕ
echo_port = 52345

-- guestNetmask
abbrev pub guest_netmask : Bytes
guest_netmask = codes "255.255.255.252"

-- bootArgs in bootOne, for -boot-args, the base of the range and the index of the microVM
unfoldable pub boot_args : Bytes → ℕ → ℕ → Bytes
unfolding codes
boot_args flag_boot_args base i =
    flag_boot_args
    ++ codes " fcpf.ip="
    ++ vm_guest_ip base i
    ++ codes " fcpf.mask="
    ++ guest_netmask
    ++ codes " fcpf.host="
    ++ vm_host_ip base i
    ++ codes " fcpf.port="
    ++ itoa echo_port
    ++ codes " fcpf.disk="
    ++ codes "/dev/vda"
