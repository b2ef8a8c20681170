-- ===== src/Host/Devices.antt =====
-- host_linux.go: the device nodes beside /dev/kvm, and the host's packet filter.
pub mod Effect
use fc_preflight.Prelude.{ℕ, Bool, Option, none, some, List, [], ◌∷◌, ◌++◌, if◌then◌else◌}
use fc_preflight.Text.{Bytes, codes, contains, trim_space, join}
use fc_preflight.Text.Quote.{quote}
use fc_preflight.Status.{Status}
use fc_preflight.Report.{Check, ◌>>◌, done, addf, fail, warn, open_fd, close_fd}
use fc_preflight.Host.Machine.{OsError, is_not_exist, ok, err, Output, Machine}

pub check_tun : Machine → Check
check_tun m = elim (m.open_rw (codes "/dev/net/tun")) [
  | ok fd ↦ do
    open_fd fd
    close_fd fd
    addf (codes "host.tun") (codes "/dev/net/tun openable") Status.pass
        (codes "tap devices can be created")
  | err e ↦
      if is_not_exist e
      then fail (codes "host.tun") (codes "/dev/net/tun openable") e.message (
          codes
            "Firecracker gives each microVM a tap device. Load the 'tun' module (modprobe tun).")
      else warn (codes "host.tun") (codes "/dev/net/tun openable") e.message (
          codes
            "The node exists but this user cannot open it. Needs CAP_NET_ADMIN; the boot stage runs as root.")
]

pub check_vhost_vsock : Machine → Check
check_vhost_vsock m = elim (m.stat (codes "/dev/vhost-vsock")) [
  | ok fi ↦ addf (codes "host.vhost_vsock") (codes "/dev/vhost-vsock present") Status.info (
      codes "available; note Firecracker does not use it -- its vsock is a host-side Unix socket, "
      ++ codes "so this matters only for other VMMs")
  | err e ↦ addf (codes "host.vhost_vsock") (codes "/dev/vhost-vsock present") Status.info (
      codes "absent, which does not affect Firecracker: its vsock device is a host-side Unix "
      ++ (codes "socket and needs no host kernel module. The guest kernel still needs "
          ++ codes
              "CONFIG_VIRTIO_VSOCKETS, which is a property of the guest image, not of this host"))
]

nbd_module : Output → OsError → Check
nbd_module probe e = elim probe.failure [
  | none ↦
      addf (codes "host.nbd") (codes "/dev/nbd0 present") Status.pass (
        codes "not loaded, but the nbd module is available (modprobe nbd): "
        ++ trim_space probe.out)
  | some lderr ↦ warn (codes "host.nbd") (codes "/dev/nbd0 present") e.message (
      codes "Fly's workload storage is backed by network block devices. Load the nbd module "
      ++ codes "(modprobe nbd). Not needed to boot a microVM, so the boot stage still passes.")
]

pub check_nbd : Machine → Check
unfolding nbd_module
check_nbd m = elim (m.stat (codes "/dev/nbd0")) [
  | ok fi ↦
      addf (codes "host.nbd") (codes "/dev/nbd0 present") Status.pass
        (codes "network block devices available")
  | err e ↦ nbd_module (m.run (codes "modprobe") (codes "-n" ∷ codes "nbd" ∷ [])) e
]

pub check_nftables : Machine → Check
check_nftables m = elim (m.look_path (codes "nft")) [
  | ok path ↦
      addf (codes "host.nftables") (codes "nftables available") Status.pass (codes "nft present")
  | err e ↦
      warn (codes "host.nftables") (codes "nftables available") (codes "nft not found in PATH")
        (codes "Install nftables. Guest egress filtering and NAT are built on it.")
]

pub check_cpuid : Machine → Check
check_cpuid m = elim (m.stat (codes "/dev/cpu/0/cpuid")) [
  | ok fi ↦
      addf (codes "host.cpuid_dev") (codes "/dev/cpu/0/cpuid present") Status.info
        (codes "raw CPUID readable for exact host comparison")
  | err e ↦ done
]

-- checkDevices
pub check_devices : Machine → Check
check_devices m = do check_tun m; check_vhost_vsock m; check_nbd m; check_nftables m; check_cpuid m

-- One of the packet filters that are asked: the program, its arguments, and the texts of a
-- default-deny policy.
pub record Probe : Type 0 where
  pub name : Bytes
  pub program : Bytes
  pub args : List Bytes
  pub deny : List Bytes

unfoldable pub firewall_probes : List Probe
firewall_probes =
    (record {
      name = codes "nftables";
      program = codes "nft";
      args = codes "list" ∷ codes "ruleset" ∷ [];
      deny = codes "policy drop" ∷ [];
    })
    ∷ (record {
      name = codes "iptables";
      program = codes "iptables";
      args = codes "-S" ∷ [];
      deny = codes "-P INPUT DROP" ∷ codes "-P FORWARD DROP" ∷ [];
    })
    ∷ []

-- The loop over `p.deny`, which stops at the first text that it finds.
deny_match : Bytes → Bytes → List Bytes → List Bytes
deny_match name text [] = []
deny_match name text (d ∷ ds) =
    let rest = deny_match name text ds in
    if contains text d then (name ++ (codes " (" ++ (quote d ++ codes ")"))) ∷ [] else rest

output_match : Probe → Output → List Bytes
unfolding deny_match
output_match p o = elim o.failure [ none ↦ deny_match p.name o.out p.deny | some e ↦ [] ]

-- What one round of the loop appends to `found`.
probe_match : Machine → Probe → List Bytes
unfolding output_match
probe_match m p = elim (m.look_path p.program) [
  | err e ↦ []
  | ok path ↦ output_match p (m.run path p.args)
]

pub probe_matches : Machine → List Probe → List Bytes
unfolding probe_match
probe_matches m [] = []
probe_matches m (p ∷ ps) = probe_match m p ++ probe_matches m ps

pub report_firewall : List Bytes → Check
report_firewall [] =
    addf (codes "host.firewall") (codes "Host packet filter") Status.pass
      (codes "no default-deny input path found that would block guest traffic")
report_firewall (f ∷ found) =
    warn (codes "host.firewall") (codes "Host packet filter")
      (codes "a default-deny policy is present: " ++ join (f ∷ found) (codes ", "))
      (codes
          "The boot stage gives each microVM a tap device and has the guest talk to the host over "
        ++ (codes
              "it. A default-deny input chain, or a rule dropping RFC1918 destinations, will block "
            ++ (codes
                  "that and the guest networking check will fail on an otherwise healthy host. Either "
                ++ (codes
                      "allow the guest range (see -guest-net, default 172.31.240.0/22) on the tap "
                    ++ (codes
                          "interfaces, or move the guests to a range your policy permits. This is a warning, "
                        ++ codes "not a failure: the policy may well be intentional.")))))

-- checkHostFirewall
pub check_host_firewall : Machine → Check
check_host_firewall m = report_firewall (probe_matches m firewall_probes)
