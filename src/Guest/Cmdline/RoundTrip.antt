-- ===== src/Guest/Cmdline/RoundTrip.antt =====
-- boot_linux.go and guest_linux.go: the guest reads the settings that the host appended.
use fc_preflight.Prelude.{
  ℕ, ◌+◌, ◌%◌, ◌^◌, List, [], ◌∷◌, ◌++◌, ◌≡◌, refl, ◌∙◌, ap, All-append, append_assoc, false,
}
use fc_preflight.Prelude.Int.{pos}
use fc_preflight.Text.{Bytes, codes, is_space}
use fc_preflight.Text.Fields.{fields, IsWord, fields-blank, fields-parameter, any-IsWord}
use fc_preflight.Text.Number.{itoa, atoi}
use fc_preflight.Text.Number.Decimal.{itoa-IsWord}
use fc_preflight.GuestNet.{ip_string, vm_guest_ip, vm_host_ip, vm_base, octet}
use fc_preflight.BootArgs.{boot_args, guest_netmask, echo_port}
use fc_preflight.Guest.Cmdline.{
  Settings, apply_field, apply_fields, set_parameter, parse_guest_cmdline,
}

apply_fields-append :
    (xs ys : List Bytes) (st : Settings)
    → apply_fields (xs ++ ys) st ≡ apply_fields ys (apply_fields xs st)
unfolding apply_fields
apply_fields-append [] ys st = refl
apply_fields-append (x ∷ xs) ys st = apply_fields-append xs ys (apply_field x st)

IsWord-dot : (s : Bytes) (n : ℕ) → IsWord s → IsWord (s ++ codes "." ++ itoa n)
unfolding codes
IsWord-dot s n h =
    All-append (λ c. is_space c ≡ false) (s ++ codes ".") (itoa n)
      (All-append (λ c. is_space c ≡ false) s (codes ".") h (refl, tt)) (itoa-IsWord n)

ip_string-IsWord : (v : ℕ) → IsWord (ip_string v)
unfolding ip_string
ip_string-IsWord v =
    IsWord-dot _ (octet v 0)
      (IsWord-dot _ (octet v 8) (IsWord-dot _ (octet v 16) (itoa-IsWord (octet v 24))))

-- The parameters that the host appends, one word each.
abbrev parameters : Bytes → Bytes → List Bytes
unfolding codes
parameters ip host =
    (codes "fcpf.ip=" ++ ip)
    ∷ codes "fcpf.mask=255.255.255.252"
    ∷ (codes "fcpf.host=" ++ host)
    ∷ codes "fcpf.port=52345"
    ∷ codes "fcpf.disk=/dev/vda"
    ∷ []

-- The text that the host appends, behind its first blank.
abbrev appended : Bytes → Bytes → Bytes
appended ip host =
    codes "fcpf.ip="
    ++ (ip
        ++ (codes " fcpf.mask=255.255.255.252 fcpf.host="
            ++ (host ++ codes " fcpf.port=52345 fcpf.disk=/dev/vda")))

fields-parameters :
    (ip host : Bytes) → IsWord ip → IsWord host → fields (appended ip host) ≡ parameters ip host
unfolding codes fields
fields-parameters ip host hi hh =
    fields-parameter b'f' (codes "cpf.ip=") ip _ refl hi
    ∙ ap (◌∷◌ (codes "fcpf.ip=" ++ ip)) (
        fields-parameter b'f' (codes "cpf.mask=") guest_netmask
          (codes "fcpf.host=" ++ (host ++ codes " fcpf.port=52345 fcpf.disk=/dev/vda")) refl
          (any-IsWord guest_netmask refl)
        ∙ ap (◌∷◌ (codes "fcpf.mask=255.255.255.252")) (
            fields-parameter b'f' (codes "cpf.host=") host
              (codes "fcpf.port=52345 fcpf.disk=/dev/vda") refl hh
            ∙ ap (◌∷◌ (codes "fcpf.host=" ++ host)) refl))

boot_args-appended :
    (flag_boot_args : Bytes) (base i : ℕ)
    → boot_args flag_boot_args base i
      ≡ flag_boot_args ++ 32 ∷ appended (vm_guest_ip base i) (vm_host_ip base i)
unfolding boot_args codes itoa
boot_args-appended flag_boot_args base i = simp append_assoc

apply_fields-parameters :
    (ip host : Bytes) (st : Settings)
    → apply_fields (parameters ip host) st ≡ record st {
      guest_ip = ip;
      guest_mask = guest_netmask;
      host_ip = host;
      guest_port = pos echo_port;
      guest_disk = codes "/dev/vda";
    }
unfolding apply_fields apply_field set_parameter atoi codes
apply_fields-parameters ip host st = refl

-- With any -boot-args of the user in front, the guest's settings are those that the user's arguments
-- give, except that the address, the mask, the host's address, the port and the disk are the ones
-- that the host chose for this microVM.
pub parse_guest_cmdline-boot_args :
    (flag_boot_args : Bytes) (base i : ℕ) (st : Settings)
    → parse_guest_cmdline (boot_args flag_boot_args base i) st
      ≡ record (parse_guest_cmdline flag_boot_args st) {
        guest_ip = vm_guest_ip base i;
        guest_mask = guest_netmask;
        host_ip = vm_host_ip base i;
        guest_port = pos echo_port;
        guest_disk = codes "/dev/vda";
      }
unfolding parse_guest_cmdline vm_guest_ip vm_host_ip
parse_guest_cmdline-boot_args flag_boot_args base i st =
    let ip = vm_guest_ip base i in
    let host = vm_host_ip base i in
    ap (λ fs. apply_fields fs st)
      (ap fields (boot_args-appended flag_boot_args base i)
        ∙ fields-blank flag_boot_args (appended ip host)
        ∙ ap (◌++◌ (fields flag_boot_args)) (
            fields-parameters ip host (ip_string-IsWord ((vm_base base i + 2) % 2 ^ 32))
              (ip_string-IsWord ((vm_base base i + 1) % 2 ^ 32))))
    ∙ apply_fields-append (fields flag_boot_args) (parameters ip host) st
    ∙ apply_fields-parameters ip host (parse_guest_cmdline flag_boot_args st)
