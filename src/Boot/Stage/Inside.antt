-- ===== src/Boot/Stage/Inside.antt =====
-- boot_linux.go: how the boot stage ends from the program's own path on.
use fc_preflight.Prelude.{Bool, true, false, ◌||◌, ◌&&◌, Option, none, some, List, ◌∷◌, ◌≡◌}
use fc_preflight.Text.{Bytes, codes}
use fc_preflight.Report.Serious.{check_laws}
use fc_preflight.Host.Machine.{Outcome, ok, err, OsError}
use fc_preflight.Initramfs.{build_initramfs}
use fc_preflight.Guest.Types.{VmOutcome}
use fc_preflight.Boot.Elf.{Interpreter, elf_interpreter}
use fc_preflight.Boot.Flow.{BootFlags, BootWorld, BootState, ◌>>=◌, ◌>>◌, remove_dir, outcome_of}
use fc_preflight.Boot.Stage.Fails.{dynamic, outcomes_fail, pack_fails, dir_fails, bytes_fail}
use fc_preflight.Boot.Stage.Ends.{Ends, Booted, judge-Ends, remove-Ends, noted, failing}
use fc_preflight.Boot.Stage.{
  boot_all, judge, packed_note, linkage_unknown, linkage_static, pack, packed, made_dir, read_self,
  located_self, boot_in, in_dir, make_dir, own_bytes, judge_linkage, boot_self,
}

module _ (w : BootWorld) (flags : BootFlags) where
  module _ (a b : Bool) where
    module _
        (boots : (fc_bin kernel initramfs dir : Bytes)
          → Booted w flags (outcome_of w flags fc_bin kernel initramfs dir)) where
      outcomes-Ends :
          (outcomes : Option (List VmOutcome)) (o : VmOutcome) (os : List VmOutcome)
          (st : BootState)
          → outcomes ≡ some (o ∷ os)
          → Ends a b (outcomes_fail outcomes && a) st.report (judge w flags outcomes st)
      outcomes-Ends outcomes o os st e = rw e (judge-Ends a b w flags o os st)

      -- The boots in a directory, and what they come to.
      abbrev launch : Bytes → Bytes → Bytes → Option (List VmOutcome)
      launch fc_bin kernel dir =
          boot_all w flags
            (outcome_of w flags fc_bin kernel (w.path_join dir (codes "initramfs.cpio")) dir)
            flags.vms

      after_pack :
          (answer : Option OsError) (fc_bin kernel bytes dir : Bytes) (st : BootState)
          → Ends a b
              ((elim answer [ some e ↦ true | none ↦ outcomes_fail (launch fc_bin kernel dir) ])
                && a)
              st.report
              ((packed w flags answer bytes >> judge w flags (launch fc_bin kernel dir)) st)
      unfolding packed
      after_pack (some e) fc_bin kernel bytes dir st = failing a b _ _ _ _ st
      after_pack none fc_bin kernel bytes dir st =
          noted a b tt (packed_note w flags bytes) (λ _. judge w flags (launch fc_bin kernel dir))
            (outcomes_fail (launch fc_bin kernel dir) && a) st (simp check_laws)
            (λ next. let (o, os, e) = boots fc_bin kernel _ dir in outcomes-Ends _ o os next e)

      boot_in-Ends :
          (fc_bin kernel bytes dir : Bytes) (st : BootState)
          → Ends a b
              (pack_fails w flags fc_bin kernel bytes dir && a)
              st.report
              (boot_in w flags fc_bin kernel bytes dir st)
      unfolding boot_in pack
      boot_in-Ends fc_bin kernel bytes dir st =
          after_pack
            (w.write_file (w.path_join dir (codes "initramfs.cpio")) (build_initramfs bytes)) fc_bin
            kernel bytes dir st

      after_dir :
          (answer : Outcome Bytes) (fc_bin kernel bytes : Bytes) (st : BootState)
          → Ends a b
              ((elim answer [ err e ↦ true | ok dir ↦ pack_fails w flags fc_bin kernel bytes dir ])
                && a)
              st.report
              ((made_dir w flags answer >>= λ dir inside.
                  remove_dir dir (boot_in w flags fc_bin kernel bytes dir inside))
                st)
      unfolding made_dir
      after_dir (err e) fc_bin kernel bytes st = failing a b _ _ _ _ st
      after_dir (ok dir) fc_bin kernel bytes st =
          remove-Ends a b (pack_fails w flags fc_bin kernel bytes dir && a) st.report dir _
            (boot_in-Ends fc_bin kernel bytes dir (record st { temps = dir ∷ st.temps }))

      in_dir-Ends :
          (fc_bin kernel bytes : Bytes) (st : BootState)
          → Ends a b
              (dir_fails w flags fc_bin kernel bytes && a)
              st.report
              (in_dir w flags fc_bin kernel bytes st)
      unfolding in_dir make_dir
      in_dir-Ends fc_bin kernel bytes st = after_dir w.mkdir_temp fc_bin kernel bytes st

      after_read :
          (answer : Outcome Bytes) (fc_bin kernel : Bytes) (st : BootState)
          → Ends a b
              ((elim answer [ err e ↦ true | ok bytes ↦ dir_fails w flags fc_bin kernel bytes ])
                && a)
              st.report
              ((read_self w flags answer >>= λ bytes. in_dir w flags fc_bin kernel bytes) st)
      unfolding read_self
      after_read (err e) fc_bin kernel st = failing a b _ _ _ _ st
      after_read (ok bytes) fc_bin kernel st = in_dir-Ends fc_bin kernel bytes st

      after_linkage :
          (answer : Outcome Interpreter) (fc_bin kernel self : Bytes) (st : BootState)
          → Ends a b ((dynamic answer || bytes_fail w flags fc_bin kernel self) && a) st.report (
              (do
                judge_linkage w flags answer
                bytes ← own_bytes w flags self
                in_dir w flags fc_bin kernel bytes)
                st)
      unfolding judge_linkage own_bytes
      after_linkage (err e) fc_bin kernel self st =
          noted a b tt (linkage_unknown w flags e)
            (λ _. own_bytes w flags self >>= λ bytes. in_dir w flags fc_bin kernel bytes)
            (bytes_fail w flags fc_bin kernel self && a) st (simp check_laws)
            (after_read (w.read_file self) fc_bin kernel)
      after_linkage (ok (interp, true)) fc_bin kernel self st = failing a b _ _ _ _ st
      after_linkage (ok (interp, false)) fc_bin kernel self st =
          noted a b tt (linkage_static w flags)
            (λ _. own_bytes w flags self >>= λ bytes. in_dir w flags fc_bin kernel bytes)
            (bytes_fail w flags fc_bin kernel self && a) st (simp check_laws)
            (after_read (w.read_file self) fc_bin kernel)

      pub after_self :
          (answer : Outcome Bytes) (fc_bin kernel : Bytes) (st : BootState)
          → Ends a b
              ((elim answer [
                | err e ↦ true
                | ok self ↦
                    dynamic (elf_interpreter (w.open_elf self))
                    || bytes_fail w flags fc_bin kernel self
              ])
                && a)
              st.report
              ((located_self w flags answer >>= λ self. boot_self w flags fc_bin kernel self) st)
      unfolding located_self boot_self
      after_self (err e) fc_bin kernel st = failing a b _ _ _ _ st
      after_self (ok self) fc_bin kernel st =
          after_linkage (elf_interpreter (w.open_elf self)) fc_bin kernel self st
