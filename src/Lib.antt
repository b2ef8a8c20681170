-- ===== src/Lib.antt =====
-- fc-preflight: can this host run Firecracker microVMs the way Fly runs them?
--
-- The program (package main, Go) runs checks of the host, boots microVMs, and writes a report with a
-- verdict. This library models it file by file, every definition from the source:
--
--   report.go       Status, Report: the results, the methods that add to them, the tally of Finish.
--                   Report/Render: the text report. Report/Seen has what the methods do to a test on
--                   results, Report/Verdict the verdict.
--   main.go         Gate: hasBlockingKVMFailure. Main: hasArg, the stages, the exit code; Main/Exit has
--                   what the exit code of the preflight and the code 0 say, Main/Verdict the exit code
--                   of a run with the boot stage.
--   kvm_linux.go    Kvm, Kvm/Caps: checkKVM from the device node to a vCPU. Kvm/Effect says what it
--                   adds to a report, Kvm/Blocking and Kvm/Descriptors draw on that.
--   host_linux.go   Host: Machine (the answers of the machine), Platform, Virt, Cpu, Tuning, Devices,
--                   Syscalls, Memory, Config, and Preflight, which runs them in order.
--   initramfs.go    Initramfs: the cpio writer. Initramfs/Reader is a reader written from the newc
--                   format, Initramfs/Layout and Initramfs/RoundTrip compare the two.
--   boot_linux.go   GuestNet: the addresses of the microVMs and -guest-net, compared in GuestNet/Ranges.
--                   BootArgs: the kernel command line of bootOne. Artifact: resolveArtifact and the
--                   extraction from an archive, over a store of files. Console: the loop on the
--                   console, the outcome that it leaves, diagnoseConsole; Console/Tail has the lines
--                   that are kept, Console/Index the index of the outcome, Console/Reason the outcomes that
--                   count as failed. Boot: how
--                   runBootStage collects the outcomes, and the check boot.launch of judgeOutcomes;
--                   Boot/Judge has the rest of it, from the figures in Boot/Figures. Boot/Stage is
--                   runBootStage, with the pinned artifacts in Boot/Pins, elfInterpreter in Boot/Elf,
--                   and in Boot/Flow what the stage reads and a small monad for its early returns;
--                   Boot/Stage/Fails describes when it fails, Boot/Stage/Ends, Boot/Stage/Inside and
--                   Boot/Stage/Verdict compare, Boot/Stage/Outcomes is on the order of the outcomes,
--                   Boot/Stage/Temps on its directory. Boot/Tap is
--                   setupTap and teardownTap, Boot/One is bootOne, both over a trace of what they do; Boot/Tap/Devices, Boot/One/Course, Boot/One/Release and
--                   Boot/One/Apart draw on the trace.
--   unsupported.go  Main: the stub of runGuest.
--   guest_linux.go  Guest/Types: the report of a guest and the outcome of a microVM. Guest/Cmdline:
--                   parseGuestCmdline, with BootArgs in Guest/Cmdline/RoundTrip. Guest/Interface is
--                   configureGuestNet, Guest/Net measureNet, Guest/Disk measureDisk; Guest/Survey has
--                   what runGuest reads first, with the links of devices in
--                   Guest/Survey/Drivers, Guest/Init the rest of it. Guest/Init/Outlet is on the
--                   report line, Guest/Init/Heard takes its console to the loop of bootOne, and
--                   Guest/Init/Dials takes bootOne's addresses to its network.
--
-- main runs the preflight, tests its report with the gate, and gives the report on to runBootStage,
-- for what that stage finds at the base of the range which resolveGuestNet has given. The boot stage
-- runs bootOne for each microVM, over a trace of its own that its surroundings may answer in any way,
-- and collects the outcomes in the order in which the channel delivers them (BootWorld.arrive).
-- BootArgs carries addresses from the base to the guest.
--
-- A check is a function on the report, written as a do block; an early return is a branch. Files,
-- devices, system calls and programs are the fields of the record Machine, so a theorem about a
-- check holds for every machine. Calls repeated within one run get the same answer. The report also
-- carries what Add streams to stderr and the descriptors that are open.
--
-- Text is a list of bytes (Text), with the functions of strings, strconv, bufio and fmt that the
-- program calls. White space and case are those of ASCII. Numbers are natural numbers, int is ℤ
-- with the bounds of 64 bits where text is parsed, and a uint32 is kept below 2^32 by %. A float64
-- is its bits (Float).
--
-- Fuel: the rounds of cpioWriter.pad are at most three, and four are given; decimal and hexadecimal
-- printing recur on a number above their argument; the archive reader recurs on the entries left.
-- The loops of measureDisk have 32 rounds and a test, and fuel for 33. The loop of dials in measureNet
-- sleeps 100 ms in a round and gives up after 10 s, so fuel for 102 dials is enough; a run without
-- enough fuel is a value of its own.
--
-- A panic is a value: `none` for a `make` that cannot allot, for an index out of range, for
-- judgeOutcomes and for the boot stage, which main turns into the exit code 2 of the Go runtime. A read
-- or a write of the guest's connection may never return, which is a value as well: measureNet and
-- runGuest are `none` then. The other calls of the surroundings are taken to return. The answers of the machine, of `ip`, of the kernel's ioctl and of the drive are
-- functions, in bootOne and in the guest of the events so far.
--
-- The listener of the echo server is closed by a goroutine some time after its context is cancelled; a
-- trace has the cancellation. What flag.Parse comes to (the flags, the help, a usage error) is an
-- argument of main's model.
--
-- Not modelled: the syntax of flags and the usage text, WriteJSON (encoding/json), the bodies of the loops
-- that only spend time in the guest's measurements (the time they took is a parameter), the copying of
-- the echo server and the reader beside the blocks of measureNet, the reset of the guest, what -v
-- prints of a console, and the stubs of unsupported.go that are never called. net.ParseCIDR, net.ParseIP, JSON,
-- SHA-256, HTTP, gzip, tar, debug/elf and the arithmetic of floats are parameters. os.Remove of a
-- download, of an archive and of the scratch drive is taken to succeed, and so is os.RemoveAll.
pub mod Prelude
pub mod Text
pub mod Float
pub mod Guest
pub mod Status
pub mod Report
pub mod Initramfs
pub mod Artifact
pub mod Console
pub mod Gate
pub mod GuestNet
pub mod Boot
pub mod BootArgs
pub mod Host
pub mod Kvm
pub mod Main
mod Tests
