-- ===== src/Guest/Init/Outlet.antt =====
-- guest_linux.go: the report that runGuest puts on the console, and what bootOne reads there.
use fc_preflight.Prelude.{
  ℕ, ◌+◌, ◌≤◌, Bool, not, ◌||◌, Option, none, some, List, [], ◌∷◌, ◌++◌, ◌≡◌, refl, sym, ap, ◌∙◌,
  false, arith, any, Bool-cases, inl, inr,
}
use fc_preflight.Float.{Float64}
use fc_preflight.Text.{Bytes, is_empty}
use fc_preflight.Text.Number.{itoa_ℤ}
use fc_preflight.Boot.Tap.Devices.{is_none}
use fc_preflight.Console.{report_prefix}
use fc_preflight.Guest.Types.{GuestReport}
use mathlib.Core.Option.{some-injective}
use fc_preflight.Guest.Cmdline.{Settings, initial_settings, parse_guest_cmdline}
use fc_preflight.Guest.Net.{Measured}
use fc_preflight.Guest.Net.Dial.{is_blocked, measure_net-some}
use fc_preflight.Guest.Disk.{DiskSpeed, measure_disk}
use fc_preflight.Guest.Disk.Offsets.{measure_disk-all_fit}
use fc_preflight.Guest.Survey.{GuestWorld, GuestState, guest_log, mounts, mount_errors, surveyed}
use fc_preflight.Guest.Init.{
  survey_log, log_all, note_disk, note_net, net_run, after_configure, measure_network,
  log_net_error, no_errors, write_report, conclude_guest, after_disk, run_guest,
}

-- A mount that fails.
abbrev pub refuses : (Bytes → Bytes → Bytes → Option Bytes) → Bytes × Bytes × Bytes → Bool
refuses mount m = not (is_none (mount m.0 m.1 m.2))

no_errors-mount_errors :
    (w : GuestWorld) (ms : List (Bytes × Bytes × Bytes))
    → no_errors w (mount_errors w.mount ms) ≡ not (any (refuses w.mount) ms)
unfolding mount_errors
no_errors-mount_errors w [] = refl
no_errors-mount_errors w ((src, dst, fs) ∷ ms) = ground (arith, no_errors-mount_errors w ms)

module _ (w : GuestWorld) where
  -- The last line of a state is the line of its report.
  LastLine : GuestState → Type 0
  LastLine st =
      (logs : List Bytes) × (rep : GuestReport) × (st
        ≡ record { report = rep; lines = logs ++ (report_prefix ++ w.marshal rep) ∷ [] })

  last_line :
      (before : Option GuestState) (st : GuestState)
      → conclude_guest w before ≡ some st
      → LastLine st
  unfolding conclude_guest write_report LastLine
  last_line none st e = absurd (cc e)
  last_line (some before) st e = (_, _, sym (some-injective _ _ e))

  behind_disk :
      (set : Settings) (s : Option DiskSpeed) (before st : GuestState)
      → after_disk w set s before ≡ some st
      → LastLine st
  unfolding after_disk
  behind_disk set none before st e = absurd (cc e)
  behind_disk set (some s) before st e = last_line _ st e

  -- Where runGuest comes to its end, the last line that it prints is the prefix with the report.
  pub run_guest-last :
      (st : GuestState)
      → run_guest w ≡ some st
      → (logs : List Bytes) × (rep : GuestReport) × (st
          ≡ record { report = rep; lines = logs ++ (report_prefix ++ w.marshal rep) ∷ [] })
  unfolding run_guest LastLine
  run_guest-last st e =
      let set : Settings = parse_guest_cmdline (surveyed w).cmdline initial_settings in
      behind_disk set
        (measure_disk w.ops w.write_seconds w.read_seconds w.drive 33 w.open_file set.guest_disk).0
        (log_all w (survey_log w (surveyed w)) (record { report = surveyed w; lines = [] })) st e

module _ (w : GuestWorld) (sleeps : (i : ℕ) → w.now i + 100 ≤ w.now (i + 1))
    (begun : w.dial_start ≤ w.now 0) (writes : (i : ℕ) → is_blocked (w.conn.write_one i) ≡ false)
    (reads : (i : ℕ) → is_blocked (w.conn.read_one i) ≡ false)
    (sends : (i : ℕ) → is_blocked (w.conn.write_block i) ≡ false) where
  net_run-some : (set : Settings) → (m : Measured) × (net_run w set ≡ some m)
  unfolding net_run
  net_run-some set =
      let addr : Bytes = w.join_host_port set.host_ip (itoa_ℤ set.guest_port) in
      measure_net-some w.ops w.ping_micros w.send_seconds (w.dial addr) w.now w.conn w.dial_start
        addr sleeps begun writes reads sends

  -- A state with the errors of another.
  abbrev Follows : GuestState → Option GuestState → Type 0
  Follows st next = (st' : GuestState) × (next ≡ some st') × (st'.report.errors ≡ st.report.errors)

  errors-note_net :
      (rtt tput : Float64) (e : Option Bytes) (st : GuestState)
      → (note_net w rtt tput e st).report.errors ≡ st.report.errors
  unfolding note_net guest_log
  errors-note_net rtt tput none st = refl
  errors-note_net rtt tput (some e) st = refl

  errors-note_disk :
      (write read : Float64) (e : Option Bytes) (st : GuestState)
      → (note_disk w write read e st).report.errors ≡ st.report.errors
  unfolding note_disk guest_log
  errors-note_disk write read none st = refl
  errors-note_disk write read (some e) st = refl

  errors-log_all :
      (texts : List Bytes) (st : GuestState) → (log_all w texts st).report.errors ≡ st.report.errors
  unfolding log_all guest_log
  errors-log_all [] st = refl
  errors-log_all (t ∷ ts) st = errors-log_all ts (guest_log t st)

  errors-after_configure :
      (set : Settings) (e : Option Bytes) (m : Measured) (st : GuestState)
      → Follows st (after_configure w set e (some m) st)
  unfolding after_configure
  errors-after_configure set (some e) m st = (_, refl, refl)
  errors-after_configure set none m st =
      (_, refl, errors-note_net m.rtt_us m.throughput_mbps m.error st)

  errors-measure_network :
      (set : Settings) (st : GuestState) → Follows st (measure_network w set st)
  unfolding measure_network
  errors-measure_network set st =
      elim (Bool-cases (is_empty set.guest_ip || is_empty set.host_ip)) [
        | inl t ↦ rw (t, measure_network) (_, refl, refl)
        | inr t ↦
            let (m, e) = net_run-some set in
            rw (t, e, measure_network) (errors-after_configure set _ m st)
      ]

  -- A state whose last line is the line of its report, whose `ok` says that there are no errors.
  abbrev Reports : List Bytes → Option GuestState → Type 0
  Reports errors end =
      (logs : List Bytes) × (rep : GuestReport) × (end
        ≡ some (record { report = rep; lines = logs ++ (report_prefix ++ w.marshal rep) ∷ [] }))
      × (rep.errors ≡ errors)
      × (rep.ok ≡ no_errors w errors)

  report-log_net_error : (st : GuestState) → (log_net_error w st).report ≡ st.report
  unfolding log_net_error guest_log
  report-log_net_error st = elim (Bool-cases (is_empty st.report.net_error)) [
    | inl t ↦ rw (t, log_net_error) refl
    | inr t ↦ rw (t, log_net_error) refl
  ]

  concludes :
      (errors : List Bytes) (st : GuestState)
      → st.report.errors ≡ errors
      → Reports errors (conclude_guest w (some st))
  unfolding conclude_guest write_report
  concludes errors st h =
      let same : (log_net_error w st).report.errors ≡ errors =
        ap (λ (r : GuestReport). r.errors) (report-log_net_error st) ∙ h in
      (
        (log_net_error w st).lines,
        record (log_net_error w st).report { ok = no_errors w (log_net_error w st).report.errors },
        refl,
        same,
        ap (no_errors w) same,
      )

  ends_after_disk :
      (set : Settings) (s : DiskSpeed) (st : GuestState)
      → Reports st.report.errors (after_disk w set (some s) st)
  unfolding after_disk
  ends_after_disk set s st =
      let noted : GuestState = note_disk w s.write_mbps s.read_mbps s.error st in
      let (st', e, h) = errors-measure_network set noted in
      rw e
        (concludes st.report.errors st' (h ∙ errors-note_disk s.write_mbps s.read_mbps s.error st))

  -- If the error of each dial is looked at at least 100 ms after that of the dial before, and every
  -- read and write of the connection returns, as the other calls are taken to, runGuest comes to its
  -- end whatever else fails: the last line that it prints is the prefix with the report, whose errors
  -- are those of the mounts and which is ok exactly if all four of them succeed.
  pub run_guest-reports :
      (logs : List Bytes) × (rep : GuestReport) × (run_guest w
        ≡ some (record { report = rep; lines = logs ++ (report_prefix ++ w.marshal rep) ∷ [] }))
      × (rep.errors ≡ mount_errors w.mount mounts)
      × (rep.ok ≡ not (any (refuses w.mount) mounts))
  unfolding run_guest surveyed
  run_guest-reports =
      let set : Settings = parse_guest_cmdline (surveyed w).cmdline initial_settings in
      let st : GuestState =
        log_all w (survey_log w (surveyed w)) (record { report = surveyed w; lines = [] }) in
      let (s, e, fit, done) =
        measure_disk-all_fit w.ops w.write_seconds w.read_seconds w.drive w.open_file
          set.guest_disk in
      let (logs, rep, r, p, q) = ends_after_disk set s st in
      let same : st.report.errors ≡ mount_errors w.mount mounts =
        errors-log_all (survey_log w (surveyed w)) (record { report = surveyed w; lines = [] }) in
      (
        logs,
        rep,
        ap (λ (d : Option DiskSpeed). after_disk w set d st) e ∙ r,
        p ∙ same,
        q ∙ ap (no_errors w) same ∙ no_errors-mount_errors w mounts,
      )
