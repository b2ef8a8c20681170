-- ===== src/Report.antt =====
-- report.go: the results of a run, how a check adds to them, and the verdict.
pub mod Verdict
pub mod Render
pub mod Seen
pub mod Serious
use fc_preflight.Prelude.{
  ℕ, zero, suc, ◌+◌, Bool, true, false, not, ◌&&◌, Option, List, [], ◌∷◌, ◌++◌, map, if◌then◌else◌,
}
use fc_preflight.Prelude.Int.{ℤ}
use fc_preflight.Text.{Bytes, codes, is_empty, pad_right, split, join, trim_right}
use fc_preflight.Float.{Float64}
use fc_preflight.Guest.Types.{VmOutcome}
use fc_preflight.Status.{Status, same}
use fc_preflight.Prelude.{◌==◌}

-- The values that the program puts into `Data`, a `map[string]any`.
pub data Datum : Type 0 where
  text : Bytes → Datum
  number : ℤ → Datum
  flag : Bool → Datum
  float : Float64 → Datum
  texts : List Bytes → Datum
  counts : List (Bytes × ℤ) → Datum
  vms : List VmOutcome → Datum

pub record Result : Type 0 where
  pub id : Bytes
  pub title : Bytes
  pub status : Status
  pub detail : Bytes
  pub values : List (Bytes × Datum)
  pub remedy : Bytes

-- The last three fields are the state of the process beside the report: `verbose` is the flag that
-- `Add` reads, `streamed` the lines that it has written to stderr, and `open_fds` the descriptors
-- that the checks hold open.
pub record Report : Type 0 where
  pub schema : Bytes
  pub tool : Bytes
  pub started_at : Bytes
  pub duration : Bytes
  pub hostname : Bytes
  pub verdict : Status
  pub summary : Status → ℕ
  pub results : List Result
  pub verbose : Bool
  pub streamed : List Bytes
  pub open_fds : List ℕ

abbrev pub version : Bytes
version = codes "0.1.4"

-- The host name and the time are the run's. A Go string starts empty, a map at nil.
unfoldable pub new_report : Bytes → Bytes → Bool → Report
new_report hostname now verbose = record {
  schema = codes "fly.fc-preflight/v1";
  tool = version;
  started_at = now;
  duration = [];
  hostname = hostname;
  verdict = Status.unset;
  summary = λ s. 0;
  results = [];
  verbose = verbose;
  streamed = [];
  open_fds = [];
}

-- The mark of a status in the text report.
unfoldable pub mark : Status → Bytes
mark Status.unset = []
mark Status.pass = codes "  ok  "
mark Status.fail = codes " FAIL "
mark Status.warn = codes " warn "
mark Status.info = codes " info "
mark Status.skip = codes " skip "
mark Status.blocked = codes "BLOCKED"

abbrev newline : ℕ → Bool
newline c = c == 10

unfoldable pub indent : Bytes → Bytes → Bytes
indent s pad = join (map (λ l. pad ++ l) (split (trim_right newline s) 10)) (10 ∷ [])

unfoldable pub render_one : Result → Bytes
unfolding mark
render_one res =
    let line =
      b'[' ∷ (mark res.status ++ (codes "] " ++ (pad_right 34 res.id ++ (32 ∷ res.title)))) in
    let pad = codes "                " in
    let detailed = if is_empty res.detail then line else line ++ (10 ∷ indent res.detail pad) in
    if is_empty res.remedy
    then detailed
    else detailed ++ (10 ∷ indent (codes "-> " ++ res.remedy) pad)

unfoldable pub add : Report → Result → Report
add r res = record r {
  results = r.results ++ res ∷ [];
  streamed = if r.verbose then r.streamed ++ render_one res ∷ [] else r.streamed;
}

-- A check, or a part of one: what it does to the report.
abbrev pub Check : Type 0
Check = Report → Report

infixl 5 ◌>>◌
abbrev pub ◌>>◌ : Check → Check → Check
◌>>◌ m k r = k (m r)

abbrev pub done : Check
done r = r

-- An `if` with no `else`.
abbrev pub when : Bool → Check → Check
when b m = if b then m else done

abbrev pub add_result : Result → Check
add_result res r = add r res

-- `Addf`, its text formatted
unfoldable pub addf : Bytes → Bytes → Status → Bytes → Check
addf id title st detail r =
    add r
      (record { id = id; title = title; status = st; detail = detail; values = []; remedy = [] })

unfoldable pub fail : Bytes → Bytes → Bytes → Bytes → Check
fail id title detail remedy r = add r (record {
  id = id;
  title = title;
  status = Status.fail;
  detail = detail;
  values = [];
  remedy = remedy;
})

unfoldable pub blocked : Bytes → Bytes → Bytes → Bytes → Check
blocked id title detail remedy r = add r (record {
  id = id;
  title = title;
  status = Status.blocked;
  detail = detail;
  values = [];
  remedy = remedy;
})

unfoldable pub warn : Bytes → Bytes → Bytes → Bytes → Check
warn id title detail remedy r = add r (record {
  id = id;
  title = title;
  status = Status.warn;
  detail = detail;
  values = [];
  remedy = remedy;
})

-- A descriptor is opened, and closed.
unfoldable pub open_fd : ℕ → Check
open_fd fd r = record r { open_fds = fd ∷ r.open_fds }

without : ℕ → List ℕ → List ℕ
without fd [] = []
without fd (x ∷ xs) = let rest = without fd xs in if x == fd then xs else x ∷ rest

unfoldable pub close_fd : ℕ → Check
unfolding without
close_fd fd r = record r { open_fds = without fd r.open_fds }

-- The variables of the loop in `Finish`.
pub record Tally : Type 0 where
  pub summary : Status → ℕ
  pub verdict : Status
  pub blocked_seen : Bool

-- `r.Summary[st]++`
abbrev pub bump : Status → (Status → ℕ) → Status → ℕ
bump st m s = if same st s then suc (m s) else m s

-- One round of the loop in `Finish`.
unfoldable pub tally_one : Tally → Status → Tally
tally_one t Status.fail = record t { summary = bump Status.fail t.summary; verdict = Status.fail }
tally_one t Status.blocked = record t {
  summary = bump Status.blocked t.summary;
  blocked_seen = true;
}
tally_one t st = record t { summary = bump st t.summary }

unfoldable pub tally : Tally → List Result → Tally
unfolding tally_one
tally t [] = t
tally t (res ∷ rs) = tally (tally_one t res.status) rs

abbrev pub start_tally : Tally
start_tally = record { summary = λ s. 0; verdict = Status.pass; blocked_seen = false }

-- The verdict behind the loop.
abbrev pub final_verdict : Tally → Status
final_verdict t =
    if t.blocked_seen && not (same t.verdict Status.fail) then Status.blocked else t.verdict

-- `Finish`; the duration is the clock's
unfoldable pub finish : Bytes → Report → Report
unfolding tally
finish elapsed r =
    let t = tally start_tally r.results in
    record r { duration = elapsed; summary = t.summary; verdict = final_verdict t }
