-- ===== src/Report/Seen.antt =====
-- What the methods of a report do to a test on its results, and to its descriptors.
use fc_preflight.Prelude.{
  ℕ, Bool, true, false, ◌||◌, ◌≡◌, refl, List, [], ◌∷◌, arith, any, any-append, ==_refl,
}
use fc_preflight.Text.{Bytes}
use fc_preflight.Status.{Status}
use fc_preflight.Report.{Result, Report, add, addf, fail, warn, blocked, open_fd, close_fd, without}

-- Some result of the report passes the test.
abbrev pub seen : (Result → Bool) → Report → Bool
seen p r = any p r.results

abbrev pub plain : Bytes → Bytes → Status → Bytes → Bytes → Result
plain id title st detail remedy = record {
  id = id;
  title = title;
  status = st;
  detail = detail;
  values = [];
  remedy = remedy;
}

pub or-false : (b : Bool) → b || false ≡ b
or-false true = refl
or-false false = refl

pub or_assoc : (a b c : Bool) → (a || b) || c ≡ a || (b || c)
or_assoc true b c = refl
or_assoc false b c = refl

module _ (p : Result → Bool) where
  pub seen-add : (r : Report) (x : Result) → seen p (add r x) ≡ seen p r || p x
  unfolding add
  seen-add r x = ground (arith, any-append p r.results (x ∷ []), or-false (p x))

  pub seen-addf :
      (id title : Bytes) (st : Status) (detail : Bytes) (r : Report)
      → seen p (addf id title st detail r) ≡ seen p r || p (plain id title st detail [])
  unfolding addf
  seen-addf id title st detail r = seen-add r (plain id title st detail [])

  pub seen-fail :
      (id title detail remedy : Bytes) (r : Report)
      → seen p (fail id title detail remedy r)
        ≡ seen p r || p (plain id title Status.fail detail remedy)
  unfolding fail
  seen-fail id title detail remedy r = seen-add r (plain id title Status.fail detail remedy)

  pub seen-warn :
      (id title detail remedy : Bytes) (r : Report)
      → seen p (warn id title detail remedy r)
        ≡ seen p r || p (plain id title Status.warn detail remedy)
  unfolding warn
  seen-warn id title detail remedy r = seen-add r (plain id title Status.warn detail remedy)

  pub seen-blocked :
      (id title detail remedy : Bytes) (r : Report)
      → seen p (blocked id title detail remedy r)
        ≡ seen p r || p (plain id title Status.blocked detail remedy)
  unfolding blocked
  seen-blocked id title detail remedy r = seen-add r (plain id title Status.blocked detail remedy)

  pub seen-open_fd : (fd : ℕ) (r : Report) → seen p (open_fd fd r) ≡ seen p r
  unfolding open_fd
  seen-open_fd fd r = refl

  pub seen-close_fd : (fd : ℕ) (r : Report) → seen p (close_fd fd r) ≡ seen p r
  unfolding close_fd
  seen-close_fd fd r = refl

pub open_fds-add : (r : Report) (x : Result) → (add r x).open_fds ≡ r.open_fds
unfolding add
open_fds-add r x = refl

pub open_fds-addf :
    (id title : Bytes) (st : Status) (detail : Bytes) (r : Report)
    → (addf id title st detail r).open_fds ≡ r.open_fds
unfolding addf add
open_fds-addf id title st detail r = refl

pub open_fds-fail :
    (id title detail remedy : Bytes) (r : Report)
    → (fail id title detail remedy r).open_fds ≡ r.open_fds
unfolding fail add
open_fds-fail id title detail remedy r = refl

pub open_fds-warn :
    (id title detail remedy : Bytes) (r : Report)
    → (warn id title detail remedy r).open_fds ≡ r.open_fds
unfolding warn add
open_fds-warn id title detail remedy r = refl

pub open_fds-blocked :
    (id title detail remedy : Bytes) (r : Report)
    → (blocked id title detail remedy r).open_fds ≡ r.open_fds
unfolding blocked add
open_fds-blocked id title detail remedy r = refl

pub open_fds-open_fd : (fd : ℕ) (r : Report) → (open_fd fd r).open_fds ≡ fd ∷ r.open_fds
unfolding open_fd
open_fds-open_fd fd r = refl

-- Closing the descriptor that was opened last leaves the others.
pub open_fds-close_fd :
    (fd : ℕ) (fds : List ℕ) (r : Report) → r.open_fds ≡ fd ∷ fds → (close_fd fd r).open_fds ≡ fds
unfolding close_fd without
open_fds-close_fd fd fds r h = rw (h, without) (rw ==_refl)

pub ruleset fds_laws =
    (open_fds-add, open_fds-addf, open_fds-fail, open_fds-warn, open_fds-blocked, open_fds-open_fd)
