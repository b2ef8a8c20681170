-- ===== src/Status.antt =====
-- report.go: `Status`. `unset` is the empty string, which a report's verdict is until `Finish`.
use fc_preflight.Prelude.{Bool, true, false, ◌≡◌, refl}

pub data Status : Type 0 where
  unset pass fail warn info skip blocked : Status

-- a == b
abbrev pub same : Status → Status → Bool
same unset unset = true
same pass pass = true
same fail fail = true
same warn warn = true
same info info = true
same skip skip = true
same blocked blocked = true
same _ _ = false

pub same_refl : (s : Status) → same s s ≡ true
same_refl unset = refl
same_refl pass = refl
same_refl fail = refl
same_refl warn = refl
same_refl info = refl
same_refl skip = refl
same_refl blocked = refl
