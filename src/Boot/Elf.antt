-- ===== src/Boot/Elf.antt =====
-- boot_linux.go: elfInterpreter.
use fc_preflight.Prelude.{
  Bool, true, false, not, Option, none, some, List, [], ◌∷◌, ◌==◌, if◌then◌else◌,
}
use fc_preflight.Text.{Bytes, trim_right}
use fc_preflight.Host.Machine.{Outcome, ok, err}

-- A program header of debug/elf: whether its type is PT_INTERP, and what reading it gives, `none`
-- for an error.
pub record Prog : Type 0 where
  pub is_interp : Bool
  pub content : Option Bytes

-- The interpreter, and whether there is one.
abbrev pub Interpreter : Type 0
Interpreter = Bytes × Bool

-- The loop over the program headers.
unfoldable pub find_interp : List Prog → Interpreter
find_interp [] = ([], false)
find_interp (p ∷ ps) =
    let rest = find_interp ps in
    if not p.is_interp
    then rest
    else (elim p.content [ none ↦ ([], true) | some buf ↦ (trim_right (λ c. c == 0) buf, true) ])

-- elfInterpreter, for what elf.Open gives
unfoldable pub elf_interpreter : Outcome (List Prog) → Outcome Interpreter
unfolding find_interp
elf_interpreter (err e) = err e
elf_interpreter (ok progs) = ok (find_interp progs)
