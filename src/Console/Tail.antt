-- ===== src/Console/Tail.antt =====
-- boot_linux.go: which lines of the console are kept.
use fc_preflight.Prelude.{
  ℕ, zero, suc, ◌-◌, ◌≤◌, ◌≡◌, refl, sym, ap, ◌∙◌, List, [], ◌∷◌, ◌++◌, arith, leb, length, drop,
  length-append, append_assoc, append-nil, Bool-cases, Option-cases, inl, inr,
}
use fc_preflight.Prelude.Int.{ℤ}
use fc_preflight.Text.{Bytes, is_empty, scan_lines, large_buffer}
use fc_preflight.Float.{Float64}
use fc_preflight.Guest.Types.{GuestReport, VmOutcome}
use fc_preflight.Host.Machine.{Outcome}
use fc_preflight.Console.{
  console_tail_lines, keep_line, read_console, read_line, watch, watch_output, Waited,
  after_console, explain, new_outcome,
}

-- The last lines of a list, at most as many as are kept.
abbrev pub last_lines : List Bytes → List Bytes
last_lines lines = drop (length lines - console_tail_lines) lines

drop-append_short :
    (n : ℕ) (xs ys : List Bytes) → n ≤ length xs → drop n (xs ++ ys) ≡ drop n xs ++ ys
drop-append_short zero xs ys h = refl
drop-append_short (suc n) [] ys h = absurd (omega arith)
drop-append_short (suc n) (x ∷ xs) ys h = drop-append_short n xs ys (omega arith)

length-drop : (n : ℕ) (xs : List Bytes) → length (drop n xs) ≡ length xs - n
length-drop zero xs = omega arith
length-drop (suc n) [] = omega arith
length-drop (suc n) (x ∷ xs) = omega (arith, length-drop n xs)

drop-suc : (n : ℕ) (xs : List Bytes) → drop 1 (drop n xs) ≡ drop (suc n) xs
drop-suc zero xs = refl
drop-suc (suc n) [] = refl
drop-suc (suc n) (x ∷ xs) = drop-suc n xs

keep_line-last_lines :
    (seen : List Bytes) (line : Bytes)
    → keep_line (last_lines seen) line ≡ last_lines (seen ++ line ∷ [])
unfolding keep_line
keep_line-last_lines seen line =
    elim (Bool-cases (leb console_tail_lines (length (last_lines seen)))) [
      | inl t ↦ rw t (
          let k = length-drop (length seen - console_tail_lines) seen in
          let more = length-append seen (line ∷ []) in
          ap (λ (xs : List Bytes). xs ++ line ∷ [])
            (drop-suc (length seen - console_tail_lines) seen)
          ∙ sym (
              drop-append_short (suc (length seen - console_tail_lines)) seen (line ∷ [])
                (ground (arith, k, t)))
          ∙ ap (λ (n : ℕ). drop n (seen ++ line ∷ [])) {x = suc (length seen - console_tail_lines)}
              (ground (arith, k, t, more)))
      | inr t ↦ rw t (
          let k = length-drop (length seen - console_tail_lines) seen in
          let more = length-append seen (line ∷ []) in
          sym (drop-append_short (length seen - console_tail_lines) seen (line ∷ []) (omega arith))
          ∙ ap (λ (n : ℕ). drop n (seen ++ line ∷ [])) {x = length seen - console_tail_lines}
              (ground (arith, k, t, more)))
    ]

pub read_console-tail :
    (unmarshal : Bytes → Outcome GuestReport) (times_1000 : Float64 → Float64)
    (lines seen : List Bytes) (out : VmOutcome)
    → (read_console unmarshal times_1000 lines (last_lines seen) out).0 ≡ last_lines (seen ++ lines)
unfolding read_console
read_console-tail unmarshal times_1000 [] seen out = rw append-nil refl
read_console-tail unmarshal times_1000 (line ∷ lines) seen out =
    rw (read_console, keep_line-last_lines seen line)
      (read_console-tail unmarshal times_1000 lines (seen ++ line ∷ [])
          (read_line unmarshal times_1000 out line)
        ∙ rw (append_assoc seen (line ∷ []) lines) refl)

explain-console :
    (boot_timeout : ℤ) (waited : Waited) (out : VmOutcome)
    → (explain boot_timeout waited out).console ≡ out.console
unfolding explain
explain-console boot_timeout waited out = elim (Option-cases out.guest) [
  | inr (report, g) ↦ rw (g, explain) refl
  | inl g ↦
      rw (g, explain)
        (elim (Bool-cases (is_empty out.err)) [ inl t ↦ rw t refl | inr t ↦ rw t refl ])
]

watch-console :
    (unmarshal : Bytes → Outcome GuestReport) (times_1000 : Float64 → Float64) (boot_timeout : ℤ)
    (waited : Waited) (i : ℕ) (lines : List Bytes)
    → (watch unmarshal times_1000 boot_timeout waited i lines).console ≡ last_lines lines
unfolding watch after_console
watch-console unmarshal times_1000 boot_timeout waited i lines =
    let out = (read_console unmarshal times_1000 lines [] (new_outcome i)).1 in
    explain-console boot_timeout waited _
    ∙ read_console-tail unmarshal times_1000 lines [] (new_outcome i)

-- Whatever Firecracker prints, the console of the outcome holds the last 120 of the lines that the
-- scanner delivers, all of them if there are fewer. The scanner has a buffer of 1 MiB, and delivers
-- nothing from a line on that does not fit into it.
pub watch_output-console :
    (unmarshal : Bytes → Outcome GuestReport) (times_1000 : Float64 → Float64) (boot_timeout : ℤ)
    (waited : Waited) (i : ℕ) (output : Bytes)
    → (watch_output unmarshal times_1000 boot_timeout waited i output).console
      ≡ last_lines (scan_lines large_buffer output).0
unfolding watch_output
watch_output-console unmarshal times_1000 boot_timeout waited i output =
    watch-console unmarshal times_1000 boot_timeout waited i (scan_lines large_buffer output).0
