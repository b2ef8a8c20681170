-- ===== src/Guest/Net/Dial.antt =====
-- guest_linux.go: the loop of dials in measureNet comes to an end, and how.
use fc_preflight.Prelude.{
  ℕ, zero, suc, ◌+◌, ◌*◌, ◌≤◌, ◌<◌, true, false, Option, none, some, ◌==◌, ◌≡◌, ◌≢◌, ◌⊎◌, refl, ap,
  ◌∙◌, Bool, arith, ltb, Bool-cases, Option-cases, inl, inr,
}
use fc_preflight.Float.{Float64, FloatOps}
use fc_preflight.Text.{Bytes, codes}
use fc_preflight.Guest.Net.{
  Dialled, connected, gave_up, dial_loop, Conn, Measured, dialled, measure_net, ping_phase,
  first_stop, ping, send, Answer, completes, fails, blocks, then_answer, with_prefix,
  throughput_phase,
}

-- A dial that failed, its error looked at no later than the deadline.
Retried : (ℕ → Option Bytes) → (ℕ → ℕ) → ℕ → ℕ → Type 0
Retried dial now deadline j = (dial j ≢ none) × (now j ≤ deadline)

-- The loop from the i-th dial on ends with the n-th: the earlier ones were retried, and this one gave
-- a connection, or an error that was looked at behind the deadline.
pub record EndsAt (dial : ℕ → Option Bytes) (now : ℕ → ℕ) (deadline i n : ℕ) (d : Dialled)
    : Type 0 where
  pub after_first : i ≤ n
  pub retried : (j : ℕ) → i ≤ j → j < n → (dial j ≢ none) × (now j ≤ deadline)
  pub settled :
      ((dial n ≡ none) × (d ≡ connected n))
      ⊎ ((e : Bytes) × (dial n ≡ some e) × (deadline < now n) × (d ≡ gave_up n e))

module _ (dial : ℕ → Option Bytes) (now : ℕ → ℕ) (deadline : ℕ)
    (sleeps : (i : ℕ) → now i + 100 ≤ now (i + 1)) where
  connects : (fuel i : ℕ) → dial i ≡ none → dial_loop dial now deadline (suc fuel) i ≡ connected i
  unfolding dial_loop
  connects fuel i d = rw (d, dial_loop) refl

  gives_up :
      (fuel i : ℕ) (e : Bytes)
      → dial i ≡ some e
      → ltb deadline (now i) ≡ true
      → dial_loop dial now deadline (suc fuel) i ≡ gave_up i e
  unfolding dial_loop
  gives_up fuel i e d t = rw (d, t, dial_loop) refl

  goes_on :
      (fuel i : ℕ) (e : Bytes)
      → dial i ≡ some e
      → ltb deadline (now i) ≡ false
      → dial_loop dial now deadline (suc fuel) i ≡ dial_loop dial now deadline fuel (i + 1)
  unfolding dial_loop
  goes_on fuel i e d t = rw (d, t, dial_loop) refl

  nothing_before : (i j : ℕ) → i ≤ j → j < i → Retried dial now deadline j
  nothing_before i j h g = absurd (omega (arith, h, g))

  ends_now :
      (i : ℕ) (d : Dialled)
      → ((dial i ≡ none) × (d ≡ connected i))
        ⊎ ((e : Bytes) × (dial i ≡ some e) × (deadline < now i) × (d ≡ gave_up i e))
      → EndsAt dial now deadline i i d
  unfolding Retried
  ends_now i d h = record { after_first = omega arith; retried = nothing_before i; settled = h }

  one_earlier :
      (i n : ℕ) (e : Bytes) (d d' : Dialled)
      → dial i ≡ some e
      → now i ≤ deadline
      → d' ≡ d
      → EndsAt dial now deadline (i + 1) n d
      → EndsAt dial now deadline i n d'
  one_earlier i n e d d' x y same h = record {
    after_first = omega (arith, h.after_first);
    retried = λ j below above. elim (Bool-cases (j == i)) [
      | inl t ↦ let here : j ≡ i = grind (arith, t) in rw here (λ q. absurd (cc (q, x)), y)
      | inr t ↦ h.retried j (grind (arith, t, below)) above
    ];
    settled = rw same h.settled;
  }

  -- The error of the i-th dial is looked at behind the deadline.
  too_late :
      (fuel i : ℕ) (e : Bytes)
      → dial i ≡ some e
      → ltb deadline (now i) ≡ true
      → (n : ℕ) × (n ≤ i + fuel)
        × EndsAt dial now deadline i n (dial_loop dial now deadline (suc fuel) i)
  too_late fuel i e d t =
      (i, omega arith, ends_now i _ (inr (e, d, grind (arith, t), gives_up fuel i e d t)))

  pub dial_loop_settles :
      (fuel i : ℕ)
      → deadline < now i + 100 * fuel
      → (n : ℕ) × (n ≤ i + fuel)
        × EndsAt dial now deadline i n (dial_loop dial now deadline (suc fuel) i)
  dial_loop_settles zero i h = elim (Option-cases (dial i)) [
    | inl d ↦ (i, omega arith, ends_now i _ (inl (d, connects zero i d)))
    | inr (e, d) ↦ too_late zero i e d (grind (arith, h))
  ]
  dial_loop_settles (suc fuel) i h = elim (Option-cases (dial i)) [
    | inl d ↦ (i, omega arith, ends_now i _ (inl (d, connects (suc fuel) i d)))
    | inr (e, d) ↦ elim (Bool-cases (ltb deadline (now i))) [
      | inl t ↦ too_late (suc fuel) i e d t
      | inr t ↦
          let (n, b, ends) = dial_loop_settles fuel (i + 1) (omega (arith, h, sleeps i)) in
          (
            n,
            omega (arith, b),
            one_earlier i n e _ _ d (grind (arith, t)) (goes_on (suc fuel) i e d t) ends,
          )
    ]
  ]

-- If the error of each dial is looked at at least 100 ms after that of the dial before, the loop of
-- measureNet ends within 102 dials, which is the fuel given here. Every dial before the last one
-- failed and had its error looked at no later than 10 seconds after the start; the last one gave the
-- connection, or its error was looked at later than that and is the one that measureNet gives up with.
pub dial_loop-EndsAt :
    (dial : ℕ → Option Bytes) (now : ℕ → ℕ) (start : ℕ)
    → ((i : ℕ) → now i + 100 ≤ now (i + 1))
    → start ≤ now 0
    → (n : ℕ) × (n ≤ 101)
      × EndsAt dial now (start + 10000) 0 n (dial_loop dial now (start + 10000) 102 0)
dial_loop-EndsAt dial now start sleeps begun =
    dial_loop_settles dial now (start + 10000) sleeps 101 0 (omega (arith, begun))

abbrev pub is_blocked : Answer → Bool
is_blocked blocks = true
is_blocked _ = false

then_answer-is_blocked :
    (x y : Answer)
    → is_blocked x ≡ false
    → is_blocked y ≡ false
    → is_blocked (then_answer x y) ≡ false
unfolding then_answer
then_answer-is_blocked completes y h g = g
then_answer-is_blocked (fails e) y h g = refl
then_answer-is_blocked blocks y h g = h

with_prefix-is_blocked :
    (prefix : Bytes) (x : Answer) → is_blocked (with_prefix prefix x) ≡ is_blocked x
unfolding with_prefix
with_prefix-is_blocked prefix completes = refl
with_prefix-is_blocked prefix (fails e) = refl
with_prefix-is_blocked prefix blocks = refl

first_stop-is_blocked :
    (round : ℕ → Answer) (n i : ℕ)
    → ((j : ℕ) → is_blocked (round j) ≡ false)
    → is_blocked (first_stop round n i) ≡ false
unfolding first_stop
first_stop-is_blocked round zero i h = refl
first_stop-is_blocked round (suc n) i h =
    then_answer-is_blocked (round i) (first_stop round n (i + 1)) (h i)
      (first_stop-is_blocked round n (i + 1) h)

ping_phase-some :
    (ops : FloatOps) (micros seconds : Float64) (pinged sent : Answer)
    → is_blocked pinged ≡ false
    → is_blocked sent ≡ false
    → (m : Measured) × (ping_phase ops micros seconds pinged sent ≡ some m)
unfolding ping_phase throughput_phase
ping_phase-some ops micros seconds completes completes h g = (_, refl)
ping_phase-some ops micros seconds completes (fails e) h g = (_, refl)
ping_phase-some ops micros seconds completes blocks h g = absurd (ground (arith, g))
ping_phase-some ops micros seconds (fails e) sent h g = (_, refl)
ping_phase-some ops micros seconds blocks sent h g = absurd (ground (arith, h))

-- If the error of each dial is looked at at least 100 ms after that of the dial before, and every
-- read and write of the connection returns, measureNet returns.
pub measure_net-some :
    (ops : FloatOps) (micros seconds : Float64) (dial : ℕ → Option Bytes) (now : ℕ → ℕ) (c : Conn)
    (start : ℕ) (addr : Bytes)
    → ((i : ℕ) → now i + 100 ≤ now (i + 1))
    → start ≤ now 0
    → ((i : ℕ) → is_blocked (c.write_one i) ≡ false)
    → ((i : ℕ) → is_blocked (c.read_one i) ≡ false)
    → ((i : ℕ) → is_blocked (c.write_block i) ≡ false)
    → (m : Measured) × (measure_net ops micros seconds dial now c start 102 addr ≡ some m)
unfolding measure_net dialled ping send
measure_net-some ops micros seconds dial now c start addr sleeps begun writes reads sends =
    let (n, bound, ends) = dial_loop-EndsAt dial now start sleeps begun in
    elim ends.settled [
      | inl (d, loop) ↦
          let (m, e) =
            ping_phase-some ops micros seconds (first_stop (ping c) 200 0)
              (first_stop (send c) 512 0)
              (first_stop-is_blocked (ping c) 200 0 (λ j.
                then_answer-is_blocked (with_prefix (codes "echo write: ") (c.write_one j)) _
                  (with_prefix-is_blocked (codes "echo write: ") (c.write_one j) ∙ writes j)
                  (with_prefix-is_blocked (codes "echo read: ") (c.read_one j) ∙ reads j)))
              (first_stop-is_blocked (send c) 512 0 (λ j.
                with_prefix-is_blocked (codes "throughput write: ") (c.write_block j) ∙ sends j)) in
          (m, ap (dialled ops micros seconds addr c) loop ∙ e)
      | inr (e, d, late, loop) ↦ (_, ap (dialled ops micros seconds addr c) loop)
    ]
