-- ===== src/Guest/Net.antt =====
-- guest_linux.go: measureNet, the guest's measurement of its network.
pub mod Dial
use fc_preflight.Prelude.{
  ℕ, zero, suc, ◌+◌, ◌-◌, ◌*◌, Bool, true, false, Option, none, some, List, [], ◌∷◌, ◌++◌, ◌==◌,
  ltb, if◌then◌else◌,
}
use fc_preflight.Prelude.Int.{ℤ, pos}
use fc_preflight.Float.{Float64, FloatOps, zero_float}
use fc_preflight.Text.{Bytes, codes}

-- How the loop of dials ends, after which number of dials: with a connection, with the error of a dial
-- behind the deadline, or not within the fuel.
pub data Dialled : Type 0 where
  connected : ℕ → Dialled
  gave_up : ℕ → Bytes → Dialled
  out_of_fuel : Dialled

-- `dial i` is net.DialTimeout of the i-th dial (`some` for an error), `now i` the time in milliseconds
-- at which its error is looked at.
module _ (dial : ℕ → Option Bytes) (now : ℕ → ℕ) (deadline : ℕ) where
  -- The loop; the error is looked at before the next round.
  unfoldable pub dial_loop : ℕ → ℕ → Dialled
  dial_loop zero i = out_of_fuel
  dial_loop (suc fuel) i =
      let rest = dial_loop fuel (i + 1) in
      elim (dial i) [
        | none ↦ connected i
        | some e ↦ if ltb deadline (now i) then gave_up i e else rest
      ]

-- What a read or a write comes to: it completes, it gives an error, or it never returns, since the
-- connection has no deadline.
pub data Answer : Type 0 where
  completes : Answer
  fails : Bytes → Answer
  blocks : Answer

-- The connection: what a write and a read come to, by its number.
pub record Conn : Type 0 where
  pub write_one : ℕ → Answer
  pub read_one : ℕ → Answer
  pub write_block : ℕ → Answer

-- A read or a write with an error gets its prefix.
unfoldable pub with_prefix : Bytes → Answer → Answer
with_prefix prefix completes = completes
with_prefix prefix (fails e) = fails (prefix ++ e)
with_prefix prefix blocks = blocks

-- On to what follows one that completes.
unfoldable pub then_answer : Answer → Answer → Answer
then_answer completes next = next
then_answer (fails e) next = fails e
then_answer blocks next = blocks

-- n rounds from the i-th on, up to the first that does not complete.
unfoldable pub first_stop : (ℕ → Answer) → ℕ → ℕ → Answer
unfolding then_answer
first_stop round zero i = completes
first_stop round (suc n) i = let rest = first_stop round n (i + 1) in then_answer (round i) rest

-- A ping.
unfoldable pub ping : Conn → ℕ → Answer
unfolding codes with_prefix then_answer
ping c i =
    then_answer (with_prefix (codes "echo write: ") (c.write_one i))
      (with_prefix (codes "echo read: ") (c.read_one i))

unfoldable pub send : Conn → ℕ → Answer
unfolding codes with_prefix
send c i = with_prefix (codes "throughput write: ") (c.write_block i)

-- rttUS, throughputMbps and the error.
pub record Measured : Type 0 where
  pub rtt_us : Float64
  pub throughput_mbps : Float64
  pub error : Option Bytes

-- `micros` and `seconds` are the durations of the two loops.
module _ (ops : FloatOps) (micros seconds : Float64) where
  -- The round trip: the microseconds over the 200 pings.
  abbrev pub rtt : Float64
  rtt = ops.divide micros (ops.of_ℤ (pos 200))

  -- The throughput of 512 blocks of 64 KiB, in Mb/s.
  abbrev pub throughput : Float64
  throughput =
      ops.divide (ops.divide (ops.times (ops.of_ℤ (pos (512 * 65536))) (ops.of_ℤ (pos 8))) seconds)
        (ops.of_ℤ (pos 1000000))

  -- Behind the pings; `none` where it never returns.
  unfoldable pub throughput_phase : Answer → Option Measured
  throughput_phase blocks = none
  throughput_phase (fails e) =
      some (record { rtt_us = rtt; throughput_mbps = zero_float; error = some e })
  throughput_phase completes =
      some (record { rtt_us = rtt; throughput_mbps = throughput; error = none })

  unfoldable pub ping_phase : Answer → Answer → Option Measured
  unfolding throughput_phase
  ping_phase blocks sent = none
  ping_phase (fails e) sent =
      some (record { rtt_us = zero_float; throughput_mbps = zero_float; error = some e })
  ping_phase completes sent = throughput_phase sent

  -- Behind the dial; `none` where the loop has no end, or a read or a write never returns.
  unfoldable pub dialled : Bytes → Conn → Dialled → Option Measured
  unfolding ping_phase first_stop ping send codes
  dialled addr c (connected i) = ping_phase (first_stop (ping c) 200 0) (first_stop (send c) 512 0)
  dialled addr c (gave_up i e) = some (record {
    rtt_us = zero_float;
    throughput_mbps = zero_float;
    error = some (codes "dial " ++ (addr ++ (codes ": " ++ e)));
  })
  dialled addr c out_of_fuel = none

-- measureNet, for an address that JoinHostPort has made, on fuel for the dials
unfoldable pub measure_net :
    FloatOps
    → Float64
    → Float64
    → (ℕ → Option Bytes)
    → (ℕ → ℕ)
    → Conn
    → ℕ
    → ℕ
    → Bytes
    → Option Measured
unfolding dialled dial_loop
measure_net ops micros seconds dial now c start fuel addr =
    dialled ops micros seconds addr c (dial_loop dial now (start + 10000) fuel 0)
