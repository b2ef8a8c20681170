-- ===== src/Guest/Disk.antt =====
-- guest_linux.go: measureDisk, the guest's measurement of its scratch drive.
pub mod Offsets
use fc_preflight.Prelude.{
  ℕ, zero, suc, ◌+◌, ◌-◌, ◌*◌, ◌^◌, ◌%◌, Bool, true, false, Option, none, some, List, [], ◌∷◌, ◌++◌,
  ltb, if◌then◌else◌,
}
use fc_preflight.Prelude.Int.{ℤ, pos}
use fc_preflight.Float.{Float64, FloatOps, zero_float}
use fc_preflight.Text.{Bytes, codes, is_empty}

-- What is done to the drive: a block written or read at an offset, the sync, the page cache dropped,
-- and the file closed.
pub data DiskOp : Type 0 where
  writes_at : ℕ → DiskOp
  syncs : DiskOp
  drops_caches : DiskOp
  reads_at : ℕ → DiskOp
  closes_file : DiskOp

-- total, and len(buf)
abbrev pub disk_total : ℕ
disk_total = 32 * 2 ^ 20

abbrev pub block_size : ℕ
block_size = 2 ^ 20

-- The answer of the drive to each operation, behind the earlier ones, the latest first.
abbrev pub Drive : Type 0
Drive = List DiskOp → DiskOp → Option Bytes

-- How a loop over the offsets ends, with the operations done: at the total, with an error, or not
-- within the fuel.
pub data Swept : Type 0 where
  swept : List DiskOp → Swept
  refused : Bytes → List DiskOp → Swept
  starved : Swept

module _ (drive : Drive) where
  -- `for off := 0; off < total; off += len(buf)`, with one operation in its body
  unfoldable pub sweep : (ℕ → DiskOp) → ℕ → ℕ → ℕ → ℕ → List DiskOp → Swept
  sweep op total step zero off tr = starved
  sweep op total step (suc fuel) off tr =
      let rest = sweep op total step fuel (off + step) (op off ∷ tr) in
      if ltb off total
      then elim (drive tr (op off)) [ some e ↦ refused e tr | none ↦ rest ]
      else swept tr

-- writeMBps, readMBps and the error.
pub record DiskSpeed : Type 0 where
  pub write_mbps : Float64
  pub read_mbps : Float64
  pub error : Option Bytes

abbrev pub no_speed : Bytes → DiskSpeed
no_speed e = record { write_mbps = zero_float; read_mbps = zero_float; error = some e }

-- `none` where a loop has no end; with the operations that were done.
abbrev pub DiskRun : Type 0
DiskRun = Option DiskSpeed × List DiskOp

-- `write_seconds` and `read_seconds` are the durations of the two phases.
module _ (ops : FloatOps) (write_seconds read_seconds : Float64) (drive : Drive) where
  -- MiB over the seconds
  abbrev pub disk_speed : Float64 → Float64
  disk_speed seconds =
      ops.divide (ops.divide (ops.of_ℤ (pos disk_total)) seconds) (ops.of_ℤ (pos (2 ^ 20)))

  -- Behind the loop of reads.
  unfoldable pub after_reads : Swept → DiskRun
  after_reads starved = (none, [])
  after_reads (refused e tr) = (some (no_speed e), tr)
  after_reads (swept tr) = (
    some (record {
      write_mbps = disk_speed write_seconds;
      read_mbps = disk_speed read_seconds;
      error = none;
    }),
    tr,
  )

  -- Behind the sync, the caches are dropped and the reads begin.
  unfoldable pub after_sync : ℕ → Option Bytes → List DiskOp → DiskRun
  unfolding after_reads sweep
  after_sync fuel (some e) tr = (some (no_speed e), tr)
  after_sync fuel none tr =
      after_reads (sweep drive reads_at disk_total block_size fuel 0 (drops_caches ∷ syncs ∷ tr))

  unfoldable pub after_writes : ℕ → Swept → DiskRun
  unfolding after_sync
  after_writes fuel starved = (none, [])
  after_writes fuel (refused e tr) = (some (no_speed e), tr)
  after_writes fuel (swept tr) = after_sync fuel (drive tr syncs) tr

  -- `defer f.Close()`
  abbrev pub closing_file : DiskRun → DiskRun
  closing_file (r, tr) = (r, closes_file ∷ tr)

  -- Behind the opening of the file, which may be refused.
  unfoldable pub opened : ℕ → Option Bytes → DiskRun
  unfolding after_writes sweep
  opened fuel (some e) = (some (no_speed e), [])
  opened fuel none =
      closing_file (after_writes fuel (sweep drive writes_at disk_total block_size fuel 0 []))

  -- measureDisk, for what os.OpenFile answers, on fuel for each loop
  unfoldable pub measure_disk : ℕ → (Bytes → Option Bytes) → Bytes → DiskRun
  unfolding opened codes
  measure_disk fuel open_file dev =
      if is_empty dev
      then (some (no_speed (codes "no fcpf.disk on the kernel command line")), [])
      else opened fuel (open_file dev)
