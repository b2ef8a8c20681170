-- ===== src/Guest/Disk/Offsets.antt =====
-- guest_linux.go: the offsets that measureDisk visits.
use fc_preflight.Prelude.{
  subst, ℕ, zero, suc, ◌+◌, ◌*◌, ◌≤◌, ◌<◌, Bool, true, false, ◌&&◌, Option, none, some, List, [],
  ◌∷◌, ◌≡◌, refl, sym, ap, arith, ltb, leb, Option-cases, inl, inr,
}
use fc_preflight.Float.{Float64, FloatOps}
use fc_preflight.Text.{Bytes}
use fc_preflight.Guest.Disk.{
  DiskOp, writes_at, syncs, drops_caches, reads_at, closes_file, disk_total, block_size, Drive,
  Swept, swept, refused, sweep, DiskSpeed, DiskRun, after_reads, after_sync, after_writes, opened,
  measure_disk,
}

-- n operations from an offset on, a step apart, in front of the earlier ones, the latest first.
unfoldable pub visits : (ℕ → DiskOp) → ℕ → ℕ → ℕ → List DiskOp → List DiskOp
visits op step zero off tr = tr
visits op step (suc n) off tr = visits op step n (off + step) (op off ∷ tr)

-- The loop visited a whole number of blocks, in order, and stopped at the total or at an error.
pub data Covers (op : ℕ → DiskOp) (step n off : ℕ) (tr : List DiskOp) : Swept → Type 0 where
  whole : Covers op step n off tr (swept (visits op step n off tr))
  cut_short :
      (m : ℕ) (e : Bytes) → m < n → Covers op step n off tr (refused e (visits op step m off tr))

extend :
    (op : ℕ → DiskOp) (step n off : ℕ) (tr : List DiskOp) (s : Swept)
    → Covers op step n (off + step) (op off ∷ tr) s
    → Covers op step (suc n) off tr s
unfolding visits
extend op step n off tr _ whole = whole
extend op step n off tr _ (cut_short m e h) = cut_short (suc m) e (omega (arith, h))

module _ (drive : Drive) (op : ℕ → DiskOp) (total step : ℕ) where
  ends_sweep :
      (fuel off : ℕ) (tr : List DiskOp)
      → ltb off total ≡ false
      → sweep drive op total step (suc fuel) off tr ≡ swept tr
  unfolding sweep
  ends_sweep fuel off tr t = rw (t, sweep) refl

  stops_sweep :
      (fuel off : ℕ) (tr : List DiskOp) (e : Bytes)
      → ltb off total ≡ true
      → drive tr (op off) ≡ some e
      → sweep drive op total step (suc fuel) off tr ≡ refused e tr
  unfolding sweep
  stops_sweep fuel off tr e t d = rw (t, d, sweep) refl

  steps_sweep :
      (fuel off : ℕ) (tr : List DiskOp)
      → ltb off total ≡ true
      → drive tr (op off) ≡ none
      → sweep drive op total step (suc fuel) off tr
        ≡ sweep drive op total step fuel (off + step) (op off ∷ tr)
  unfolding sweep
  steps_sweep fuel off tr t d = rw (t, d, sweep) refl

  -- With fuel for more rounds than there are blocks, the loop does not run out of it.
  pub sweep-Covers :
      (n fuel off : ℕ) (tr : List DiskOp)
      → n ≤ fuel
      → total ≡ off + n * step
      → 0 < step
      → Covers op step n off tr (sweep drive op total step (suc fuel) off tr)
  unfolding visits
  sweep-Covers zero fuel off tr b h p =
      subst (λ (s : Swept). Covers op step zero off tr s)
        (sym (ends_sweep fuel off tr (grind (arith, h)))) whole
  sweep-Covers (suc n) zero off tr b h p = absurd (omega (arith, b))
  sweep-Covers (suc n) (suc fuel) off tr b h p =
      let more : ltb off total ≡ true = grind (arith, h, p) in
      elim (Option-cases (drive tr (op off))) [
        | inl d ↦
            subst (λ (s : Swept). Covers op step (suc n) off tr s)
              (sym (steps_sweep (suc fuel) off tr more d))
              (extend op step n off tr _ (
                sweep-Covers n fuel (off + step) (op off ∷ tr) (omega (arith, b)) (omega (arith, h))
                  p))
        | inr (e, d) ↦
            subst (λ (s : Swept). Covers op step (suc n) off tr s)
              (sym (stops_sweep (suc fuel) off tr e more d)) (cut_short 0 e (omega arith))
      ]

-- An operation on a block of the drive stays within the total.
unfoldable pub fits : DiskOp → Bool
fits (writes_at off) = leb (off + block_size) disk_total
fits (reads_at off) = leb (off + block_size) disk_total
fits _ = true

unfoldable pub all_fit : List DiskOp → Bool
all_fit [] = true
all_fit (op ∷ tr) = fits op && all_fit tr

fit-visits :
    (op : ℕ → DiskOp) (n off : ℕ) (tr : List DiskOp)
    → ((o : ℕ) → fits (op o) ≡ leb (o + block_size) disk_total)
    → off + n * block_size ≤ disk_total
    → all_fit tr ≡ true
    → all_fit (visits op block_size n off tr) ≡ true
unfolding visits all_fit
fit-visits op zero off tr f h t = t
fit-visits op (suc n) off tr f h t =
    fit-visits op n (off + block_size) (op off ∷ tr) f (omega (arith, h))
      (grind (arith, h, f off, t))

module _ (ops : FloatOps) (write_seconds read_seconds : Float64) (drive : Drive) where
  -- A run that came to its end and stayed within the total; without an error it did as told.
  abbrev Done : List DiskOp → DiskRun → Type 0
  Done expected run =
      (s : DiskSpeed) × (run.0 ≡ some s)
      × (all_fit run.1 ≡ true)
      × (s.error ≡ none → run.1 ≡ expected)

  -- The 32 blocks read, in order, behind the writes, the sync and the cache dropped.
  abbrev pub full_reads : List DiskOp → List DiskOp
  full_reads tr = visits reads_at block_size 32 0 (drops_caches ∷ syncs ∷ tr)

  abbrev pub full_writes : List DiskOp
  full_writes = visits writes_at block_size 32 0 []

  after_reads_lem :
      (tr : List DiskOp) (s : Swept)
      → all_fit tr ≡ true
      → Covers reads_at block_size 32 0 (drops_caches ∷ syncs ∷ tr) s
      → Done (full_reads tr) (after_reads ops write_seconds read_seconds drive s)
  unfolding after_reads all_fit fits
  after_reads_lem tr _ t whole = (
    _,
    refl,
    fit-visits reads_at 32 0 (drops_caches ∷ syncs ∷ tr) (λ o. refl) (omega arith) t,
    λ e. refl,
  )
  after_reads_lem tr _ t (cut_short m e h) = (
    _,
    refl,
    fit-visits reads_at m 0 (drops_caches ∷ syncs ∷ tr) (λ o. refl) (omega (arith, h)) t,
    λ q. absurd (cc q),
  )

  after_sync_lem :
      (answer : Option Bytes) (tr : List DiskOp)
      → all_fit tr ≡ true
      → Done (full_reads tr) (after_sync ops write_seconds read_seconds drive 33 answer tr)
  unfolding after_sync
  after_sync_lem (some e) tr t = (_, refl, t, λ q. absurd (cc q))
  after_sync_lem none tr t = after_reads_lem tr _ t (
      sweep-Covers drive reads_at disk_total block_size 32 32 0 (drops_caches ∷ syncs ∷ tr)
        (omega arith) (omega arith) (omega arith))

  after_writes_lem :
      (s : Swept)
      → Covers writes_at block_size 32 0 [] s
      → Done (full_reads full_writes) (after_writes ops write_seconds read_seconds drive 33 s)
  unfolding after_writes all_fit fits
  after_writes_lem _ whole =
      after_sync_lem (drive full_writes syncs) full_writes
        (fit-visits writes_at 32 0 [] (λ o. refl) (omega arith) refl)
  after_writes_lem _ (cut_short m e h) =
      (_, refl, fit-visits writes_at m 0 [] (λ o. refl) (omega (arith, h)) refl, λ q. absurd (cc q))

  opened_lem :
      (answer : Option Bytes)
      → Done
          (closes_file ∷ full_reads full_writes)
          (opened ops write_seconds read_seconds drive 33 answer)
  unfolding opened all_fit fits
  opened_lem (some e) = (_, refl, refl, λ q. absurd (cc q))
  opened_lem none =
      let (s, e, t, h) = after_writes_lem _ (
        sweep-Covers drive writes_at disk_total block_size 32 32 0 [] (omega arith) (omega arith)
          (omega arith)) in
      (s, e, t, λ q. ap (λ (tr : List DiskOp). closes_file ∷ tr) (h q))

  -- With fuel for 33 rounds of each loop measureDisk returns, whatever the drive answers. Every block
  -- that it writes or reads lies within the first 32 MiB of the drive. If it returns no error, it has
  -- written the 32 blocks of 1 MiB in order, synced, dropped the page cache, read the 32 blocks in
  -- order, and closed the file.
  pub measure_disk-all_fit :
      (open_file : Bytes → Option Bytes) (dev : Bytes)
      → (s : DiskSpeed) × ((measure_disk ops write_seconds read_seconds drive 33 open_file dev).0
          ≡ some s)
        × (all_fit (measure_disk ops write_seconds read_seconds drive 33 open_file dev).1 ≡ true)
        × (s.error ≡ none
            → (measure_disk ops write_seconds read_seconds drive 33 open_file dev).1
              ≡ closes_file ∷ full_reads full_writes)
  unfolding measure_disk all_fit
  measure_disk-all_fit open_file [] = (_, refl, refl, λ q. absurd (cc q))
  measure_disk-all_fit open_file (c ∷ dev) = opened_lem (open_file (c ∷ dev))
