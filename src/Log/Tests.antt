-- ===== src/Log/Tests.antt =====
-- Concrete runs of the log: one block written, with the power lost on the way.
use t2_so.Base.{
  ℕ, ◌<◌, ◌≤◌, ◌≡◌, ◌⊎◌, ◌↔◌, refl, arith, [], ◌∷◌, ◌==◌, if◌then◌else◌, true, false, ok, panic,
}
use t2_so.Disk.{Block, look, boot, modify, bread, bwrite}
use t2_so.Log.{
  Log, logsize, recover_from_log, commit_trans, log_write, commit, install_and_clear, install_trans,
  install_from, install_one, write_head, write_sectors, read_head, read_sectors,
}
use t2_so.Log.Spec.{replay, recovered}
use t2_so.Log.Atomic.{StandsFor}
use t2_so.Log.Recovery.{booted, recover_from_log-StandsFor}
use t2_so.Log.Commit.{IsReady, commit_trans-atomic}
use t2_so.Log.Slots.{IsOpen}
use t2_so.Log.Write.{LogWritten, log_write-LogWritten}
use t2_so.Log.Crash.{reboots, crash-all_or_nothing}

-- log block 0, which is block 101, holds the number 42
abbrev blocks : ℕ → Block
blocks s w = if s == 101 then 42 else 0

-- the log is at block 100; block 7 is to be written
abbrev one_write : ℕ → Log
one_write power = record {
  start = 100;
  size = 20;
  busy = true;
  n = 1;
  sector = λ _. 7;
  bufs = boot blocks power;
}

one_write-IsReady : (power : ℕ) → IsReady (one_write power)
unfolding boot look
one_write-IsReady power = record {
  empty = refl;
  below = λ i lt. omega arith;
  coherent = λ t lt. refl;
}

-- the header that the crashes leave
crashed_count : reboots (one_write 2) (0 ∷ 1 ∷ []) (commit_trans (one_write 2)).bufs.disk 100 0 ≡ 1
unfolding commit_trans commit recover_from_log install_and_clear install_trans install_from
    install_one write_head write_sectors read_head read_sectors boot look bread modify bwrite
crashed_count = refl

-- a commit that loses its power after the header and the copy, and three boots
crash-all_or_nothing_example :
    let crashed = reboots (one_write 2) (0 ∷ 1 ∷ []) (commit_trans (one_write 2)).bufs.disk in
    let final = (recover_from_log (booted (one_write 2) crashed 5)).bufs.disk in
    (final 100 0 ≡ 0)
    × ((s : ℕ)
        → s < 100
        → final s ≡ (
            if (one_write 2).bufs.power == 0
            then (one_write 2).bufs.disk s
            else replay 100 (λ _. 7) 1 0 (one_write 2).bufs.disk s))
crash-all_or_nothing_example =
    crash-all_or_nothing (one_write 2) (0 ∷ 1 ∷ []) 5 (one_write-IsReady 2)
      (omega (arith, crashed_count))

commit_trans-atomic_example :
    let d' = (commit_trans (one_write 1)).bufs.disk in
    let new = replay 100 (λ _. 7) 1 0 (one_write 1).bufs.disk in
    ((one_write 1).bufs.power ≡ 0 → StandsFor 100 d' (one_write 1).bufs.disk)
    × (0 < (one_write 1).bufs.power → StandsFor 100 d' new)
    × (2 < (one_write 1).bufs.power → (d' 100 0 ≡ 0) × ((s : ℕ) → s < 100 → d' s ≡ new s))
commit_trans-atomic_example = commit_trans-atomic (one_write 1) (one_write-IsReady 1)

-- a header on the disk that names one block
abbrev logged : ℕ → Block
logged s w = if s == 100 then (if w == 0 then 1 else 7) else if s == 101 then 42 else 0

recover_from_log-StandsFor_example :
    let d' = (recover_from_log (booted (one_write 0) logged 1)).bufs.disk in
    StandsFor 100 d' (recovered 100 logged)
    × (logged 100 0 < 1 → (d' 100 0 ≡ 0) × ((s : ℕ) → s < 100 → d' s ≡ recovered 100 logged s))
recover_from_log-StandsFor_example =
    recover_from_log-StandsFor (one_write 0) logged 1 (λ i lt. ground arith)

-- block 9 is new in the cache
abbrev second_write : Log
second_write = record (one_write 5) { bufs = modify 9 (λ _. 43) (boot blocks 5) }

second_write-IsOpen : IsOpen second_write
unfolding boot look modify
second_write-IsOpen = record {
  ready = record { empty = refl; below = λ i lt. omega arith; coherent = λ t lt. ground arith };
  distinct = λ i j a b e. omega arith;
}

log_write-LogWritten_example :
    ((log_write 9 second_write ≡ panic) ↔ ((logsize ≤ 1) ⊎ (20 ≤ 2) ⊎ (true ≡ false)))
    × ((l' : Log) → log_write 9 second_write ≡ ok l' → LogWritten second_write 9 l')
log_write-LogWritten_example = log_write-LogWritten second_write 9 second_write-IsOpen (omega arith)
