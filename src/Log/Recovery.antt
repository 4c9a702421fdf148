-- ===== src/Log/Recovery.antt =====
-- What `recover_from_log` and `commit` leave on the disk, wherever the power is lost.
use t2_so.Base.{ℕ, ◌<◌, ◌≡◌, ◌∙◌, refl, arith, sym}
use t2_so.Disk.{Block, boot}
use t2_so.Log.{Log, recover_from_log, read_head}
use t2_so.Log.Spec.{recovered}
use t2_so.Log.Head.{read_head-boot}
use t2_so.Log.Atomic.{replay-cong, HasHeader, IsLogged, StandsFor, install_and_clear-StandsFor}

abbrev pub booted : Log → (ℕ → Block) → ℕ → Log
booted l d power = record l { bufs = boot d power }

read_head-start : (l : Log) → (read_head l).start ≡ l.start
unfolding read_head
read_head-start l = refl

read_head-IsLogged :
    (l : Log) (d : ℕ → Block) (power : ℕ)
    → HasHeader l.start d
    → IsLogged (read_head (booted l d power))
read_head-IsLogged l d power below =
    let (n, sectors, disk, left, seen) = read_head-boot l d power in
    let start = read_head-start (booted l d power) in
    record {
      count = rw (start, disk, n);
      sectors = λ i lt. rw (start, disk) (sym (sectors i (omega (arith, n))));
      below = λ i lt.
          let lt' : i < d l.start 0 = omega (arith, n) in rw (start, sectors i lt') (below i lt');
      coherent = λ t lt. seen _ ∙ rw disk;
    }

-- what is said of a log with other names for its parts
pub restate :
    (r : Log) (start n power : ℕ) (d' target new : ℕ → Block)
    → r.start ≡ start
    → r.n ≡ n
    → r.bufs.power ≡ power
    → new ≡ target
    → StandsFor r.start d' new
      × (r.n < r.bufs.power → (d' r.start 0 ≡ 0) × ((s : ℕ) → s < r.start → d' s ≡ new s))
    → StandsFor start d' target
      × (n < power → (d' start 0 ≡ 0) × ((s : ℕ) → s < start → d' s ≡ target s))
restate r start n power d' target new a b c e h = rw (← a, ← b, ← c, ← e) h

-- Recovery after a crash, if the header on the disk names only homes below the log. However many
-- of its writes reach the disk, the disk stands for the blocks that it stood for before; and if
-- there is power for all of them, these blocks are in place and the log is empty.
pub recover_from_log-StandsFor :
    (l : Log) (d : ℕ → Block) (power : ℕ)
    → HasHeader l.start d
    → let d' = (recover_from_log (booted l d power)).bufs.disk in
      StandsFor l.start d' (recovered l.start d)
      × (d l.start 0 < power
          → (d' l.start 0 ≡ 0) × ((s : ℕ) → s < l.start → d' s ≡ recovered l.start d s))
unfolding recover_from_log
recover_from_log-StandsFor l d power below =
    let r = read_head (booted l d power) in
    let (n, sectors, disk, left, seen) = read_head-boot l d power in
    restate r l.start (d l.start 0) power _ _ _ (read_head-start (booted l d power)) n left
      (rw (read_head-start (booted l d power), disk, n)
        (replay-cong l.start _ _ (d l.start 0) 0 d (λ i a b. sectors i (omega arith))))
      (install_and_clear-StandsFor r (read_head-IsLogged l d power below))
