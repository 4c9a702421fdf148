-- ===== src/Log.antt =====
-- src/log.c: the log that makes the writes of a system call atomic.
pub mod Spec
pub mod Install
pub mod Head
pub mod Atomic
pub mod Recovery
pub mod Commit
pub mod Slots
pub mod Append
pub mod Write
pub mod Crash
mod Tests
use t2_so.Base.{
  ℕ, zero, suc, ◌+◌, ◌-◌, Bool, true, false, not, ◌||◌, ◌&&◌, ◌==◌, if◌then◌else◌, leb, ltb, update,
}
use t2_so.Base.{Result, ok, panic, ◌>>=◌, ◌>>◌, panic_if}
use t2_so.Disk.{Block, Bufs, look, bread, modify, bwrite, pin}

-- param.h
abbrev pub logsize : ℕ
logsize = 10

-- `struct log` with its header `lh`, and the blocks. There is one device.
pub record Log : Type 0 where
  pub start : ℕ
  pub size : ℕ
  pub busy : Bool
  pub n : ℕ
  pub sector : ℕ → ℕ
  pub bufs : Bufs

-- one round of `install_trans`: log block `tail` to its home
unfoldable pub install_one : ℕ → Log → Log
install_one tail l =
    let b₁ = bread (l.start + tail + 1) l.bufs in
    let b₂ = bread (l.sector tail) b₁ in
    let b₃ = modify (l.sector tail) (look b₂ (l.start + tail + 1)) b₂ in
    record l { bufs = bwrite (l.sector tail) b₃ }

-- `install_trans`, from log block `tail` on with `left` to go
unfoldable pub install_from : ℕ → ℕ → Log → Log
install_from zero tail l = l
install_from (suc left) tail l = install_from left (tail + 1) (install_one tail l)

unfoldable pub install_trans : Log → Log
install_trans l = install_from l.n 0 l

-- the loop of `read_head`
unfoldable pub read_sectors : Block → ℕ → ℕ → (ℕ → ℕ) → ℕ → ℕ
read_sectors lh zero i sector = sector
read_sectors lh (suc left) i sector = read_sectors lh left (i + 1) (update sector i (lh (i + 1)))

unfoldable pub read_head : Log → Log
read_head l =
    let b = bread l.start l.bufs in
    let lh = look b l.start in
    record l { n = lh 0; sector = read_sectors lh (lh 0) 0 l.sector; bufs = b }

-- the loop of `write_head`
unfoldable pub write_sectors : (ℕ → ℕ) → ℕ → ℕ → Block → Block
write_sectors sector zero i hb = hb
write_sectors sector (suc left) i hb =
    write_sectors sector left (i + 1) (update hb (i + 1) (sector i))

unfoldable pub write_head : Log → Log
write_head l =
    let b = bread l.start l.bufs in
    let hb = write_sectors l.sector l.n 0 (update (look b l.start) 0 l.n) in
    record l { bufs = bwrite l.start (modify l.start hb b) }

-- the end of both `recover_from_log` and `commit_trans`: install, then clear the header
unfoldable pub install_and_clear : Log → Log
install_and_clear l = write_head (record (install_trans l) { n = 0 })

unfoldable pub recover_from_log : Log → Log
recover_from_log l = install_and_clear (read_head l)

-- `initlog`: the superblock is block 1; its words 0 and 3 are `size` and `nlog`.
unfoldable pub initlog : Log → Log
initlog l =
    let b = bread 1 l.bufs in
    let sb = look b 1 in recover_from_log (record l { start = sb 0 - sb 3; size = sb 3; bufs = b })

-- `begin_trans`: true if the transaction has begun, false if the caller sleeps until the one that
-- is active has ended
unfoldable pub begin_trans : Log → Bool × Log
begin_trans l = if l.busy then (false, l) else (true, record l { busy = true })

-- the part of `commit_trans` that runs before the log is free again
unfoldable pub commit : Log → Log
commit l = if ltb 0 l.n then install_and_clear (write_head l) else l

unfoldable pub commit_trans : Log → Log
commit_trans l = record (commit l) { busy = false }

-- the slot of a block: the one that it has already, or the next
unfoldable pub slot_from : (ℕ → ℕ) → ℕ → ℕ → ℕ → ℕ
slot_from sector s zero i = i
slot_from sector s (suc left) i =
    let later = slot_from sector s left (i + 1) in if sector i == s then i else later

-- `log_write` of block `s`, whose new data are in the cache
unfoldable pub log_write : ℕ → Log → Result Log
log_write s l = do
  panic_if (leb logsize l.n || leb l.size (l.n + 1))
  panic_if (not l.busy)
  let i = slot_from l.sector s l.n 0
  let b₁ = bread (l.start + i + 1) l.bufs
  let b₂ = bwrite (l.start + i + 1) (modify (l.start + i + 1) (look b₁ s) b₁)
  ok (record l {
    sector = update l.sector i s;
    n = if i == l.n then l.n + 1 else l.n;
    bufs = pin s b₂;
  })
