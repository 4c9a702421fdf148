-- ===== src/Fs/Content.antt =====
-- The content of an inode in src/fs.c: the blocks that hold it, reading and writing. Block numbers
-- 0 to 11 stand in the inode, the next 128 in the block that its last address names.
pub mod Mapped
pub mod Read
pub mod Apart
pub mod Write
pub mod Overwrite
use t2_so.Base.{
  ℕ, zero, suc, ◌+◌, ◌-◌, ◌*◌, ◌/◌, ◌%◌, ◌^◌, Bool, true, false, not, ◌&&◌, ◌||◌, ◌==◌,
  if◌then◌else◌, ltb, leb, min, Option, none, some, update,
}
use t2_so.Base.{ℤ, pos, negsuc, Result}
use t2_so.Str.{Memory, store_word}
use t2_so.Kalloc.{load_word}
use t2_so.Fs.{Blocks, bsize, ndirect, nindirect, maxfile, ndev, t_dev}
use t2_so.Fs.Run.{Run, done, halt, sleeps, called, halt_if, ◌>>=◌, ◌>>◌}
use t2_so.Fs.Bitmap.{balloc, bfree}
use t2_so.Fs.Inode.{Dinode, Inode, State, with_inode, iupdate, iunlock}

-- `devsw`: the functions of the devices, each with the entry of the inode, a buffer and a count. A
-- null pointer is `none`.
pub record Devices (W : Type 0) : Type 0 where
  pub read : ℕ → Option (ℕ → Memory → ℕ → State W → Run (ℤ × Memory × State W))
  pub write : ℕ → Option (ℕ → Memory → ℕ → State W → Run (ℤ × State W))

-- one address of the inode changed
abbrev pub set_addr : {W : Type 0} → State W → ℕ → ℕ → ℕ → State W
set_addr s i bn addr =
    let ip = s.icache i in
    with_inode s i
      (record ip { disk = record (ip.disk) { addrs = update (ip.disk.addrs) bn addr } })

abbrev pub with_size : {W : Type 0} → State W → ℕ → ℕ → State W
with_size s i size =
    let ip = s.icache i in with_inode s i (record ip { disk = record (ip.disk) { size = size } })

-- `memmove` of `n` bytes between two arrays
unfoldable pub copy_bytes : Memory → ℕ → Memory → ℕ → ℕ → Memory
copy_bytes to d from_ s n a = if leb d a && ltb a (d + n) then from_ (s + (a - d)) else to a

-- `m = min(n - tot, BSIZE - off%BSIZE)`
abbrev pub piece : ℕ → ℕ → ℕ
piece left off = min left (bsize - off % bsize)

-- a call of a device, -1 if there is none; a negative `major` is a large pattern
abbrev pub device : {A : Type 0} → ℕ → (ℕ → Option A) → Option A
device major calls = if leb ndev major then none else calls major

abbrev pub too_far : ℕ → ℕ → ℕ → Bool
too_far off n size = ltb size off || ltb ((off + n) % 2 ^ 32) off

module _ {W : Type 0} (io : Blocks W) where
  -- an address of the inode, allocated if there is none
  unfoldable pub own_block : ℕ → ℕ → State W → Run (ℕ × State W)
  own_block i k s =
      let addr = (s.icache i).disk.addrs k in
      if addr == 0
      then (balloc io s.world >>= λ r. done (r.0, set_addr (record s { world = r.1 }) i k r.0))
      else done (addr, s)

  -- entry `k` of the indirect block `addr`
  unfoldable pub indirect_block : ℕ → ℕ → State W → Run (ℕ × State W)
  indirect_block addr k s =
      let a = load_word (io.data_of s.world addr) (4 * k) in
      if a == 0
      then (balloc io s.world >>= λ r.
          called (io.log_write addr (store_word (io.data_of r.1 addr) (4 * k) r.0) r.1) >>= λ w.
          done (r.0, record s { world = w }))
      else done (a, s)

  unfoldable pub bmap : ℕ → ℕ → State W → Run (ℕ × State W)
  bmap i bn s =
      if ltb bn ndirect
      then own_block i bn s
      else (if ltb (bn - ndirect) nindirect
          then (own_block i ndirect s >>= λ r. indirect_block r.0 (bn - ndirect) r.1)
          else halt)

  -- the first loop of `itrunc`, from address `k` on with `left` to go
  unfoldable pub free_direct : ℕ → ℕ → ℕ → State W → Run (State W)
  free_direct i zero k s = done s
  free_direct i (suc left) k s =
      let addr = (s.icache i).disk.addrs k in
      (if addr == 0
        then done s
        else (bfree io addr s.world >>= λ w. done (set_addr (record s { world = w }) i k 0)))
      >>= free_direct i left (k + 1)

  -- the second loop, over the words of the indirect block
  unfoldable pub free_indirect : Memory → ℕ → ℕ → W → Run W
  free_indirect a zero j w = done w
  free_indirect a (suc left) j w =
      (if load_word a (4 * j) == 0 then done w else bfree io (load_word a (4 * j)) w)
      >>= free_indirect a left (j + 1)

  unfoldable pub free_last : ℕ → State W → Run (State W)
  free_last i s =
      let addr = (s.icache i).disk.addrs ndirect in
      if addr == 0
      then done s
      else (free_indirect (io.data_of s.world addr) nindirect 0 s.world >>= λ w.
          bfree io addr w >>= λ w₁. done (set_addr (record s { world = w₁ }) i ndirect 0))

  unfoldable pub itrunc : ℕ → State W → Run (State W)
  itrunc i s =
      free_direct i ndirect 0 s >>= λ s₁. free_last i s₁ >>= λ s₂. iupdate io i (with_size s₂ i 0)

  -- `iput`. The entry is busy while `itrunc` runs.
  unfoldable pub iput : ℕ → State W → Run (State W)
  iput i s =
      let ip = s.icache i in
      (if ip.ref == 1 && ip.valid && ip.disk.nlink == 0
        then (halt_if ip.busy
            >> (itrunc i (with_inode s i (record ip { busy = true })) >>= λ s₁.
                iupdate io i (
                  with_inode s₁ i
                    (record (s₁.icache i) { disk = record ((s₁.icache i).disk) { type = 0 } }))
                >>= λ s₂.
                    done (with_inode s₂ i (record (s₂.icache i) { busy = false; valid = false }))))
        else done s)
      >>= λ s'. done (with_inode s' i (record (s'.icache i) { ref = (s'.icache i).ref - 1 }))

  unfoldable pub iunlockput : ℕ → State W → Run (State W)
  iunlockput i s = iunlock io i s >>= iput i

  -- the loop of `readi` with `left` bytes to go, on fuel; the bytes go to `dst` from `d` on
  unfoldable pub read_from : ℕ → ℕ → Memory → ℕ → ℕ → ℕ → State W → Run (Memory × State W)
  read_from zero i dst d off left s = done (dst, s)
  read_from (suc fuel) i dst d off left s =
      let m = piece left off in
      if left == 0
      then done (dst, s)
      else (bmap i (off / bsize) s >>= λ r.
          read_from fuel i (copy_bytes dst d (io.data_of r.1.world r.0) (off % bsize) m) (d + m)
            (off + m) (left - m) r.1)

  -- the loop of `writei`, from `src` at `d` on; it returns the offset that it has reached
  unfoldable pub write_from : ℕ → ℕ → Memory → ℕ → ℕ → ℕ → State W → Run (ℕ × State W)
  write_from zero i src d off left s = done (off, s)
  write_from (suc fuel) i src d off left s =
      let m = piece left off in
      if left == 0
      then done (off, s)
      else (bmap i (off / bsize) s >>= λ r.
          called (
            io.log_write r.0 (copy_bytes (io.data_of r.1.world r.0) (off % bsize) src d m)
              r.1.world)
          >>= λ w. write_from fuel i src (d + m) (off + m) (left - m) (record (r.1) { world = w }))

  unfoldable pub readi : Devices W → ℕ → Memory → ℕ → ℕ → State W → Run (ℤ × Memory × State W)
  readi devsw i dst off n s =
      let d = (s.icache i).disk in
      let m = if ltb d.size ((off + n) % 2 ^ 32) then d.size - off else n in
      if d.type == t_dev
      then elim (device d.major devsw.read) [
        | none ↦ done (negsuc 0, dst, s)
        | some call ↦ call i dst n s
      ]
      else (if too_far off n d.size
          then done (negsuc 0, dst, s)
          else (read_from m i dst 0 off m s >>= λ r. done (pos m, r.0, r.1)))

  -- the end of `writei`
  unfoldable pub grow : ℕ → ℕ → ℕ → State W → Run (State W)
  grow i n off s =
      if ltb 0 n && ltb (s.icache i).disk.size off then iupdate io i (with_size s i off) else done s

  unfoldable pub writei : Devices W → ℕ → Memory → ℕ → ℕ → State W → Run (ℤ × State W)
  writei devsw i src off n s =
      let d = (s.icache i).disk in
      if d.type == t_dev
      then elim (device d.major devsw.write) [
        | none ↦ done (negsuc 0, s)
        | some call ↦ call i src n s
      ]
      else (if too_far off n d.size || ltb (maxfile * bsize) ((off + n) % 2 ^ 32)
          then done (negsuc 0, s)
          else (write_from n i src 0 off n s >>= λ r. grow i n r.0 r.1 >>= λ s'. done (pos n, s')))
