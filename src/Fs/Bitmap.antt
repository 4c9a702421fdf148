-- ===== src/Fs/Bitmap.antt =====
-- The allocator of disk blocks in src/fs.c: `bzero`, `balloc` and `bfree` over the bitmap.
pub mod Bits
pub mod Alloc
pub mod Claim
pub mod Free
use t2_so.Base.{
  ℕ, zero, suc, ◌+◌, ◌-◌, ◌*◌, ◌/◌, ◌%◌, ◌^◌, Bool, true, false, not, ◌==◌, if◌then◌else◌, ltb,
  Option, none, some, update, min,
}
use t2_so.Base.{find_from}
use t2_so.Str.{Memory, memset}
use t2_so.Fs.{Superblock, Blocks, readsb, bsize, bpb, bblock}
use t2_so.Fs.Run.{Run, done, halt, called, halt_if, ◌>>=◌, ◌>>◌}

-- `m = 1 << (bi % 8)`
abbrev pub mask : ℕ → ℕ
mask bi = 2 ^ (bi % 8)

-- bit `k` of a byte
unfoldable pub bit : ℕ → ℕ → ℕ
bit zero x = x % 2
bit (suc k) x = bit k (x / 2)

-- `bp->data[bi/8] & m`
unfoldable pub in_use : Memory → ℕ → Bool
in_use m bi = bit (bi % 8) (m (bi / 8)) == 1

-- `bp->data[bi/8] |= m`, for a bit that is clear
unfoldable pub mark : Memory → ℕ → Memory
mark m bi = update m (bi / 8) (m (bi / 8) + mask bi)

-- `bp->data[bi/8] &= ~m`, for a bit that is set
unfoldable pub clear : Memory → ℕ → Memory
clear m bi = update m (bi / 8) (m (bi / 8) - mask bi)

module _ {W : Type 0} (io : Blocks W) where
  unfoldable pub bzero : ℕ → W → Run W
  bzero bno w = called (io.log_write bno (memset (io.data_of w bno) 0 0 bsize) w)

  -- the inner loop of `balloc`: the first free bit of a bitmap block, of those that stand for blocks
  abbrev pub free_bit : Memory → ℕ → ℕ → Option ℕ
  free_bit m b size = find_from (λ (bi : ℕ). not (in_use m bi)) (λ bi. bi) (min bpb (size - b)) 0

  -- the block that `balloc` has found is marked and zeroed
  unfoldable pub claim : ℕ → ℕ → ℕ → W → Run (ℕ × W)
  claim ninodes b bi w = do
    w₁ ← called (io.log_write (bblock b ninodes) (mark (io.data_of w (bblock b ninodes)) bi) w)
    w₂ ← bzero (b + bi) w₁
    done (b + bi, w₂)

  -- the outer loop of `balloc`, from block `b` on, with `left` bitmap blocks to look at
  unfoldable pub balloc_from : Superblock → ℕ → ℕ → W → Run (ℕ × W)
  balloc_from sb zero b w = halt
  balloc_from sb (suc left) b w = elim (free_bit (io.data_of w (bblock b sb.ninodes)) b sb.size) [
    | none ↦ balloc_from sb left (b + bpb) w
    | some bi ↦ claim sb.ninodes b bi w
  ]

  unfoldable pub balloc : W → Run (ℕ × W)
  balloc w = let sb = readsb io w in balloc_from sb ((sb.size + bpb - 1) / bpb) 0 w

  unfoldable pub bfree : ℕ → W → Run W
  bfree b w = do
    let bno = bblock b ((readsb io w).ninodes)
    halt_if (not (in_use (io.data_of w bno) (b % bpb)))
    called (io.log_write bno (clear (io.data_of w bno) (b % bpb)) w)
