-- ===== src/Fs/Bitmap/Claim.antt =====
-- What `balloc` leaves.
use t2_so.Base.{ℕ, ◌<◌, ◌≡◌, ◌≢◌, ◌==◌, if◌then◌else◌, true, false}
use t2_so.Fs.{Superblock, Blocks, readsb, bsize, bblock}
use t2_so.Fs.Bitmap.Alloc.{used, IsFirstFree}

module _ {W : Type 0} (io : Blocks W) where
  -- The blocks that the file system may take: where the bitmap has a free block, it lies above the
  -- bitmap and below the log.
  abbrev pub IsReserved : ℕ → W → Superblock → Type 0
  IsReserved limit w sb =
      (x : ℕ)
      → x < sb.size
      → used io w sb.ninodes x ≡ false
      → (bblock sb.size sb.ninodes < x) × (x < limit)

  -- what `balloc` leaves after it has returned block `b`
  pub record Allocated (limit : ℕ) (w : W) (b : ℕ) (w' : W) : Type 0 where
    pub first : IsFirstFree io w (readsb io w) 0 b
    pub marked :
        (x : ℕ)
        → x < (readsb io w).size
        → used io w' (readsb io w).ninodes x
          ≡ (if b == x then true else used io w (readsb io w).ninodes x)
    pub zeroed : (i : ℕ) → i < bsize → io.data_of w' b i ≡ 0
    pub others :
        (x : ℕ)
        → x < limit
        → x ≢ b
        → x ≢ bblock b (readsb io w).ninodes
        → io.data_of w' x ≡ io.data_of w x
