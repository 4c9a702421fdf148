-- ===== src/Fs/Content/Read.antt =====
-- What `readi` reads of a file.
use t2_so.Base.{
  ℕ, zero, suc, ◌+◌, ◌-◌, ◌*◌, ◌/◌, ◌%◌, ◌^◌, ◌≤◌, ◌<◌, ◌≡◌, ◌≢◌, refl, arith, ◌==◌, ◌&&◌,
  if◌then◌else◌, ltb, leb, min, true, false, Bool-cases, inl, inr, fun_ext, pos, negsuc,
}
use t2_so.Str.{Memory}
use t2_so.Fs.{Blocks, bsize, t_dev}
use t2_so.Fs.Run.{done}
use t2_so.Fs.Inode.{State}
use t2_so.Fs.Content.{Devices, copy_bytes, bmap, piece, read_from, too_far, readi}
use t2_so.Fs.Content.Mapped.{block_of, IsMapped, content, bmap-block_of}

-- `dst` with `n` bytes of `c`, from `c off` on, at `d`
abbrev pub overlay : (ℕ → ℕ) → Memory → ℕ → ℕ → ℕ → Memory
overlay c dst d off n a = if leb d a && ltb a (d + n) then c (off + (a - d)) else dst a

-- a piece of `c`, then the rest
overlay-piece :
    (c : ℕ → ℕ) (dst src : Memory) (d off at m left : ℕ)
    → ((j : ℕ) → j < m → src (at + j) ≡ c (off + j))
    → m ≤ left
    → overlay c (copy_bytes dst d src at m) (d + m) (off + m) (left - m) ≡ overlay c dst d off left
unfolding copy_bytes
overlay-piece c dst src d off at m left same le = fun_ext each
  where
    each :
        (a : ℕ)
        → overlay c (copy_bytes dst d src at m) (d + m) (off + m) (left - m) a
          ≡ overlay c dst d off left a
    each a = elim (Bool-cases (leb (d + m) a)) [
      | inl later ↦
          let q : off + m + (a - (d + m)) ≡ off + (a - d) = ground (arith, later) in
          rw q (ground (arith, later))
      | inr earlier ↦ ground (arith, earlier, same (a - d))
    ]

overlay_none :
    (c : ℕ → ℕ) (dst : Memory) (d off left : ℕ) → left ≡ 0 → overlay c dst d off left ≡ dst
overlay_none c dst d off left z = fun_ext λ a. each a
  where
    each : (a : ℕ) → overlay c dst d off left a ≡ dst a
    each a = ground arith

module _ {W : Type 0} (io : Blocks W) where
  byte_at :
      (s : State W) (i k b r : ℕ)
      → k / bsize ≡ b
      → k % bsize ≡ r
      → io.data_of s.world (block_of io s i b) r ≡ content io s i k
  byte_at s i k b r e f = rw (← e, ← f) refl

  read_from-content :
      (s : State W) (i count : ℕ)
      → IsMapped io s i count
      → (fuel : ℕ) (dst : Memory) (d off left : ℕ) → left ≤ fuel
      → off + left ≤ count * bsize
      → read_from io fuel i dst d off left s ≡ done (overlay (content io s i) dst d off left, s)
  unfolding read_from
  read_from-content s i count mapped zero dst d off left le fits =
      rw (overlay_none (content io s i) dst d off left (omega arith))
  read_from-content s i count mapped (suc fuel) dst d off left le fits =
      elim (Bool-cases (left == 0)) [
        | inl z ↦ rw (z, overlay_none (content io s i) dst d off left (ground (arith, z)))
        | inr nz ↦
            let m : ℕ = piece left off in
            let from_ : Memory = io.data_of s.world (block_of io s i (off / bsize)) in
            let found : bmap io i (off / bsize) s ≡ done (block_of io s i (off / bsize), s) =
              bmap-block_of io s i count (off / bsize) mapped (ground (arith, nz)) in
            let rest : read_from io fuel i (copy_bytes dst d from_ (off % bsize) m) (d + m)
                  (off + m) (left - m) s
                ≡ done (
                  overlay (content io s i) (copy_bytes dst d from_ (off % bsize) m) (d + m)
                      (off + m) (left - m),
                  s,
                ) =
              read_from-content s i count mapped fuel (copy_bytes dst d from_ (off % bsize) m)
                (d + m) (off + m) (left - m) (ground (arith, nz)) (omega arith) in
            let joined : overlay (content io s i) (copy_bytes dst d from_ (off % bsize) m) (d + m)
                  (off + m) (left - m)
                ≡ overlay (content io s i) dst d off left =
              overlay-piece (content io s i) dst from_ d off (off % bsize) m left
                (λ j lt.
                  byte_at s i (off + j) (off / bsize) (off % bsize + j) (omega arith) (omega arith))
                (omega arith) in
            rw (nz, found, rest, joined)
      ]

  -- `readi` of a file whose blocks are all there, within the range that the code accepts. It reads up
  -- to the end of the file, leaves the file as it is, and changes no other byte of the buffer.
  pub readi-content :
      (devsw : Devices W) (s : State W) (i count : ℕ) (dst : Memory) (off n : ℕ)
      → (s.icache i).disk.type ≢ t_dev
      → IsMapped io s i count
      → (s.icache i).disk.size ≤ count * bsize
      → off + n < 2 ^ 32
      → readi io devsw i dst off n s ≡ (
          if ltb (s.icache i).disk.size off
          then done (negsuc 0, dst, s)
          else done (
            pos (min n ((s.icache i).disk.size - off)),
            overlay (content io s i) dst 0 off (min n ((s.icache i).disk.size - off)),
            s,
          ))
  unfolding readi
  readi-content devsw s i count dst off n plain mapped sized small =
      let no_wrap : (off + n) % 2 ^ 32 ≡ off + n = omega arith in
      let file : ((s.icache i).disk.type == t_dev) ≡ false = ground (arith, plain) in
      let size : ℕ = (s.icache i).disk.size in
      let m : ℕ = min n (size - off) in
      elim (Bool-cases (ltb size off)) [
        | inl past ↦
            let far : too_far off n size ≡ true = ground (arith, past) in rw (file, far, past)
        | inr inside ↦
            let far : too_far off n size ≡ false = ground (arith, inside, no_wrap) in
            let cut : (if ltb size ((off + n) % 2 ^ 32) then size - off else n) ≡ m =
              ground (arith, inside, no_wrap) in
            let bytes : read_from io m i dst 0 off m s
                ≡ done (overlay (content io s i) dst 0 off m, s) =
              read_from-content s i count mapped m dst 0 off m (omega arith)
                (ground (arith, inside)) in
            rw (file, far, cut, bytes, inside)
      ]
