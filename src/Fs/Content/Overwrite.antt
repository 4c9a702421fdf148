-- ===== src/Fs/Content/Overwrite.antt =====
-- `writei` within a file, and `readi` after it.
use t2_so.Base.{true}
use t2_so.Base.{leb}
use t2_so.Base.{Bool-cases, inl, inr}
use t2_so.Base.{fun_ext}
use t2_so.Base.{subst}
use t2_so.Base.{◌-◌}
use t2_so.Base.{min}
use t2_so.Base.{◌||◌}
use t2_so.Base.{◌∙◌}
use t2_so.Base.{◌==◌}
use t2_so.Base.{sym}
use t2_so.Base.{◌^◌}
use t2_so.Base.{ap}
use t2_so.Base.{◌%◌}
use t2_so.Base.{arith}
use t2_so.Base.{false}
use t2_so.Base.{pos}
use t2_so.Base.{◌+◌}
use t2_so.Base.{◌&&◌}
use t2_so.Base.{◌*◌}
use t2_so.Base.{ltb}
use t2_so.Base.{◌≡◌}
use t2_so.Base.{◌≢◌}
use t2_so.Base.{ℤ}
use t2_so.Base.{◌≤◌}
use t2_so.Base.{ℕ}
use t2_so.Base.{refl}
use t2_so.Str.{Memory}
use t2_so.Fs.{Blocks, IsLawful, bsize, maxfile, t_dev}
use t2_so.Fs.Run.{Run, done, ◌>>=◌, >>=-eq-done, done-injective}
use t2_so.Fs.Inode.{Inode, State}
use t2_so.Fs.Content.{Devices, copy_bytes, write_from, grow, too_far, writei, readi}
use t2_so.Fs.Content.Mapped.{content}
use t2_so.Fs.Content.Read.{overlay, readi-content}
use t2_so.Fs.Content.Apart.{IsApart, Overwritten}
use t2_so.Fs.Content.Write.{write_from-Overwritten}

module _ {W : Type 0} (io : Blocks W) (limit : ℕ) (law : IsLawful io limit)
    (devsw : Devices W) where
  -- the size stays when a write ends inside the file
  grow_inside :
      (i n off : ℕ) (s : State W) → off ≤ (s.icache i).disk.size → grow io i n off s ≡ done s
  unfolding grow
  grow_inside i n off s le =
      let no : (ltb 0 n && ltb (s.icache i).disk.size off) ≡ false = ground (arith, le) in
      rw no refl

  -- the end of `writei` after its loop
  abbrev finish : ℕ → ℕ → ℕ × State W → Run (ℤ × State W)
  finish i n q = grow io i n q.0 q.1 >>= λ s₁. done (pos n, s₁)

  -- the end of `writei` leaves what the loop has made
  returned :
      (P : State W → Type 0) (i n off : ℕ) (s s' : State W) (r : ℤ)
      → off ≤ (s.icache i).disk.size
      → finish i n (off, s) ≡ done (r, s')
      → P s
      → (r ≡ pos n) × P s'
  returned P i n off s s' r le e p =
      let out : (pos n, s) ≡ (r, s') = done-injective (sym (rw (grow_inside i n off s le)) ∙ e) in
      subst (λ (q : ℤ × State W). (q.0 ≡ pos n) × P q.1) out (refl {a = pos n}, p)

  -- A call of `writei` that returns, inside a file that is no device and whose blocks are there and
  -- apart, returns the count. The file then holds the bytes of the buffer from `off` on, and else what
  -- it held; its inode is unchanged, and so is each block below the log that is not the file's.
  pub writei-Overwritten :
      (s s' : State W) (i count : ℕ) (src : Memory) (off n : ℕ) (r : ℤ)
      → (s.icache i).disk.type ≢ t_dev
      → IsApart io limit s i count
      → (s.icache i).disk.size ≤ count * bsize
      → off + n ≤ (s.icache i).disk.size
      → writei io devsw i src off n s ≡ done (r, s')
      → (r ≡ pos n) × Overwritten io limit i count src 0 off n s s'
  unfolding writei
  writei-Overwritten s s' i count src off n r plain h sized inside e =
      let size : ℕ = (s.icache i).disk.size in
      let small : count ≤ maxfile = h.mapped.small in
      let no_wrap : (off + n) % 2 ^ 32 ≡ off + n = omega arith in
      let file : ((s.icache i).disk.type == t_dev) ≡ false = ground (arith, plain) in
      let near : (too_far off n size || ltb (maxfile * bsize) ((off + n) % 2 ^ 32)) ≡ false =
        ground (arith, inside, no_wrap, small, sized) in
      let loop : Run (ℕ × State W) = write_from io n i src 0 off n s in
      let e₁ : loop >>= finish i n ≡ done (r, s') = sym (rw (file, near)) ∙ e in
      let ((end, s₁), ran, next) = >>=-eq-done loop (finish i n) e₁ in
      let (stop, o) =
        write_from-Overwritten io limit law i count n src 0 off n s s₁ end (omega arith)
          (omega arith) h ran in
      let same : (s₁.icache i).disk.size ≡ size =
        ap (λ (c : ℕ → Inode). (c i).disk.size) (o.icache) in
      returned (Overwritten io limit i count src 0 off n s) i n end s₁ s' r
        (omega (arith, stop, same, inside)) next o

  same_byte :
      (s s' : State W) (i count : ℕ) (src dst : Memory) (off n : ℕ)
      → Overwritten io limit i count src 0 off n s s'
      → off + n ≤ count * bsize
      → (a : ℕ) → overlay (content io s' i) dst 0 off n a ≡ copy_bytes dst 0 src 0 n a
  unfolding copy_bytes
  same_byte s s' i count src dst off n o fits a = elim (Bool-cases (ltb a n)) [
    | inl within ↦
        let there : (leb off (off + a) && ltb (off + a) (off + n)) ≡ true =
          ground (arith, within) in
        let place : 0 + (off + a - off) ≡ a = omega arith in
        let byte : content io s' i (off + a) ≡ src a =
          o.bytes (off + a) (ground (arith, within)) ∙ rw (there, place) in
        ground (arith, within, byte)
    | inr beyond ↦ ground (arith, beyond)
  ]

  -- What `writei` has written inside a file, `readi` reads back, and it changes no other byte of the
  -- reader's buffer. The file is no device, its blocks are there and apart, and the write has returned.
  pub readi-writei :
      (s s' : State W) (i count : ℕ) (src dst : Memory) (off n : ℕ) (r : ℤ)
      → (s.icache i).disk.type ≢ t_dev
      → IsApart io limit s i count
      → (s.icache i).disk.size ≤ count * bsize
      → off + n ≤ (s.icache i).disk.size
      → writei io devsw i src off n s ≡ done (r, s')
      → readi io devsw i dst off n s' ≡ done (pos n, copy_bytes dst 0 src 0 n, s')
  readi-writei s s' i count src dst off n r plain h sized inside e =
      let (_, o) = writei-Overwritten s s' i count src off n r plain h sized inside e in
      let size : ℕ = (s'.icache i).disk.size in
      let same : size ≡ (s.icache i).disk.size =
        ap (λ (c : ℕ → Inode). (c i).disk.size) (o.icache) in
      let plain' : (s'.icache i).disk.type ≢ t_dev =
        λ q. plain (sym (ap (λ (c : ℕ → Inode). (c i).disk.type) (o.icache)) ∙ q) in
      let small : count ≤ maxfile = h.mapped.small in
      let whole : min n (size - off) ≡ n = omega (arith, same) in
      let near : ltb size off ≡ false = ground (arith, same, inside) in
      let bytes : overlay (content io s' i) dst 0 off n ≡ copy_bytes dst 0 src 0 n =
        fun_ext (same_byte s s' i count src dst off n o (omega (arith, inside, sized))) in
      readi-content io devsw s' i count dst off n plain' (o.apart.mapped) (omega (arith, same))
        (omega arith)
      ∙ rw (near, whole, bytes)
