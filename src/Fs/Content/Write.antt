-- ===== src/Fs/Content/Write.antt =====
-- What `writei` does to a file whose blocks are there already: an overwrite.
use t2_so.Base.{
  ℕ, zero, suc, ◌+◌, ◌-◌, ◌*◌, ◌/◌, ◌%◌, ◌≤◌, ◌<◌, ◌≡◌, ◌∙◌, refl, arith, ◌==◌, ◌&&◌, if◌then◌else◌,
  ltb, leb, true, false, Bool-cases, inl, inr, ap, sym, ok, subst,
}
use t2_so.Str.{Memory}
use t2_so.Fs.{Blocks, IsLawful, bsize}
use t2_so.Fs.Run.{Run, done, called, ◌>>=◌, >>=-eq-done, called-eq-done, done-injective}
use t2_so.Fs.Inode.{State}
use t2_so.Fs.Content.{copy_bytes, bmap, piece, write_from}
use t2_so.Fs.Content.Mapped.{block_of, content, bmap-block_of}
use t2_so.Fs.Content.Apart.{
  IsApart, Overwritten, data_after, block_of-after, after-IsApart, content-after,
}

-- a piece of `src` at `off`, over it the rest
merge :
    (src : Memory) (d off left k c mid : ℕ)
    → mid ≡ (
        if k / bsize == off / bsize
        then (if leb (off % bsize) (k % bsize) && ltb (k % bsize) (off % bsize + piece left off)
            then src (d + (k % bsize - off % bsize))
            else c)
        else c)
    → (if leb (off + piece left off) k && ltb k (off + piece left off + (left - piece left off))
        then src (d + piece left off + (k - (off + piece left off)))
        else mid)
      ≡ (if leb off k && ltb k (off + left) then src (d + (k - off)) else c)
merge src d off left k c mid e = elim (Bool-cases (leb (off + piece left off) k)) [
  | inl later ↦
      let q : d + piece left off + (k - (off + piece left off)) ≡ d + (k - off) =
        ground (arith, later) in
      rw q (ground (arith, later, e))
  | inr earlier ↦ elim (Bool-cases (leb off k)) [
    | inl within ↦
        let block : k / bsize ≡ off / bsize = ground (arith, earlier, within) in
        let q : k % bsize - off % bsize ≡ k - off = ground (arith, block, within) in
        let same : (k / bsize == off / bsize) ≡ true = ground (arith, block) in
        let hit : (leb (off % bsize) (k % bsize) && ltb (k % bsize) (off % bsize + piece left off))
            ≡ true =
          ground (arith, block, earlier, within) in
        let now : mid ≡ src (d + (k - off)) = e ∙ rw (same, hit, q) in
        ground (arith, now, earlier, within)
    | inr before ↦ ground (arith, before, e)
  ]
]

module _ {W : Type 0} (io : Blocks W) (limit : ℕ) (law : IsLawful io limit) (i count : ℕ) where
  nothing_left :
      (src : Memory) (d off left : ℕ) (s : State W)
      → left ≡ 0
      → IsApart io limit s i count
      → Overwritten io limit i count src d off left s s
  nothing_left src d off left s z h = record {
    icache = refl;
    apart = h;
    blocks = λ bn lt. refl;
    bytes = λ k lt. ground arith;
    others = λ x lt away. refl;
  }

  -- the data that a round writes
  abbrev data_for : State W → Memory → ℕ → ℕ → ℕ → Memory
  data_for s src d off left =
      copy_bytes (io.data_of s.world (block_of io s i (off / bsize))) (off % bsize) src d
        (piece left off)

  one_round :
      (src : Memory) (d off left : ℕ) (s : State W) (w : W) (s' : State W)
      → (h : IsApart io limit s i count) → 0 < left
      → off + left ≤ count * bsize
      → io.log_write (block_of io s i (off / bsize)) (data_for s src d off left) s.world ≡ ok w
      → Overwritten io limit i count src
          (d + piece left off)
          (off + piece left off)
          (left - piece left off)
          (record s { world = w })
          s'
      → Overwritten io limit i count src d off left s s'
  unfolding copy_bytes
  one_round src d off left s w s' h some_left fits e o = record {
    icache = o.icache;
    apart = o.apart;
    blocks = λ bn lt.
        o.blocks bn lt
        ∙ block_of-after io limit law s i count (off / bsize) h (omega arith)
            (data_for s src d off left) w e bn lt;
    bytes = λ k lt.
        o.bytes k lt
        ∙ merge src d off left k (content io s i k) (content io (record s { world = w }) i k)
            (middle k lt);
    others = λ x lt away.
        let miss : (block_of io s i (off / bsize) == x) ≡ false =
          ground (arith, away (off / bsize) (omega arith)) in
        o.others x lt (λ bn small q. away bn small (
          sym (
            block_of-after io limit law s i count (off / bsize) h (omega arith)
              (data_for s src d off left) w e bn small)
          ∙ q))
        ∙ (data_after io limit law s i count (off / bsize) h (omega arith)
              (data_for s src d off left) w e x lt
            ∙ rw miss);
  }
    where
      middle :
          (k : ℕ)
          → k < count * bsize
          → content io (record s { world = w }) i k ≡ (
              if k / bsize == off / bsize
              then (if leb (off % bsize) (k % bsize)
                    && ltb (k % bsize) (off % bsize + piece left off)
                  then src (d + (k % bsize - off % bsize))
                  else content io s i k)
              else content io s i k)
      middle k lt =
          content-after io limit law s i count (off / bsize) h (omega arith)
            (data_for s src d off left) w e k lt
          ∙ elim (Bool-cases (k / bsize == off / bsize)) [
            | inl here ↦
                let same : k / bsize ≡ off / bsize = ground (arith, here) in
                let there : content io s i k
                    ≡ io.data_of s.world (block_of io s i (off / bsize)) (k % bsize) =
                  ap (λ b. io.data_of s.world (block_of io s i b) (k % bsize)) same in
                rw (here, there) refl
            | inr away ↦ rw away
          ]

  -- The loop of `writei` overwrites the bytes, and returns where it has stopped.
  pub write_from-Overwritten :
      (fuel : ℕ) (src : Memory) (d off left : ℕ) (s s' : State W) (end : ℕ)
      → left ≤ fuel
      → off + left ≤ count * bsize
      → IsApart io limit s i count
      → write_from io fuel i src d off left s ≡ done (end, s')
      → (end ≡ off + left) × Overwritten io limit i count src d off left s s'
  unfolding write_from
  write_from-Overwritten zero src d off left s s' end le fits h e =
      let out : (off, s) ≡ (end, s') = done-injective e in
      subst
        (λ (r : ℕ × State W).
          (r.0 ≡ off + left) × Overwritten io limit i count src d off left s r.1)
        out (omega arith, nothing_left src d off left s (omega arith) h)
  write_from-Overwritten (suc fuel) src d off left s s' end le fits h e =
      elim (Bool-cases (left == 0)) [
        | inl z ↦
            let out : (off, s) ≡ (end, s') = done-injective (sym (rw z) ∙ e) in
            subst
              (λ (r : ℕ × State W).
                (r.0 ≡ off + left) × Overwritten io limit i count src d off left s r.1)
              out (ground (arith, z), nothing_left src d off left s (ground (arith, z)) h)
        | inr nz ↦
            let m : ℕ = piece left off in
            let found : bmap io i (off / bsize) s ≡ done (block_of io s i (off / bsize), s) =
              bmap-block_of io s i count (off / bsize) h.mapped (ground (arith, nz)) in
            let write : Run W =
              called (
                io.log_write (block_of io s i (off / bsize)) (data_for s src d off left) s.world) in
            let rest : W → Run (ℕ × State W) =
              λ w. write_from io fuel i src (d + m) (off + m) (left - m) (record s { world = w }) in
            let e₁ : write >>= rest ≡ done (end, s') = sym (rw (nz, found)) ∙ e in
            let (w, written, next) = >>=-eq-done write rest e₁ in
            let logged : io.log_write (block_of io s i (off / bsize)) (data_for s src d off left)
                  s.world
                ≡ ok w =
              called-eq-done
                (io.log_write (block_of io s i (off / bsize)) (data_for s src d off left) s.world)
                written in
            let h' : IsApart io limit (record s { world = w }) i count =
              after-IsApart io limit law s i count (off / bsize) h (ground (arith, nz))
                (data_for s src d off left) w logged in
            let (stop, o) =
              write_from-Overwritten fuel src (d + m) (off + m) (left - m) (record s { world = w })
                s' end (ground (arith, nz)) (omega arith) h' next in
            (
              omega (arith, stop),
              one_round src d off left s w s' h (ground (arith, nz)) fits logged o,
            )
      ]
