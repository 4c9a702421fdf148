-- ===== src/File/Chunks.antt =====
-- `filewrite` to an inode, as a sequence of transactions.
use t2_so.Base.{
  ℕ, zero, suc, ◌+◌, ◌-◌, ◌%◌, ◌^◌, ◌≤◌, ◌<◌, ◌≡◌, ◌∙◌, sym, ap, arith, true, false, ◌==◌,
  if◌then◌else◌, Bool-cases, inl, inr, subst,
}
use t2_so.Base.{ℤ, pos, negsuc, ltb_ℤ, Result, ok, panic, ◌>>=◌, >>=-eq-ok, ok-injective}
use t2_so.File.{
  File, fd_inode, Calls, chunk, advanced, WriteEnd, write_chunk, after_chunk, write_chunks,
  filewrite,
}

-- The transactions that write the `left` bytes at `addr`: each writes all that it is given, at
-- least one byte and at most 1536, where the one before it stopped.
pub data Wrote {W : Type 0} (c : Calls W) : File → ℕ → ℕ → W → File → W → Type 0 where
  done : (f : File) (addr : ℕ) (w : W) → Wrote c f addr 0 w f w
  transaction :
      (f f₁ f₂ : File) (addr n left : ℕ) (w w₁ w₂ : W)
      → 0 < n
      → n ≤ 1536
      → write_chunk c f addr n w ≡ ok (pos n, f₁, w₁)
      → Wrote c f₁ ((addr + n) % 2 ^ 32) left w₁ f₂ w₂
      → Wrote c f addr (n + left) w f₂ w₂

module _ {W : Type 0} (c : Calls W) where
  nothing_left :
      (f : File) (addr left : ℕ) (w : W) (f' : File) (w' : W)
      → left ≡ 0
      → ◌≡◌ {A = Result (WriteEnd W)} (ok (0, f, w)) (ok (0, f', w'))
      → Wrote c f addr left w f' w'
  nothing_left f addr left w f' w' z e =
      let q : ◌≡◌ {A = WriteEnd W} (0, f, w) (0, f', w') = ok-injective e in
      rw z (subst (λ (r : WriteEnd W). Wrote c f addr 0 w r.1 r.2) q (done f addr w))

  next_chunk :
      (f : File) (addr left : ℕ) (w : W) (f' : File) (w' : W) (n : ℕ)
      → (rest : File → W → Result (WriteEnd W)) (r : ℤ × File × W) → 0 < n
      → n ≤ 1536
      → n ≤ left
      → write_chunk c f addr n w ≡ ok r
      → after_chunk n left rest r ≡ ok (0, f', w')
      → ((f₁ : File) (w₁ : W)
          → rest f₁ w₁ ≡ ok (0, f', w')
          → Wrote c f₁ ((addr + n) % 2 ^ 32) (left - n) w₁ f' w')
      → Wrote c f addr left w f' w'
  next_chunk f addr left w f' w' n rest (negsuc m, f₁, w₁) lo hi le q e later =
      let z : left ≡ 0 = ap (λ (x : WriteEnd W). x.0) (ok-injective e) in absurd (omega arith)
  next_chunk f addr left w f' w' n rest (pos m, f₁, w₁) lo hi le q e later =
      elim (Bool-cases (m == n)) [
        | inl same ↦
            let mn : m ≡ n = ground (arith, same) in
            let go_on : rest f₁ w₁ ≡ ok (0, f', w') = rw same at e in
            let all : n + (left - n) ≡ left = omega arith in
            subst (λ (k : ℕ). Wrote c f addr k w f' w') all
              (transaction f f₁ f' addr n (left - n) w w₁ w' lo hi
                (subst (λ (k : ℕ). write_chunk c f addr n w ≡ ok (pos k, f₁, w₁)) mn q)
                (later f₁ w₁ go_on))
        | inr other ↦
            let stop : ◌≡◌ {A = Result (WriteEnd W)} panic (ok (0, f', w')) = rw other at e in cc
      ]

  -- the loop, once all is written
  pub write_chunks-Wrote :
      (fuel : ℕ) (f : File) (addr left : ℕ) (w : W) (f' : File) (w' : W)
      → left ≤ fuel
      → write_chunks c fuel f addr left w ≡ ok (0, f', w')
      → Wrote c f addr left w f' w'
  unfolding write_chunks
  write_chunks-Wrote zero f addr left w f' w' le e =
      let q : left ≡ 0 = omega arith in nothing_left f addr left w f' w' q (rw q at e)
  write_chunks-Wrote (suc fuel) f addr left w f' w' le e = elim (Bool-cases (left == 0)) [
    | inl z ↦ nothing_left f addr left w f' w' (ground (arith, z)) (rw z at e)
    | inr nz ↦
        let (r, q, after) = >>=-eq-ok (write_chunk c f addr (chunk left) w) _ (rw nz at e) in
        next_chunk f addr left w f' w' (chunk left) _ r (ground (arith, nz)) (ground arith)
          (ground arith) q after
          (λ f₁ w₁ h.
            write_chunks-Wrote fuel f₁ ((addr + chunk left) % 2 ^ 32) (left - chunk left) w₁ f' w'
              (ground (arith, le, nz)) h)
  ]

  advanced-off : (f : File) (n : ℕ) → (advanced f (pos n)).off % 2 ^ 32 ≡ (f.off + n) % 2 ^ 32
  unfolding advanced
  advanced-off f n = elim (Bool-cases (ltb_ℤ (pos 0) (pos n))) [
    | inl e ↦ rw e (omega arith)
    | inr e ↦ let z : n ≡ 0 = ground (arith, e) in rw (e, z) (omega arith)
  ]

  write_chunk-off :
      (f : File) (addr n : ℕ) (w : W) (f₁ : File) (w₁ : W)
      → write_chunk c f addr n w ≡ ok (pos n, f₁, w₁)
      → f₁.off % 2 ^ 32 ≡ (f.off + n) % 2 ^ 32
  unfolding write_chunk
  write_chunk-off f addr n w f₁ w₁ e =
      let (w₂, _, e₂) = >>=-eq-ok (c.ilock f.ip (c.begin_trans w)) _ e in
      let (r, _, e₃) = >>=-eq-ok (c.writei f.ip addr f.off (pos n) w₂) _ e₂ in
      let (w₃, _, e₄) = >>=-eq-ok (c.iunlock f.ip r.1) _ e₃ in last r.0 (c.commit_trans w₃) e₄
    where
      last :
          (m : ℤ) (w' : W)
          → ◌≡◌ {A = Result (ℤ × File × W)} (ok (m, advanced f m, w')) (ok (pos n, f₁, w₁))
          → f₁.off % 2 ^ 32 ≡ (f.off + n) % 2 ^ 32
      last m w' q =
          let pair : ◌≡◌ {A = ℤ × File × W} (m, advanced f m, w') (pos n, f₁, w₁) =
            ok-injective q in
          let count : m ≡ pos n = ap (λ (r : ℤ × File × W). r.0) pair in
          let file : advanced f m ≡ f₁ = ap (λ (r : ℤ × File × W). r.1) pair in
          rw (← file, count) (advanced-off f n)

  Wrote-off :
      {f f' : File} {addr left : ℕ} {w w' : W}
      → Wrote c f addr left w f' w'
      → f'.off % 2 ^ 32 ≡ (f.off + left) % 2 ^ 32
  Wrote-off (done f addr w) = ground arith
  Wrote-off (transaction f f₁ f₂ addr n left w w₁ w₂ lo hi e rest) =
      omega (arith, Wrote-off rest, write_chunk-off f addr n w f₁ w₁ e)

  -- A transaction never fails to start and writes all that it is given.
  abbrev pub WritesAll : Type 0
  WritesAll =
      (f : File) (addr n : ℕ) (w : W)
      → (f₁ : File) × (w₁ : W) × (write_chunk c f addr n w ≡ ok (pos n, f₁, w₁))

  write_chunks_all :
      WritesAll
      → (fuel : ℕ) (f : File) (addr left : ℕ) (w : W) → left ≤ fuel
      → (f' : File) × (w' : W) × (write_chunks c fuel f addr left w ≡ ok (0, f', w'))
  unfolding write_chunks
  write_chunks_all all zero f addr left w le = let z : left ≡ 0 = omega arith in (f, w, rw z)
  write_chunks_all all (suc fuel) f addr left w le = elim (Bool-cases (left == 0)) [
    | inl z ↦ (f, w, rw z)
    | inr nz ↦
        let (f₁, w₁, e) = all f addr (chunk left) w in
        let (f₂, w₂, later) =
          write_chunks_all all fuel f₁ ((addr + chunk left) % 2 ^ 32) (left - chunk left) w₁
            (ground (arith, le, nz)) in
        let same : (chunk left == chunk left) ≡ true = ground arith in
        (f₂, w₂, rw (nz, e) (rw same later))
  ]

  -- the end of `filewrite`
  abbrev finish : ℕ → WriteEnd W → Result (ℤ × File × W)
  finish n r = ok (if r.0 == 0 then pos n else negsuc 0, r.1, r.2)

  filewrite-finish :
      (f : File) (addr n : ℕ) (w : W)
      → f.type ≡ fd_inode
      → f.writable ≡ true
      → filewrite c f addr (pos n) w ≡ (write_chunks c n f addr n w >>= finish n)
  unfolding filewrite
  filewrite-finish f addr n w inode writable = simp (inode, writable)

  -- `filewrite` of `n` bytes to a writable inode returns `n` only if all bytes went out in
  -- transactions that follow each other, of at most 1536 bytes each, and the offset has moved by
  -- `n`; and it returns `n` whenever every transaction writes all that it is given.
  pub filewrite-Wrote :
      (f : File) (addr n : ℕ) (w : W)
      → f.type ≡ fd_inode
      → f.writable ≡ true
      → ((f' : File) (w' : W)
          → filewrite c f addr (pos n) w ≡ ok (pos n, f', w')
          → Wrote c f addr n w f' w' × (f'.off % 2 ^ 32 ≡ (f.off + n) % 2 ^ 32))
        × (WritesAll → (f' : File) × (w' : W) × (filewrite c f addr (pos n) w ≡ ok (pos n, f', w')))
  filewrite-Wrote f addr n w inode writable = (
    λ f' w' e.
        let (r, q, e') =
          >>=-eq-ok (write_chunks c n f addr n w) (finish n)
            (sym (filewrite-finish f addr n w inode writable) ∙ e) in
        let wrote : Wrote c f addr n w f' w' = complete f' w' r q e' in (wrote, Wrote-off wrote),
    λ all.
        let (f', w', e) = write_chunks_all all n f addr n w (omega arith) in
        (f', w', filewrite-finish f addr n w inode writable ∙ rw e),
  )
    where
      complete :
          (f' : File) (w' : W) (r : WriteEnd W)
          → write_chunks c n f addr n w ≡ ok r
          → finish n r ≡ ok (pos n, f', w')
          → Wrote c f addr n w f' w'
      complete f' w' (zero, f₁, w₁) q e =
          let pair : ◌≡◌ {A = ℤ × File × W} (pos n, f₁, w₁) (pos n, f', w') = ok-injective e in
          subst (λ (r : ℤ × File × W). Wrote c f addr n w r.1 r.2) pair
            (write_chunks-Wrote n f addr n w f₁ w₁ (omega arith) q)
      complete f' w' (suc m, f₁, w₁) q e =
          let off : (suc m == 0) ≡ false = ground arith in
          let pair : ◌≡◌ {A = ℤ × File × W} (negsuc 0, f₁, w₁) (pos n, f', w') =
            ok-injective (rw off at e) in
          let count : negsuc 0 ≡ pos n = ap (λ (r : ℤ × File × W). r.0) pair in cc
