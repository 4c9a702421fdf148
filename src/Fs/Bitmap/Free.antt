-- ===== src/Fs/Bitmap/Free.antt =====
-- What `bfree` does, and that it undoes what `balloc` did to the bitmap.
use t2_so.Base.{
  ℕ, ◌%◌, ◌<◌, ◌≡◌, ◌≢◌, ◌∙◌, arith, ◌==◌, if◌then◌else◌, true, false, not, Bool-cases, inl, inr,
  ap,
}
use t2_so.Str.{Memory}
use t2_so.Fs.{Blocks, IsLawful, readsb, bpb, bblock}
use t2_so.Fs.Run.{done, halt, halt_if, >>=-eq-done, called-eq-done}
use t2_so.Fs.Bitmap.{in_use, clear, bfree}
use t2_so.Fs.Bitmap.Bits.{in_use-clear}
use t2_so.Fs.Bitmap.Alloc.{used}

module _ {W : Type 0} (io : Blocks W) where
  -- what `bfree` of block `b` leaves after it has returned
  pub record Freed (limit : ℕ) (w : W) (b : ℕ) (w' : W) : Type 0 where
    pub was_used : used io w (readsb io w).ninodes b ≡ true
    pub cleared :
        (x : ℕ)
        → bblock x (readsb io w).ninodes < limit
        → used io w' (readsb io w).ninodes x
          ≡ (if b == x then false else used io w (readsb io w).ninodes x)
    pub others :
        (x : ℕ) → x < limit → x ≢ bblock b (readsb io w).ninodes → io.data_of w' x ≡ io.data_of w x

  -- `bfree` of a free block panics. Of a block in use it clears the bit, and no other, and changes
  -- no block but that part of the bitmap.
  pub bfree-Freed :
      (limit : ℕ) (w : W) (b : ℕ)
      → IsLawful io limit
      → bblock b (readsb io w).ninodes < limit
      → (used io w (readsb io w).ninodes b ≡ false → bfree io b w ≡ halt)
        × ((w' : W) → bfree io b w ≡ done w' → Freed limit w b w')
  unfolding bfree
  bfree-Freed limit w b law home = (λ e. rw e, freed)
    where
      n : ℕ
      n = (readsb io w).ninodes

      bno : ℕ
      bno = bblock b n

      cleared :
          (x : ℕ) (w' : W)
          → used io w n b ≡ true
          → io.data_of w' (bblock x n) ≡ (
              if bno == bblock x n
              then clear (io.data_of w bno) (b % bpb)
              else io.data_of w (bblock x n))
          → used io w' n x ≡ (if b == x then false else used io w n x)
      cleared x w' was q = elim (Bool-cases (bno == bblock x n)) [
        | inl here ↦
            let same : bno ≡ bblock x n = ground (arith, here) in
            let at_x : io.data_of w' (bblock x n) ≡ clear (io.data_of w bno) (b % bpb) =
              q ∙ rw here in
            let bits : (b % bpb == x % bpb) ≡ (b == x) = ground (arith, same) in
            ap (λ (m : Memory). in_use m (x % bpb)) at_x
            ∙ (in_use-clear (io.data_of w bno) (b % bpb) (x % bpb) was ∙ rw (bits, same))
        | inr away ↦
            let at_x : io.data_of w' (bblock x n) ≡ io.data_of w (bblock x n) = q ∙ rw away in
            let other : (b == x) ≡ false = ground (arith, away) in
            ap (λ (m : Memory). in_use m (x % bpb)) at_x ∙ rw other
      ]

      freed : (w' : W) → bfree io b w ≡ done w' → Freed limit w b w'
      freed w' e =
          let (_, tested, e₁) = >>=-eq-done (halt_if (not (used io w n b))) _ e in
          let was : used io w n b ≡ true = ground (arith, tested) in
          let written = called-eq-done _ e₁ in
          let after = λ (x : ℕ) (lt : x < limit). law.log_write_lem bno _ w w' x home lt written in
          record {
            was_used = was;
            cleared = λ x lt. cleared x w' was (after (bblock x n) lt);
            others =
                λ x lt ne. let off : (bno == x) ≡ false = ground (arith, ne) in after x lt ∙ rw off;
          }
