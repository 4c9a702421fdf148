-- ===== src/Fs/Bitmap/Alloc.antt =====
-- Which bit `balloc` finds.
use t2_so.Base.{
  ℕ, zero, suc, ◌+◌, ◌-◌, ◌*◌, ◌/◌, ◌%◌, ◌≤◌, ◌<◌, ◌≡◌, ◌∙◌, refl, arith, true, false, not, Bool,
  inl, inr, ap, sym, min, none, some, Option-cases, dec_lt,
}
use t2_so.Base.{find_from-some, find_from-first}
use t2_so.Fs.{Superblock, Blocks, bpb, bblock}
use t2_so.Fs.Run.{halt}
use t2_so.Fs.Bitmap.{in_use, free_bit, claim, balloc_from}

module _ {W : Type 0} (io : Blocks W) where
  -- block `b` is in use by the bitmap
  abbrev pub used : W → ℕ → ℕ → Bool
  used w ninodes b = in_use (io.data_of w (bblock b ninodes)) (b % bpb)

  -- `x` is the first free block from `b` on.
  abbrev pub IsFirstFree : W → Superblock → ℕ → ℕ → Type 0
  IsFirstFree w sb b x =
      (x < sb.size)
      × (used w sb.ninodes x ≡ false)
      × ((m : ℕ) → b ≤ m → m < x → used w sb.ninodes m ≡ true)

  -- the bits of one bitmap block
  pub bit_of :
      (w : W) (ninodes b i : ℕ)
      → b % bpb ≡ 0
      → i < bpb
      → used w ninodes (b + i) ≡ in_use (io.data_of w (bblock b ninodes)) i
  bit_of w ninodes b i a lt =
      let q : (b + i) / bpb ≡ b / bpb = omega arith in
      let r : (b + i) % bpb ≡ i = omega arith in rw (q, r)

  free_bit-none :
      (w : W) (sb : Superblock) (b : ℕ)
      → b % bpb ≡ 0
      → ((m : ℕ) → b ≤ m → m < b + bpb → m < sb.size → used w sb.ninodes m ≡ true)
      → free_bit io (io.data_of w (bblock b sb.ninodes)) b sb.size ≡ none
  free_bit-none w sb b a all =
      elim (Option-cases (free_bit io (io.data_of w (bblock b sb.ninodes)) b sb.size)) [
        | inl e ↦ e
        | inr (i, e) ↦
            let (lo, hi, free, _) =
              find_from-some (λ (bi : ℕ). not (in_use (io.data_of w (bblock b sb.ninodes)) bi))
                (λ bi. bi) (min bpb (sb.size - b)) 0 i e in
            absurd (ground (arith, free, bit_of w sb.ninodes b i a, all (b + i)))
      ]

  free_bit-first :
      (w : W) (sb : Superblock) (b x : ℕ)
      → b % bpb ≡ 0
      → b ≤ x
      → x < b + bpb
      → IsFirstFree w sb b x
      → free_bit io (io.data_of w (bblock b sb.ninodes)) b sb.size ≡ some (x - b)
  free_bit-first w sb b x a lo hi (lt, free, before) =
      let whole : b + (x - b) ≡ x = omega arith in
      let here : in_use (io.data_of w (bblock b sb.ninodes)) (x - b) ≡ false =
        sym (bit_of w sb.ninodes b (x - b) a (omega arith))
        ∙ (ap (used w sb.ninodes) whole ∙ free) in
      find_from-first (λ (bi : ℕ). not (in_use (io.data_of w (bblock b sb.ninodes)) bi)) (λ bi. bi)
        (min bpb (sb.size - b)) 0 (x - b) (omega arith) (omega arith) (rw here refl)
        (λ m _ below.
          let taken : in_use (io.data_of w (bblock b sb.ninodes)) m ≡ true =
            sym (bit_of w sb.ninodes b m a (omega arith))
            ∙ before (b + m) (omega arith) (omega arith) in
          rw taken refl)

  pub balloc_from-first :
      (w : W) (sb : Superblock) (left b x : ℕ)
      → b % bpb ≡ 0
      → b ≤ x
      → x < b + left * bpb
      → IsFirstFree w sb b x
      → balloc_from io sb left b w ≡ claim io sb.ninodes (x / bpb * bpb) (x % bpb) w
  unfolding balloc_from
  balloc_from-first w sb zero b x a lo hi f = absurd (omega arith)
  balloc_from-first w sb (suc left) b x a lo hi (lt, free, before) = elim (dec_lt x (b + bpb)) [
    | yes here ↦
        let base : x / bpb * bpb ≡ b = omega arith in
        let offset : x % bpb ≡ x - b = omega arith in
        rw (balloc_from, free_bit-first w sb b x a lo here (lt, free, before), base, offset)
    | no there ↦
        rw (balloc_from, free_bit-none w sb b a (λ m low near small. before m low (omega arith)))
          (balloc_from-first w sb left (b + bpb) x (omega arith) (omega arith) (omega arith)
            (lt, free, λ m low below. before m (omega arith) below))
  ]

  pub balloc_from-full :
      (w : W) (sb : Superblock) (left b : ℕ)
      → b % bpb ≡ 0
      → ((m : ℕ) → b ≤ m → m < sb.size → used w sb.ninodes m ≡ true)
      → balloc_from io sb left b w ≡ halt
  unfolding balloc_from
  balloc_from-full w sb zero b a all = refl
  balloc_from-full w sb (suc left) b a all =
      rw (balloc_from, free_bit-none w sb b a (λ m lo _ lt. all m lo lt))
        (balloc_from-full w sb left (b + bpb) (omega arith) (λ m lo lt. all m (omega arith) lt))
