-- ===== src/Fs/Bitmap/Bits.antt =====
-- A bitmap as a set of bits.
use native.Mathlib.Nat.{two-pow-succ}
use t2_so.Base.{
  ℕ, zero, suc, ◌+◌, ◌-◌, ◌/◌, ◌%◌, ◌^◌, ◌≤◌, ◌<◌, ◌≡◌, ◌∙◌, arith, ◌==◌, if◌then◌else◌, true,
  false,
}
use t2_so.Str.{Memory}
use t2_so.Fs.Bitmap.{bit, in_use, mark, clear}

bit_range : (k x : ℕ) → bit k x < 2
unfolding bit
bit_range zero x = omega arith
bit_range (suc k) x = bit_range k (x / 2)

bit-add : (k j x : ℕ) → bit k x ≡ 0 → bit j (x + 2 ^ k) ≡ (if j == k then 1 else bit j x)
unfolding bit
bit-add zero zero x e = omega arith
bit-add zero (suc j) x e = let q : (x + 2 ^ zero) / 2 ≡ x / 2 = omega arith in rw q (ground arith)
bit-add (suc k) zero x e = ground (arith, two-pow-succ k)
bit-add (suc k) (suc j) x e =
    let q : (x + 2 ^ suc k) / 2 ≡ x / 2 + 2 ^ k = omega (arith, two-pow-succ k) in
    rw q (bit-add k j (x / 2) e ∙ ground arith)

bit-le : (k x : ℕ) → bit k x ≡ 1 → 2 ^ k ≤ x
unfolding bit
bit-le zero x e = omega arith
bit-le (suc k) x e = omega (arith, bit-le k (x / 2) e, two-pow-succ k)

bit-sub : (k j x : ℕ) → bit k x ≡ 1 → bit j (x - 2 ^ k) ≡ (if j == k then 0 else bit j x)
unfolding bit
bit-sub zero zero x e = omega arith
bit-sub zero (suc j) x e = let q : (x - 2 ^ zero) / 2 ≡ x / 2 = omega arith in rw q (ground arith)
bit-sub (suc k) zero x e = ground (arith, two-pow-succ k, bit-le (suc k) x e)
bit-sub (suc k) (suc j) x e =
    let q : (x - 2 ^ suc k) / 2 ≡ x / 2 - 2 ^ k = omega (arith, two-pow-succ k) in
    rw q (bit-sub k j (x / 2) e ∙ ground arith)

-- Marking a free bit sets it, and no other.
pub in_use-mark :
    (m : Memory) (i j : ℕ)
    → in_use m i ≡ false
    → in_use (mark m i) j ≡ (if i == j then true else in_use m j)
unfolding in_use mark
in_use-mark m i j e =
    ground (arith, bit-add (i % 8) (j % 8) (m (i / 8)), bit_range (i % 8) (m (i / 8)))

-- Clearing a bit that is set clears it, and no other.
pub in_use-clear :
    (m : Memory) (i j : ℕ)
    → in_use m i ≡ true
    → in_use (clear m i) j ≡ (if i == j then false else in_use m j)
unfolding in_use clear
in_use-clear m i j e =
    ground (arith, bit-sub (i % 8) (j % 8) (m (i / 8)), bit_range (i % 8) (m (i / 8)))

-- clearing undoes marking
pub clear-mark : (m : Memory) (i j : ℕ) → clear (mark m i) i j ≡ m j
unfolding clear mark
clear-mark m i j = ground arith
