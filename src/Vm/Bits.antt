-- ===== src/Vm/Bits.antt =====
-- The flags in the low bits of an entry: `|` of an address of a page and of flags.
use t2_so.Base.{sym}
use t2_so.Base.{ap}
use t2_so.Base.{◌-◌}
use t2_so.Base.{◌∙◌}
use Prim.Native.Nat.{bit_or, bit_or-bitwise, digits, max}
use t2_so.Base.{ℕ, zero, suc, ◌+◌, ◌*◌, ◌/◌, ◌%◌, ◌≤◌, ◌<◌, ◌≡◌, refl, arith}

-- the digits of `a | b`, with `n` to go
abbrev or_digits : ℕ → ℕ → ℕ → ℕ
or_digits n a b = digits (λ b. b) max n a b

or_digits_fuel : (n m a b : ℕ) → a ≤ n → a ≤ m → or_digits n a b ≡ or_digits m a b
or_digits_fuel zero zero a b p q = refl
or_digits_fuel zero (suc m) zero b p q = refl
or_digits_fuel zero (suc m) (suc a) b p q = absurd (omega arith)
or_digits_fuel (suc n) zero zero b p q = refl
or_digits_fuel (suc n) zero (suc a) b p q = absurd (omega arith)
or_digits_fuel (suc n) (suc m) zero b p q = refl
or_digits_fuel (suc n) (suc m) (suc a) b p q =
    omega (arith, or_digits_fuel n m (suc a / 2) (b / 2) (omega arith) (omega arith))

zero-bit_or : (b : ℕ) → bit_or 0 b ≡ b
zero-bit_or b = bit_or-bitwise 0 b

-- the lowest digit, and the others
bit_or_step : (a b : ℕ) → bit_or a b ≡ bit_or (a / 2) (b / 2) * 2 + max (a % 2) (b % 2)
bit_or_step zero b = omega (arith, zero-bit_or b, zero-bit_or (b / 2))
bit_or_step (suc a) b = omega (
  arith,
  bit_or-bitwise (suc a) b,
  bit_or-bitwise (suc a / 2) (b / 2),
  or_digits_fuel a (suc a / 2) (suc a / 2) (b / 2) (omega arith) (omega arith),
)

bit_or-zero_fuel : (n a : ℕ) → a ≤ n → bit_or a 0 ≡ a
bit_or-zero_fuel n zero le = zero-bit_or 0
bit_or-zero_fuel zero (suc a) le = absurd (omega arith)
bit_or-zero_fuel (suc n) (suc a) le =
    omega (arith, bit_or_step (suc a) 0, bit_or-zero_fuel n (suc a / 2) (omega arith))

-- `2^n * k`, and `2^n`
abbrev shift : ℕ → ℕ → ℕ
shift zero k = k
shift (suc n) k = 2 * shift n k

bit_or-shift :
    (n k r b : ℕ)
    → r < shift n 1
    → b < shift n 1
    → bit_or (shift n k + r) b ≡ shift n k + bit_or r b
bit_or-shift zero k r b lr lb =
    let zr : r ≡ 0 = omega arith in
    let zb : b ≡ 0 = omega arith in
    rw (zr, zb) (omega (arith, bit_or-zero_fuel (k + 0) (k + 0) (omega arith), zero-bit_or 0))
bit_or-shift (suc n) k r b lr lb =
    let half : (2 * shift n k + r) / 2 ≡ shift n k + r / 2 = omega arith in
    let low : (2 * shift n k + r) % 2 ≡ r % 2 = omega arith in
    let step : bit_or (2 * shift n k + r) b
        ≡ bit_or (shift n k + r / 2) (b / 2) * 2 + max (r % 2) (b % 2) =
      bit_or_step (2 * shift n k + r) b ∙ rw (half, low) refl in
    omega
      (arith, step, bit_or_step r b, bit_or-shift n k (r / 2) (b / 2) (omega arith) (omega arith))

pub bit_or-page :
    (a r b : ℕ) → a % 4096 ≡ 0 → r < 4096 → b < 4096 → bit_or (a + r) b ≡ a + bit_or r b
bit_or-page a r b aligned lr lb =
    let whole : a ≡ shift 12 (a / 4096) = omega arith in
    rw whole (bit_or-shift 12 (a / 4096) r b (omega arith) (omega arith))

pub bit_or-one : (a : ℕ) → bit_or a 1 ≡ a - a % 2 + 1
bit_or-one a = omega (arith, bit_or_step a 1, bit_or-zero_fuel (a / 2) (a / 2) (omega arith))

-- an entry for the page at `pa`
pub page_entry :
    (pa perm : ℕ)
    → pa % 4096 ≡ 0
    → perm < 4096
    → bit_or (bit_or pa perm) 1 ≡ pa + (perm - perm % 2 + 1)
page_entry pa perm aligned lt =
    let z : pa + 0 ≡ pa = omega arith in
    let first : bit_or pa perm ≡ pa + perm =
      ap (λ x. bit_or x perm) (sym z)
      ∙ (bit_or-page pa 0 perm aligned (omega arith) lt ∙ ap (λ x. pa + x) (zero-bit_or perm)) in
    omega (arith, ap (λ x. bit_or x 1) first, bit_or-one (pa + perm))
