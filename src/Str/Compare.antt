-- ===== src/Str/Compare.antt =====
-- `memcmp`, `strncmp` and `strlen` of src/string.c.
use t2_so.Base.{◌==◌}
use t2_so.Base.{Bool-cases, inl, inr, ℕ, zero, suc, ◌+◌, ◌≤◌, ◌<◌, ◌≡◌, ◌≢◌, ◌↔◌, refl, arith}
use t2_so.Base.{false, pos, sub_ℕ}
use t2_so.Base.{some, dec_lt}
use t2_so.Str.Copy.{zero_in}
use t2_so.Str.{Memory, memcmp_from, memcmp, strncmp_from, strncmp, strlen_from, strlen}

-- The first `d` bytes are equal and the next ones differ.
abbrev pub DiffersAt : Memory → Memory → ℕ → Type 0
DiffersAt p q d = ((i : ℕ) → i < d → p i ≡ q i) × (p d ≢ q d)

below_step :
    (P : ℕ → Type 0) (i n : ℕ)
    → P i
    → ((j : ℕ) → i + 1 ≤ j → j < i + 1 + n → P j)
    → (j : ℕ) → i ≤ j
    → j < i + suc n
    → P j
below_step P i n here later j lo hi = elim (dec_lt i j) [
  | yes h ↦ later j (omega arith) (omega arith)
  | no h ↦ let q : i ≡ j = omega arith in rw q at here
]

module _ (p q : Memory) where
  memcmp_from-zero :
      (n i : ℕ) → memcmp_from p q i n ≡ pos 0 → (j : ℕ) → i ≤ j → j < i + n → p j ≡ q j
  unfolding memcmp_from
  memcmp_from-zero zero i e j lo hi = absurd (omega arith)
  memcmp_from-zero (suc n) i e j lo hi =
      below_step (λ j. p j ≡ q j) i n (ground arith) (memcmp_from-zero n (i + 1) (ground arith)) j
        lo hi

  memcmp_from-sub :
      (n i d : ℕ) → i ≤ d → d < i + n → DiffersAt p q d → memcmp_from p q i n ≡ sub_ℕ (p d) (q d)
  unfolding memcmp_from
  memcmp_from-sub zero i d lo hi f = absurd (omega arith)
  memcmp_from-sub (suc n) i d lo hi (same, ne) = elim (dec_lt i d) [
    | yes h ↦
        ground (arith, same i, memcmp_from-sub n (i + 1) d (omega arith) (omega arith) (same, ne))
    | no h ↦ let e : i ≡ d = omega arith in rw e (ground arith)
  ]

  -- `memcmp` of `n` bytes returns the difference of the first two bytes that differ, and 0 only
  -- if all `n` are equal.
  pub memcmp_lem :
      (n : ℕ)
      → ((d : ℕ) → d < n → DiffersAt p q d → memcmp p q n ≡ sub_ℕ (p d) (q d))
        × (memcmp p q n ≡ pos 0 → (i : ℕ) → i < n → p i ≡ q i)
  unfolding memcmp
  memcmp_lem n = (
    λ d h f. memcmp_from-sub n 0 d (omega arith) (omega arith) f,
    λ e i h. memcmp_from-zero n 0 e i (omega arith) (omega arith),
  )

  strncmp_from-agree :
      (n i : ℕ)
      → strncmp_from p q i n ≡ pos 0
      → (k : ℕ) → k < n
      → zero_in p i k ≡ false
      → p (i + k) ≡ q (i + k)
  unfolding strncmp_from zero_in
  strncmp_from-agree zero i e k h z = absurd (omega arith)
  strncmp_from-agree (suc n) i e zero h z = ground arith
  strncmp_from-agree (suc n) i e (suc k) h z =
      ground (arith, strncmp_from-agree n (i + 1) (ground arith) k)

  strncmp_from-zero :
      (n i : ℕ)
      → ((k : ℕ) → k < n → zero_in p i k ≡ false → p (i + k) ≡ q (i + k))
      → strncmp_from p q i n ≡ pos 0
  unfolding strncmp_from zero_in
  strncmp_from-zero zero i f = refl
  strncmp_from-zero (suc n) i f = elim (Bool-cases (p i == 0)) [
    | inl ended ↦ ground (arith, f 0)
    | inr more ↦
        let later = strncmp_from-zero n (i + 1) (λ k h z. ground (arith, f (suc k))) in
        ground (arith, f 0)
  ]

  -- `strncmp` of at most `n` bytes returns 0 exactly if the two texts agree at each offset below
  -- `n` up to the first's final zero, that zero included.
  pub strncmp-zero_in :
      (n : ℕ) → (strncmp p q n ≡ pos 0) ↔ ((k : ℕ) → k < n → zero_in p 0 k ≡ false → p k ≡ q k)
  unfolding strncmp
  strncmp-zero_in n = (
    λ e k h z. ground (arith, strncmp_from-agree n 0 e k h z, plus k),
    λ f. strncmp_from-zero n 0 (λ k h z. ground (arith, f k h z, plus k)),
  )
    where
      plus : (k : ℕ) → 0 + k ≡ k
      plus k = omega arith

strlen_from-some :
    (s : Memory) (fuel i k : ℕ)
    → k < fuel
    → zero_in s i k ≡ false
    → s (i + k) ≡ 0
    → strlen_from s fuel i ≡ some (i + k)
unfolding strlen_from zero_in
strlen_from-some s zero i k h z e = absurd (omega arith)
strlen_from-some s (suc fuel) i zero h z e = ground arith
strlen_from-some s (suc fuel) i (suc k) h z e = ground (arith, strlen_from-some s fuel (i + 1) k)

-- `strlen` returns the offset of the first zero byte; as many rounds as that offset and one more
-- are enough.
pub strlen-some :
    (s : Memory) (n fuel : ℕ) → n < fuel → zero_in s 0 n ≡ false → s n ≡ 0 → strlen fuel s ≡ some n
unfolding strlen
strlen-some s n fuel h z e = ground (arith, strlen_from-some s fuel 0 n)

strncmp_from-cong :
    (p q q' : Memory) (i n : ℕ)
    → ((j : ℕ) → i ≤ j → j < i + n → q j ≡ q' j)
    → strncmp_from p q i n ≡ strncmp_from p q' i n
unfolding strncmp_from
strncmp_from-cong p q q' i zero same = refl
strncmp_from-cong p q q' i (suc n) same =
    let here : q i ≡ q' i = same i (omega arith) (omega arith) in
    let ih : strncmp_from p q (i + 1) n ≡ strncmp_from p q' (i + 1) n =
      strncmp_from-cong p q q' (i + 1) n (λ j a b. same j (omega arith) (omega arith)) in
    rw (here, ih) refl

pub strncmp-cong :
    (p q q' : Memory) (n : ℕ) → ((j : ℕ) → j < n → q j ≡ q' j) → strncmp p q n ≡ strncmp p q' n
unfolding strncmp
strncmp-cong p q q' n same = strncmp_from-cong p q q' 0 n (λ j lo lt. same j (omega (arith, lt)))
