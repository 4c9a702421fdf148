-- ===== src/Str/Copy.antt =====
-- `strncpy` and `safestrcpy` of src/string.c.
use t2_so.Base.{ℕ, zero, suc, ◌+◌, ◌-◌, ◌≤◌, ◌<◌, ◌≡◌, refl, arith, Bool}
use t2_so.Base.{◌||◌, ◌==◌, if◌then◌else◌, ltb, update, false, pos}
use t2_so.Str.{Memory, zeros_from, strncpy_from, strncpy, safestrcpy_from, safestrcpy}

-- one of the `k` bytes from offset `i` on is zero
unfoldable pub zero_in : Memory → ℕ → ℕ → Bool
zero_in t i zero = false
zero_in t i (suc k) = t i == 0 || zero_in t (i + 1) k

module _ (t : Memory) where
  zeros_from-below : (s : Memory) (i n a : ℕ) → a < i → zeros_from s i n a ≡ s a
  unfolding zeros_from
  zeros_from-below s i zero a h = refl
  zeros_from-below s i (suc n) a h = ground (arith, zeros_from-below (update s i 0) (i + 1) n a)

  zeros_from_lem :
      (s : Memory) (n i k : ℕ) → zeros_from s i n (i + k) ≡ (if ltb k n then 0 else s (i + k))
  unfolding zeros_from
  zeros_from_lem s zero i k = ground arith
  zeros_from_lem s (suc n) i zero =
      ground (arith, zeros_from-below (update s i 0) (i + 1) n (i + zero))
  zeros_from_lem s (suc n) i (suc k) = ground (arith, zeros_from_lem (update s i 0) n (i + 1) k)

  strncpy_from-below : (s : Memory) (i n a : ℕ) → a < i → strncpy_from s t i n a ≡ s a
  unfolding strncpy_from
  strncpy_from-below s i zero a h = refl
  strncpy_from-below s i (suc n) a h = ground (
    arith,
    strncpy_from-below (update s i (t i)) (i + 1) n a,
    zeros_from-below (update s i (t i)) (i + 1) n a,
  )

  strncpy_from_lem :
      (s : Memory) (n i k : ℕ)
      → strncpy_from s t i n (i + k)
        ≡ (if ltb k n then (if zero_in t i k then 0 else t (i + k)) else s (i + k))
  unfolding strncpy_from zero_in
  strncpy_from_lem s zero i k = ground arith
  strncpy_from_lem s (suc n) i zero = ground (
    arith,
    strncpy_from-below (update s i (t i)) (i + 1) n (i + zero),
    zeros_from-below (update s i (t i)) (i + 1) n (i + zero),
  )
  strncpy_from_lem s (suc n) i (suc k) = ground (
    arith,
    strncpy_from_lem (update s i (t i)) n (i + 1) k,
    zeros_from_lem (update s i (t i)) n (i + 1) k,
  )

  -- At each offset below `n`, `strncpy` writes the source's byte, or 0 once the source has ended;
  -- from `n` on it writes nothing. A source of `n` bytes or more is left without a final zero.
  pub strncpy-zero_in :
      (s : Memory) (n k : ℕ)
      → strncpy s t (pos n) k ≡ (if ltb k n then (if zero_in t 0 k then 0 else t k) else s k)
  unfolding strncpy
  strncpy-zero_in s n k = let e : 0 + k ≡ k = omega arith in rw e at (strncpy_from_lem s n 0 k)

  safestrcpy_from-below : (s : Memory) (i n a : ℕ) → a < i → safestrcpy_from s t i n a ≡ s a
  unfolding safestrcpy_from
  safestrcpy_from-below s i zero a h = ground arith
  safestrcpy_from-below s i (suc n) a h =
      ground (arith, safestrcpy_from-below (update s i (t i)) (i + 1) n a)

  safestrcpy_from-above : (s : Memory) (i n a : ℕ) → i + n < a → safestrcpy_from s t i n a ≡ s a
  unfolding safestrcpy_from
  safestrcpy_from-above s i zero a h = ground arith
  safestrcpy_from-above s i (suc n) a h =
      ground (arith, safestrcpy_from-above (update s i (t i)) (i + 1) n a)

  safestrcpy_from_lem :
      (s : Memory) (n i k : ℕ)
      → k ≤ n
      → zero_in t i k ≡ false
      → safestrcpy_from s t i n (i + k) ≡ (if k == n then 0 else t (i + k))
  unfolding safestrcpy_from zero_in
  safestrcpy_from_lem s zero i zero h z = ground arith
  safestrcpy_from_lem s zero i (suc k) h z = absurd (omega arith)
  safestrcpy_from_lem s (suc n) i zero h z =
      ground (arith, safestrcpy_from-below (update s i (t i)) (i + 1) n (i + zero))
  safestrcpy_from_lem s (suc n) i (suc k) h z =
      ground (arith, safestrcpy_from_lem (update s i (t i)) n (i + 1) k)

  -- For `n` at least 1, `safestrcpy` copies the source up to and with its final zero, or `n - 1`
  -- bytes of it and a zero, whichever is shorter, and writes nothing from offset `n` on.
  pub safestrcpy-zero_in :
      (s : Memory) (n k : ℕ)
      → 1 ≤ n
      → (k < n → zero_in t 0 k ≡ false → safestrcpy s t (pos n) k ≡ (if k == n - 1 then 0 else t k))
        × (n ≤ k → safestrcpy s t (pos n) k ≡ s k)
  unfolding safestrcpy
  safestrcpy-zero_in s n k h = (
    λ lt z. ground (arith, safestrcpy_from_lem s (n - 1) 0 k, e),
    λ ge. ground (arith, safestrcpy_from-above s 0 (n - 1) k),
  )
    where
      e : 0 + k ≡ k
      e = omega arith
