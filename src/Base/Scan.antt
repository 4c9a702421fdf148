-- ===== src/Base/Scan.antt =====
-- Loops over a fixed table: `for(p = table; p < &table[N]; p++)`. A table is a family, and a
-- loop counts the entries that are left.
use native.Mathlib.Decide.{dec_lt}
use t2_so.Base.Tests.{Bool-cases, if◌then◌else◌, ltb}
use t2_so.Base.Update.{update}
use Prim.Native.Nat.{ℕ, zero, suc, ◌+◌, ◌≤◌, ◌<◌}
use mathlib.Core.Path.{◌≡◌, refl}
use mathlib.Core.Logic.{inl, inr}
use mathlib.Core.Bool.{Bool, true, false}
use mathlib.Core.Option.{Option, none, some}
use native.Mathlib.Omega.{arith}

module _ {ℓ} {A : Type ℓ} (test : A → Bool) (table : ℕ → A) where
  -- the first entry that passes the test, of the `left` entries from `i` on
  unfoldable pub find_from : ℕ → ℕ → Option ℕ
  find_from zero i = none
  find_from (suc left) i =
      let rest = find_from left (i + 1) in if test (table i) then some i else rest

  -- a search that fails has tested all the entries
  pub find_from-none :
      (left i m : ℕ) → find_from left i ≡ none → i ≤ m → m < i + left → test (table m) ≡ false
  unfolding find_from
  find_from-none zero i m e lo hi = absurd (omega arith)
  find_from-none (suc left) i m e lo hi = elim (dec_lt i m) [
    | yes h ↦ ground (arith, find_from-none left (i + 1) m)
    | no h ↦ let q : i ≡ m = omega arith in ground arith
  ]

  -- a search that succeeds stops at the first entry that passes
  pub find_from-some :
      (left i j : ℕ)
      → find_from left i ≡ some j
      → (i ≤ j)
        × (j < i + left)
        × (test (table j) ≡ true)
        × ((m : ℕ) → i ≤ m → m < j → test (table m) ≡ false)
  unfolding find_from
  find_from-some zero i j e = cc
  find_from-some (suc left) i j e = elim (Bool-cases (test (table i))) [
    | inl hit ↦
        let q : i ≡ j = ground arith in
        (omega arith, omega arith, rw (← q) hit, λ m a b. absurd (omega arith))
    | inr miss ↦
        let found = find_from-some left (i + 1) j (ground arith) in
        let first = λ (m : ℕ) (a : i ≤ m) (b : m < j). skip found.3 m a b miss in
        (ground (arith, found), ground (arith, found), found.2, first)
  ]
    where
      skip :
          ((m : ℕ) → i + 1 ≤ m → m < j → test (table m) ≡ false)
          → (m : ℕ) → i ≤ m
          → m < j
          → test (table i) ≡ false
          → test (table m) ≡ false
      skip later m a b miss = elim (dec_lt i m) [
        | yes h ↦ later m (omega arith) b
        | no h ↦ let q : i ≡ m = omega arith in rw (← q) miss
      ]

module _ {ℓ} {A : Type ℓ} (test : A → Bool) (table : ℕ → A) where
  -- the first entry that passes is found
  pub find_from-first :
      (left i j : ℕ)
      → i ≤ j
      → j < i + left
      → test (table j) ≡ true
      → ((m : ℕ) → i ≤ m → m < j → test (table m) ≡ false)
      → find_from test table left i ≡ some j
  unfolding find_from
  find_from-first zero i j lo hi hit before = absurd (omega arith)
  find_from-first (suc left) i j lo hi hit before = elim (dec_lt i j) [
    | yes h ↦
        let rest =
          find_from-first left (i + 1) j (omega arith) (omega arith) hit
            (λ m a b. before m (omega arith) b) in
        ground (arith, before i)
    | no h ↦ let q : i ≡ j = omega arith in rw q (rw hit)
  ]

  -- a search depends on the tests alone
  pub find_from-cong :
      (table' : ℕ → A) (left i : ℕ)
      → ((m : ℕ) → test (table' m) ≡ test (table m))
      → find_from test table' left i ≡ find_from test table left i
  unfolding find_from
  find_from-cong table' zero i same = refl
  find_from-cong table' (suc left) i same =
      ground (arith, same i, find_from-cong table' left (i + 1) same)

module _ {ℓ} {A : Type ℓ} (change : A → A) where
  -- a loop that changes each of the first `n` entries by itself
  unfoldable pub sweep : ℕ → (ℕ → A) → ℕ → A
  sweep zero table = table
  sweep (suc n) table = let t = sweep n table in update t n (change (t n))

  pub sweep_lem :
      (n : ℕ) (table : ℕ → A) (j : ℕ)
      → sweep n table j ≡ (if ltb j n then change (table j) else table j)
  unfolding sweep
  sweep_lem zero table j = ground arith
  sweep_lem (suc n) table j = ground (arith, sweep_lem n table j, sweep_lem n table n)
