-- ===== src/Log/Slots.antt =====
-- The slots of the log: the one that `log_write` finds for a block and the one that a replay takes
-- its data from.
use t2_so.Base.{
  ℕ, zero, suc, ◌+◌, ◌≤◌, ◌<◌, ◌≡◌, ◌≢◌, inl, inr, ◌∙◌, arith, ◌==◌, sym, ap, dec_lt, Bool-cases,
  none, some, Option-cases,
}
use t2_so.Log.{Log, slot_from}
use t2_so.Log.Spec.{source}
use t2_so.Log.Atomic.{source-none}
use t2_so.Log.Commit.{IsReady}

-- the log of a transaction: ready to be committed, with one slot for each block
pub record IsOpen (l : Log) : Type 0 where
  pub ready : IsReady l
  pub distinct : (i j : ℕ) → i < l.n → j < l.n → l.sector i ≡ l.sector j → i ≡ j

-- the slot that `slot_from` finds
pub slot_from-first :
    (sector : ℕ → ℕ) (s left i : ℕ)
    → let r = slot_from sector s left i in
      (i ≤ r)
      × (r ≤ i + left)
      × (r < i + left → sector r ≡ s)
      × ((j : ℕ) → i ≤ j → j < r → sector j ≢ s)
unfolding slot_from
slot_from-first sector s zero i =
    (omega arith, omega arith, λ lt. absurd (omega arith), λ j a b. absurd (omega arith))
slot_from-first sector s (suc left) i =
    let (a, b, c, d) = slot_from-first sector s left (i + 1) in
    elim (Bool-cases (sector i == s)) [
      | inl e ↦ rw e (omega arith, omega arith, λ lt. ground arith, λ j p q. absurd (omega arith))
      | inr e ↦ rw e (
        omega arith,
        omega arith,
        λ lt. c (omega arith),
        λ j p q. elim (dec_lt i j) [
          | yes lt ↦ d j (omega arith) q
          | no ge ↦ let same : i ≡ j = omega arith in rw (← same) (ground arith)
        ],
      )
    ]

pub source-some :
    (sector : ℕ → ℕ) (k tail s t : ℕ)
    → source sector k tail s ≡ some t
    → (tail ≤ t) × (t < tail + k) × (sector t ≡ s)
unfolding source
source-some sector zero tail s t e = absurd (ground (arith, e))
source-some sector (suc k) tail s t e = elim (Option-cases (source sector k (tail + 1) s)) [
  | inl n ↦ ground (arith, n, e)
  | inr (t', q) ↦
      let (a, b, c) = source-some sector k (tail + 1) s t' q in ground (arith, q, e, a, b, c)
]

-- with one slot for each block, the slot that has the block is its source
pub source_unique :
    (sector : ℕ → ℕ) (n s t : ℕ)
    → ((i j : ℕ) → i < n → j < n → sector i ≡ sector j → i ≡ j)
    → t < n
    → sector t ≡ s
    → source sector n 0 s ≡ some t
source_unique sector n s t distinct lt e = elim (Option-cases (source sector n 0 s)) [
  | inl q ↦ absurd (source-none sector n 0 s t q (omega arith) (omega arith) e)
  | inr (t', q) ↦
      let (a, b, c) = source-some sector n 0 s t' q in
      q ∙ ap some (distinct t' t (omega arith) lt (c ∙ sym e))
]

pub source_absent :
    (sector : ℕ → ℕ) (n s : ℕ) → ((t : ℕ) → t < n → sector t ≢ s) → source sector n 0 s ≡ none
source_absent sector n s away = elim (Option-cases (source sector n 0 s)) [
  | inl q ↦ q
  | inr (t', q) ↦ let (a, b, c) = source-some sector n 0 s t' q in absurd (away t' (omega arith) c)
]
