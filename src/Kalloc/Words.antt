-- ===== src/Kalloc/Words.antt =====
-- Words and pages of memory.
use t2_so.Base.{ℕ, ◌+◌, ◌^◌, ◌≤◌, ◌<◌, ◌≡◌, ◌⊎◌, arith}
use t2_so.Str.{Memory, store_word}
use t2_so.Kalloc.{load_word}

pub load_word-store_word : (m : Memory) (a w : ℕ) → w < 2 ^ 32 → load_word (store_word m a w) a ≡ w
unfolding load_word
load_word-store_word m a w lt = ground arith

-- a word is read from four bytes
pub load_word-cong :
    (m m' : Memory) (a : ℕ)
    → ((i : ℕ) → a ≤ i → i < a + 4 → m' i ≡ m i)
    → load_word m' a ≡ load_word m a
unfolding load_word
load_word-cong m m' a same = rw (
  same a (omega arith) (omega arith),
  same (a + 1) (omega arith) (omega arith),
  same (a + 2) (omega arith) (omega arith),
  same (a + 3) (omega arith) (omega arith),
)

-- a store of a word leaves the other addresses
pub store_word-other : (m : Memory) (a w i : ℕ) → (i < a) ⊎ (a + 4 ≤ i) → store_word m a w i ≡ m i
store_word-other m a w i away = ground (arith, away)
