-- ===== src/Spinlock/Callers.antt =====
-- `getcallerpcs` of src/spinlock.c: the return addresses along the chain of %ebp.
use t2_so.Base.{ℕ, zero, suc, ◌+◌, ◌-◌, ◌%◌, ◌^◌, ◌<◌, ◌≡◌, Bool, ◌||◌, arith}
use t2_so.Base.{
  List, [], ◌∷◌, some, ltb, ◌==◌, if◌then◌else◌, replicate, get_elem?, not, get_elem?-replicate,
}
use t2_so.Base.{◌&&◌}

abbrev pub kernbase : ℕ
kernbase = 0x80000000

-- `ebp == 0 || ebp < (uint*)KERNBASE || ebp == (uint*)0xffffffff`
abbrev pub ends_chain : ℕ → Bool
ends_chain ebp = ebp == 0 || ltb ebp kernbase || ebp == 0xffffffff

-- The two loops, with `k` entries of `pcs` left to write. `load` reads a word of memory.
pub getcallerpcs_loop : (ℕ → ℕ) → ℕ → ℕ → List ℕ
getcallerpcs_loop load zero ebp = []
getcallerpcs_loop load (suc k) ebp =
    let rest = load ((ebp + 4) % 2 ^ 32) ∷ getcallerpcs_loop load k (load ebp) in
    if ends_chain ebp then replicate (suc k) 0 else rest

unfoldable pub getcallerpcs : (ℕ → ℕ) → ℕ → List ℕ
unfolding getcallerpcs_loop
getcallerpcs load v = getcallerpcs_loop load 10 ((v + 2 ^ 32 - 8) % 2 ^ 32)

-- frame `i` of the chain that begins at `ebp`
pub frame : (ℕ → ℕ) → ℕ → ℕ → ℕ
frame load ebp zero = ebp
frame load ebp (suc i) = frame load (load ebp) i

-- the chain reaches frame `i`
pub reaches : (ℕ → ℕ) → ℕ → ℕ → Bool
reaches load ebp zero = not (ends_chain ebp)
reaches load ebp (suc i) = not (ends_chain ebp) && reaches load (load ebp) i

getcallerpcs_loop-get_elem? :
    (load : ℕ → ℕ) (k ebp i : ℕ)
    → i < k
    → get_elem? (getcallerpcs_loop load k ebp) i
      ≡ some (if reaches load ebp i then load ((frame load ebp i + 4) % 2 ^ 32) else 0)
unfolding getcallerpcs_loop frame reaches
getcallerpcs_loop-get_elem? load zero ebp i h = absurd (omega arith)
getcallerpcs_loop-get_elem? load (suc k) ebp zero h = ground arith
getcallerpcs_loop-get_elem? load (suc k) ebp (suc i) h = ground (
  arith,
  get_elem?-replicate {A = ℕ} k i 0 (omega arith),
  getcallerpcs_loop-get_elem? load k (load ebp) i,
)

-- Entry `i < 10` of what `getcallerpcs` writes is the return address in frame `i` of the chain of
-- %ebp that starts two words below the given address, or 0 if the chain ends before that frame.
pub getcallerpcs-frame :
    (load : ℕ → ℕ) (v i : ℕ)
    → i < 10
    → let ebp = (v + 2 ^ 32 - 8) % 2 ^ 32 in
      get_elem? (getcallerpcs load v) i
      ≡ some (if reaches load ebp i then load ((frame load ebp i + 4) % 2 ^ 32) else 0)
unfolding getcallerpcs
getcallerpcs-frame load v i h = getcallerpcs_loop-get_elem? load 10 _ i h
