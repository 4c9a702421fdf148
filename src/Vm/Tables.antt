-- ===== src/Vm/Tables.antt =====
-- A page directory with its page tables, apart from each other and from the free pages, and the entry
-- that the processor finds for an address.
use t2_so.Base.{
  ℕ, ◌+◌, ◌*◌, ◌%◌, ◌<◌, ◌≡◌, ◌≢◌, ◌∙◌, refl, sym, ap, arith, Bool, true, false, if◌then◌else◌,
  List,
}
use Prim.Native.Nat.{bit_or}
use t2_so.Str.{Memory}
use t2_so.Kalloc.{pgsize, v2p, load_word, Kmem}
use t2_so.Kalloc.FreeList.{Fresh, IsFreeList}
use t2_so.Vm.{pdx, ptx, pte_addr, pte_p, pte_w, pte_u, is_present, p2v}
use t2_so.Vm.Bits.{bit_or-page}

abbrev pub dir_word : Memory → ℕ → ℕ → ℕ
dir_word m pgdir d = load_word m (pgdir + 4 * d)

abbrev pub table : Memory → ℕ → ℕ → ℕ
table m pgdir d = p2v (pte_addr (dir_word m pgdir d))

abbrev pub has_table : Memory → ℕ → ℕ → Bool
has_table m pgdir d = is_present (dir_word m pgdir d)

-- the entry for `va`, 0 if there is no page table for it
abbrev pub entry : Memory → ℕ → ℕ → ℕ
entry m pgdir va =
    if has_table m pgdir (pdx va) then load_word m (table m pgdir (pdx va) + 4 * ptx va) else 0

pub entry_some :
    (m : Memory) (pgdir va t : ℕ)
    → has_table m pgdir (pdx va) ≡ true
    → table m pgdir (pdx va) ≡ t
    → entry m pgdir va ≡ load_word m (t + 4 * ptx va)
entry_some m pgdir va t h e = rw (h, e) refl

pub entry_none :
    (m : Memory) (pgdir va : ℕ) → has_table m pgdir (pdx va) ≡ false → entry m pgdir va ≡ 0
entry_none m pgdir va h = rw h refl

-- The directory, its tables and the free pages are different pages.
pub record IsSound (end pgdir : ℕ) (k : Kmem) (pages : List ℕ) : Type 0 where
  pub free : IsFreeList end k pages
  pub page : pgdir % pgsize ≡ 0
  pub fresh : Fresh pgdir pages
  pub apart :
      (d : ℕ) → d < 1024 → has_table k.memory pgdir d ≡ true → table k.memory pgdir d ≢ pgdir
  pub tables_fresh :
      (d : ℕ) → d < 1024 → has_table k.memory pgdir d ≡ true → Fresh (table k.memory pgdir d) pages
  pub distinct :
      (d e : ℕ)
      → d < 1024
      → e < 1024
      → has_table k.memory pgdir d ≡ true
      → has_table k.memory pgdir e ≡ true
      → table k.memory pgdir d ≡ table k.memory pgdir e
      → d ≡ e

pub table-aligned : (m : Memory) (pgdir d : ℕ) → table m pgdir d % 4096 ≡ 0
table-aligned m pgdir d = omega arith

-- the entry that `walkpgdir` makes for a new page table
abbrev pub pde_of : ℕ → ℕ
pde_of p = bit_or (bit_or (bit_or (v2p p) pte_p) pte_w) pte_u

pub pde_of_lem : (p : ℕ) → p % 4096 ≡ 0 → pde_of p ≡ v2p p + 7
pde_of_lem p aligned =
    let a : v2p p % 4096 ≡ 0 = omega arith in
    let e₁ : bit_or (v2p p + 0) 1 ≡ v2p p + 1 =
      bit_or-page (v2p p) 0 1 a (omega arith) (omega arith) in
    let e₂ : bit_or (v2p p + 1) 2 ≡ v2p p + 3 =
      bit_or-page (v2p p) 1 2 a (omega arith) (omega arith) in
    let e₃ : bit_or (v2p p + 3) 4 ≡ v2p p + 7 =
      bit_or-page (v2p p) 3 4 a (omega arith) (omega arith) in
    let z : v2p p + 0 ≡ v2p p = omega arith in
    ap (λ x. bit_or (bit_or x 2) 4) (ap (λ x. bit_or x 1) (sym z) ∙ e₁)
    ∙ (ap (λ x. bit_or x 4) e₂ ∙ e₃)
