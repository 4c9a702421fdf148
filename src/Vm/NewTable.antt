-- ===== src/Vm/NewTable.antt =====
-- What `walkpgdir` does when it makes a new page table: no address is mapped otherwise than before.
use t2_so.Base.{
  ℕ, ◌+◌, ◌-◌, ◌*◌, ◌%◌, ◌^◌, ◌≤◌, ◌<◌, ◌≡◌, ◌≢◌, ◌∙◌, ◌⊎◌, inl, inr, refl, sym, ap, arith, true,
  false, ◌==◌, if◌then◌else◌, Bool-cases, dec_lt, ℕ_discrete,
}
use t2_so.Str.{Memory, memset, store_word}
use t2_so.Str.Mem.{within, memset-within}
use t2_so.Kalloc.{pgsize, v2p, load_word}
use t2_so.Kalloc.Words.{load_word-store_word, load_word-cong, store_word-other}
use t2_so.Kalloc.FreeList.{SameOutside}
use t2_so.Vm.{pdx, ptx, pte_addr, is_present, p2v}
use t2_so.Vm.Tables.{
  entry_some, entry_none, dir_word, table, has_table, entry, table-aligned, pde_of, pde_of_lem,
}

-- the memory after it
abbrev pub tabled : Memory → ℕ → ℕ → ℕ → Memory
tabled m pgdir d p = store_word (memset m p 0 pgsize) (pgdir + 4 * d) (pde_of p)

zeroed : (m : Memory) (p : ℕ) (i : ℕ) → p ≤ i → i < p + pgsize → memset m p 0 pgsize i ≡ 0
zeroed m p i lo hi =
    let inside : within p pgsize i ≡ true = ground (arith, lo, hi) in
    memset-within m p 0 pgsize i ∙ rw inside refl

pub memset-SameOutside : (m : Memory) (p : ℕ) → SameOutside p m (memset m p 0 pgsize)
memset-SameOutside m p i away =
    let outside : within p pgsize i ≡ false = ground (arith, away) in
    memset-within m p 0 pgsize i ∙ rw outside refl

module _ (m : Memory) (pgdir d p : ℕ) (page : pgdir % 4096 ≡ 0) (aligned : p % 4096 ≡ 0)
    (ne : pgdir ≢ p) (small : d < 1024) (word : p < 2 ^ 32) where
  kept :
      (x : ℕ)
      → x % 4 ≡ 0
      → x - x % 4096 ≢ p
      → x ≢ pgdir + 4 * d
      → load_word (tabled m pgdir d p) x ≡ load_word m x
  kept x four other away = load_word-cong m (tabled m pgdir d p) x (λ i lo hi.
      store_word-other (memset m p 0 pgsize) (pgdir + 4 * d) (pde_of p) i (apart_pde i lo hi)
      ∙ memset-SameOutside m p i (apart_page i lo hi))
    where
      apart_pde : (i : ℕ) → x ≤ i → i < x + 4 → (i < pgdir + 4 * d) ⊎ (pgdir + 4 * d + 4 ≤ i)
      apart_pde i lo hi = elim (dec_lt i (pgdir + 4 * d)) [
        | yes lt ↦ inl lt
        | no ge ↦ inr (omega (arith, page, four, away))
      ]

      apart_page : (i : ℕ) → x ≤ i → i < x + 4 → (i < p) ⊎ (p + pgsize ≤ i)
      apart_page i lo hi = elim (dec_lt i p) [
        | yes lt ↦ inl lt
        | no ge ↦ inr (omega (arith, aligned, four, other))
      ]

  new_word : load_word (tabled m pgdir d p) (pgdir + 4 * d) ≡ v2p p + 7
  new_word =
      load_word-store_word (memset m p 0 pgsize) (pgdir + 4 * d) (pde_of p)
        (omega (arith, pde_of_lem p aligned))
      ∙ pde_of_lem p aligned

  new_entry : (x : ℕ) → x < 1024 → load_word (tabled m pgdir d p) (p + 4 * x) ≡ 0
  unfolding load_word
  new_entry x lt =
      load_word-cong (λ i. 0) (tabled m pgdir d p) (p + 4 * x)
        (λ i lo hi.
          store_word-other (memset m p 0 pgsize) (pgdir + 4 * d) (pde_of p) i (apart i lo hi)
          ∙ zeroed m p i (omega arith) (omega arith))
    where
      apart :
          (i : ℕ)
          → p + 4 * x ≤ i
          → i < p + 4 * x + 4
          → (i < pgdir + 4 * d) ⊎ (pgdir + 4 * d + 4 ≤ i)
      apart i lo hi = elim (dec_lt i (pgdir + 4 * d)) [
        | yes lt ↦ inl lt
        | no ge ↦ inr (omega (arith, page, aligned, ne))
      ]

  -- the directory after it
  dir_word-new :
      (e : ℕ)
      → e < 1024
      → dir_word (tabled m pgdir d p) pgdir e ≡ (if d == e then v2p p + 7 else dir_word m pgdir e)
  dir_word-new e lt = elim (ℕ_discrete d e) [
    | yes same ↦
        let hit : (d == e) ≡ true = ground (arith, same) in
        ap (λ x. load_word (tabled m pgdir d p) (pgdir + 4 * x)) (sym same)
        ∙ (new_word ∙ rw hit refl)
    | no other ↦
        let miss : (d == e) ≡ false = ground (arith, other) in
        kept (pgdir + 4 * e) (omega (arith, page)) (omega (arith, page, ne)) (omega (arith, other))
        ∙ rw miss refl
  ]

  pub has_table-new :
      (e : ℕ)
      → e < 1024
      → has_table (tabled m pgdir d p) pgdir e ≡ (if d == e then true else has_table m pgdir e)
  has_table-new e lt = elim (Bool-cases (d == e)) [
    | inl hit ↦
        let odd : (v2p p + 7) % 2 ≡ 1 = omega arith in
        let w : dir_word (tabled m pgdir d p) pgdir e ≡ v2p p + 7 =
          dir_word-new e lt ∙ rw hit refl in
        ap is_present w ∙ rw (odd, hit) refl
    | inr miss ↦
        let w : dir_word (tabled m pgdir d p) pgdir e ≡ dir_word m pgdir e =
          dir_word-new e lt ∙ rw miss refl in
        ap is_present w ∙ rw miss refl
  ]

  pub table-new :
      (e : ℕ)
      → e < 1024
      → table (tabled m pgdir d p) pgdir e ≡ (if d == e then p else table m pgdir e)
  table-new e lt = elim (Bool-cases (d == e)) [
    | inl hit ↦
        let w : dir_word (tabled m pgdir d p) pgdir e ≡ v2p p + 7 =
          dir_word-new e lt ∙ rw hit refl in
        let back : p2v (pte_addr (v2p p + 7)) ≡ p = omega arith in
        ap (λ x. p2v (pte_addr x)) w ∙ (back ∙ rw hit refl)
    | inr miss ↦
        let w : dir_word (tabled m pgdir d p) pgdir e ≡ dir_word m pgdir e =
          dir_word-new e lt ∙ rw miss refl in
        ap (λ x. p2v (pte_addr x)) w ∙ rw miss refl
  ]

  kept_in :
      (t x : ℕ)
      → t % 4096 ≡ 0
      → t ≢ pgdir
      → t ≢ p
      → x < 1024
      → load_word (tabled m pgdir d p) (t + 4 * x) ≡ load_word m (t + 4 * x)
  kept_in t x whole off_dir off_new lt =
      kept (t + 4 * x) (omega (arith, whole)) (omega (arith, whole, off_new))
        (omega (arith, whole, page, off_dir))

  -- No address has another entry than before.
  pub entry-new :
      has_table m pgdir d ≡ false
      → ((e : ℕ)
          → e < 1024
          → has_table m pgdir e ≡ true
          → (table m pgdir e ≢ pgdir) × (table m pgdir e ≢ p))
      → (va : ℕ) → entry (tabled m pgdir d p) pgdir va ≡ entry m pgdir va
  entry-new absent apart va = elim (ℕ_discrete d (pdx va)) [
    | yes same ↦
        let hit : (d == pdx va) ≡ true = ground (arith, same) in
        let now : has_table (tabled m pgdir d p) pgdir (pdx va) ≡ true =
          has_table-new (pdx va) (omega arith) ∙ rw hit refl in
        let place : table (tabled m pgdir d p) pgdir (pdx va) ≡ p =
          table-new (pdx va) (omega arith) ∙ rw hit refl in
        let before : has_table m pgdir (pdx va) ≡ false =
          ap (has_table m pgdir) (sym same) ∙ absent in
        entry_some (tabled m pgdir d p) pgdir va p now place
        ∙ (new_entry (ptx va) (omega arith) ∙ sym (entry_none m pgdir va before))
    | no other ↦
        let miss : (d == pdx va) ≡ false = ground (arith, other) in
        let now : has_table (tabled m pgdir d p) pgdir (pdx va) ≡ has_table m pgdir (pdx va) =
          has_table-new (pdx va) (omega arith) ∙ rw miss refl in
        let place : table (tabled m pgdir d p) pgdir (pdx va) ≡ table m pgdir (pdx va) =
          table-new (pdx va) (omega arith) ∙ rw miss refl in
        elim (Bool-cases (has_table m pgdir (pdx va))) [
          | inl there ↦
              let (off_dir, off_new) = apart (pdx va) (omega arith) there in
              let whole : table m pgdir (pdx va) % 4096 ≡ 0 = table-aligned m pgdir (pdx va) in
              entry_some (tabled m pgdir d p) pgdir va (table m pgdir (pdx va)) (now ∙ there) place
              ∙ (kept_in (table m pgdir (pdx va)) (ptx va) whole off_dir off_new (omega arith)
                  ∙ sym (entry_some m pgdir va (table m pgdir (pdx va)) there refl))
          | inr none_ ↦
              entry_none (tabled m pgdir d p) pgdir va (now ∙ none_)
              ∙ sym (entry_none m pgdir va none_)
        ]
  ]
