-- ===== src/Vm/Store.antt =====
-- A change of one entry of a page table, and `mappages`.
use t2_so.Base.{
  ℕ, ◌+◌, ◌*◌, ◌%◌, ◌^◌, ◌≤◌, ◌<◌, ◌≡◌, ◌≢◌, ◌∙◌, ◌⊎◌, inl, inr, refl, sym, ap, arith, Bool, true,
  false, ◌==◌, if◌then◌else◌, ◌&&◌, Bool-cases, List, dec_lt,
}
use t2_so.Str.{Memory, store_word}
use t2_so.Kalloc.{load_word, Kmem}
use t2_so.Kalloc.Words.{load_word-store_word, load_word-cong, store_word-other}
use t2_so.Kalloc.FreeList.{FreeFrom-SameOutside}
use t2_so.Vm.{pdx, ptx, pte_addr, is_present, p2v, with_memory}
use t2_so.Vm.Tables.{
  entry_some, entry_none, dir_word, table, has_table, entry, IsSound, table-aligned,
}
use t2_so.Vm.Walk.{store_word-SameOutside}

-- two addresses in the same page
abbrev pub same_page : ℕ → ℕ → Bool
same_page va a = pdx va == pdx a && ptx va == ptx a

pub same_page_lem : (va a : ℕ) → same_page va a ≡ true → (pdx va ≡ pdx a) × (ptx va ≡ ptx a)
same_page_lem va a e = (ground (arith, e), ground (arith, e))

same_page_intro : (va a : ℕ) → pdx va ≡ pdx a → ptx va ≡ ptx a → same_page va a ≡ true
same_page_intro va a d x = ground (arith, d, x)

module _ (end pgdir : ℕ) (k : Kmem) (pages : List ℕ) (h : IsSound end pgdir k pages) (va v : ℕ)
    (there : has_table k.memory pgdir (pdx va) ≡ true) (word : v < 2 ^ 32) where
  -- the address of the entry, and the memory after the store
  abbrev place : ℕ
  place = table k.memory pgdir (pdx va) + 4 * ptx va

  abbrev pub stored : Memory
  stored = store_word k.memory place v

  kept : (x : ℕ) → x % 4 ≡ 0 → x ≢ place → load_word stored x ≡ load_word k.memory x
  kept x four away =
      load_word-cong k.memory stored x
        (λ i lo hi. store_word-other k.memory place v i (apart i lo hi))
    where
      apart : (i : ℕ) → x ≤ i → i < x + 4 → (i < place) ⊎ (place + 4 ≤ i)
      apart i lo hi = elim (dec_lt i place) [
        | yes lt ↦ inl lt
        | no ge ↦ inr (omega (arith, table-aligned k.memory pgdir (pdx va), four, away))
      ]

  -- the directory is not changed
  dir_kept : (d : ℕ) → d < 1024 → dir_word stored pgdir d ≡ dir_word k.memory pgdir d
  dir_kept d lt =
      let off_dir : table k.memory pgdir (pdx va) ≢ pgdir = h.apart (pdx va) (omega arith) there in
      kept (pgdir + 4 * d) (omega (arith, h.page))
        (omega (arith, h.page, table-aligned k.memory pgdir (pdx va), off_dir))

  has_kept : (d : ℕ) → d < 1024 → has_table stored pgdir d ≡ has_table k.memory pgdir d
  has_kept d lt = ap is_present (dir_kept d lt)

  table_kept : (d : ℕ) → d < 1024 → table stored pgdir d ≡ table k.memory pgdir d
  table_kept d lt = ap (λ e. p2v (pte_addr e)) (dir_kept d lt)

  pub stored-IsSound : IsSound end pgdir (with_memory k stored) pages
  stored-IsSound = record {
    free =
        FreeFrom-SameOutside end (table k.memory pgdir (pdx va)) k.memory stored k.freelist pages
          (table-aligned k.memory pgdir (pdx va))
          (store_word-SameOutside k.memory (table k.memory pgdir (pdx va)) (ptx va) v (omega arith))
          (h.tables_fresh (pdx va) (omega arith) there) h.free;
    page = h.page;
    fresh = h.fresh;
    apart = λ d lt q r. h.apart d lt (sym (has_kept d lt) ∙ q) (sym (table_kept d lt) ∙ r);
    tables_fresh = λ d lt q. rw (table_kept d lt) (h.tables_fresh d lt (sym (has_kept d lt) ∙ q));
    distinct = λ d e ld le qd qe r.
        h.distinct d e ld le (sym (has_kept d ld) ∙ qd) (sym (has_kept e le) ∙ qe)
          (sym (table_kept d ld) ∙ (r ∙ table_kept e le));
  }

  other_place :
      (a : ℕ)
      → has_table k.memory pgdir (pdx a) ≡ true
      → same_page va a ≡ false
      → table k.memory pgdir (pdx a) + 4 * ptx a ≢ place
  other_place a has miss q =
      let tables : table k.memory pgdir (pdx a) ≡ table k.memory pgdir (pdx va) =
        omega
          (arith, q, table-aligned k.memory pgdir (pdx a), table-aligned k.memory pgdir (pdx va)) in
      let x : ptx va ≡ ptx a = omega (arith, q, tables) in
      let d : pdx va ≡ pdx a =
        h.distinct (pdx va) (pdx a) (omega arith) (omega arith) there has (sym tables) in
      let clash : true ≡ false = sym (same_page_intro va a d x) ∙ miss in cc

  other_table : (a : ℕ) → has_table k.memory pgdir (pdx a) ≡ false → same_page va a ≡ false
  other_table a absent = elim (Bool-cases (same_page va a)) [
    | inl hit ↦
        let (d, _) = same_page_lem va a hit in
        let clash : true ≡ false = sym there ∙ (ap (has_table k.memory pgdir) d ∙ absent) in cc
    | inr miss ↦ miss
  ]

  -- the other entries are not changed
  pub entry-stored :
      (a : ℕ) → entry stored pgdir a ≡ (if same_page va a then v else entry k.memory pgdir a)
  entry-stored a = elim (Bool-cases (has_table k.memory pgdir (pdx a))) [
    | inl has ↦
        let now : entry stored pgdir a
            ≡ load_word stored (table k.memory pgdir (pdx a) + 4 * ptx a) =
          entry_some stored pgdir a (table k.memory pgdir (pdx a))
            (has_kept (pdx a) (omega arith) ∙ has) (table_kept (pdx a) (omega arith)) in
        elim (Bool-cases (same_page va a)) [
          | inl hit ↦
              let (d, x) = same_page_lem va a hit in
              let here : table k.memory pgdir (pdx a) + 4 * ptx a ≡ place = sym (
                ap (λ e. table k.memory pgdir e + 4 * ptx va) d
                ∙ ap (λ y. table k.memory pgdir (pdx a) + 4 * y) x) in
              now
              ∙ (ap (load_word stored) here
                  ∙ (load_word-store_word k.memory place v word ∙ rw hit refl))
          | inr miss ↦
              let off : table k.memory pgdir (pdx a) + 4 * ptx a ≢ place = other_place a has miss in
              now
              ∙ (kept (table k.memory pgdir (pdx a) + 4 * ptx a)
                    (omega (arith, table-aligned k.memory pgdir (pdx a))) off
                  ∙ (sym (entry_some k.memory pgdir a (table k.memory pgdir (pdx a)) has refl)
                      ∙ rw miss refl))
        ]
    | inr absent ↦
        let miss : same_page va a ≡ false = other_table a absent in
        entry_none stored pgdir a (has_kept (pdx a) (omega arith) ∙ absent)
        ∙ (sym (entry_none k.memory pgdir a absent) ∙ rw miss refl)
  ]
