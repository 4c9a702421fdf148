-- ===== src/Vm/Tests.antt =====
-- A page mapped in an empty directory.
use t2_so.Base.{ℕ, ◌+◌, refl, arith, false, ok, panic, Result, ℤ, [], ◌∷◌}
use t2_so.Str.{memset}
use t2_so.Kalloc.{kernbase, load_word, Kmem, kalloc}
use t2_so.Vm.{mappages, map_from, walkpgdir}
use t2_so.Vm.Tables.{IsSound}
use t2_so.Vm.Mapped.{Mapped, mappages-Mapped}

-- the first address after the kernel, a directory, and the one page that is free
abbrev first_free : ℕ
first_free = kernbase + 1048576

abbrev directory : ℕ
directory = kernbase + 4194304

abbrev spare : ℕ
spare = directory + 4096

abbrev unmapped : Kmem
unmapped = record { use_lock = false; freelist = spare; memory = λ a. 0 }

unmapped-IsSound : IsSound first_free directory unmapped (spare ∷ [])
unfolding load_word
unmapped-IsSound = record {
  free = (refl, (refl, omega arith), tt, refl);
  page = omega arith;
  fresh = (λ q. omega (arith, q), tt);
  apart = λ d lt q. cc;
  tables_fresh = λ d lt q. cc;
  distinct = λ d e ld le q r s. cc;
}

result : Kmem → Result (ℤ × Kmem) → Kmem
result k (ok q) = q.1
result k panic = k

abbrev one_mapped : Kmem
one_mapped = result unmapped (mappages directory 8192 4096 65536 6 unmapped)

mappages-Mapped_example : Mapped first_free directory 6 8192 8192 65536 unmapped one_mapped
unfolding result mappages map_from walkpgdir kalloc load_word memset
mappages-Mapped_example =
    mappages-Mapped first_free directory 6 (omega arith) unmapped one_mapped (spare ∷ []) 8192 1
      65536 (omega arith) (omega arith) (omega arith) (omega arith) (omega arith) unmapped-IsSound
      refl
