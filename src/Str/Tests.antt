-- ===== src/Str/Tests.antt =====
-- The functions of src/string.c at small inputs.
use t2_so.Base.{some}
use t2_so.Base.{◌+◌, ◌-◌, ◌%◌, ◌≡◌, refl, arith, pos, negsuc, if◌then◌else◌}
use t2_so.Str.{Memory, memset, memmove, memcmp, safestrcpy, strlen, text}
use t2_so.Str.Mem.{within, memset-within, memmove-within}
use t2_so.Str.Copy.{zero_in}
use t2_so.Str.Compare.{strlen-some}

abbrev counting : Memory
counting a = a

memset-within_example :
    memset counting 8 0x141 4 9 ≡ (if within 8 4 9 then 0x141 % 256 else counting 9)
memset-within_example = memset-within counting 8 0x141 4 9

memset_run : memset counting 8 0x141 4 9 ≡ 0x41
unfolding memset
memset_run = refl

-- a move up onto its own source
memmove-within_example :
    memmove counting 5 3 4 7 ≡ (if within 5 4 7 then counting (3 + (7 - 5)) else counting 7)
memmove-within_example = memmove-within counting 5 3 4 7

memmove_run : memmove counting 5 3 4 7 ≡ 5
unfolding memmove
memmove_run = refl

safestrcpy_run : safestrcpy counting (text "init") (pos 4) 3 ≡ 0
unfolding safestrcpy
safestrcpy_run = refl

memcmp_run : memcmp (text "kill") (text "kiln") 4 ≡ negsuc 1
unfolding memcmp
memcmp_run = refl

strlen-some_example : strlen 5 (text "init") ≡ some 4
unfolding zero_in
strlen-some_example = strlen-some (text "init") 4 5 (omega arith) refl refl
