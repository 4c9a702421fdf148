-- ===== src/Syscall/Tests.antt =====
-- Concrete arguments: the first one of a process of 4096 bytes is the address 2000.
use t2_so.Base.{◌-◌, ◌^◌, ◌≤◌, ◌<◌, ◌≡◌, refl, arith, some}
use t2_so.Str.{store_word}
use t2_so.Kalloc.{load_word}
use t2_so.Syscall.{Caller, fetchint, argint, argptr, argstr}
use t2_so.Syscall.Args.{FirstZero, args-within, argptr-negative}

abbrev caller : Caller
caller = record { sz = 4096; esp = 1000; memory = store_word (λ _. 0) 1004 2000 }

caller_arg : argint caller 0 ≡ some 2000
unfolding argint fetchint load_word
caller_arg = refl

args-within_example :
    (argptr caller 0 100 ≡ some 2000
      → (2000 < 4096) × (2100 ≤ 4096) × (argint caller 0 ≡ some 2000))
    × (argstr caller 0 ≡ some (2000, 0)
        → (2000 < 4096) × FirstZero caller.memory 2000 0 × (argint caller 0 ≡ some 2000))
args-within_example = args-within caller 0 2000 100 0 (omega arith) (omega arith)

-- the size -1
argptr-negative_example : argptr caller 0 (2 ^ 32 - 1) ≡ some 2000
argptr-negative_example =
    argptr-negative caller 0 2000 1 (omega arith) caller_arg (omega arith) (omega arith)
      (omega arith)
