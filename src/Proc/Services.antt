-- ===== src/Proc/Services.antt =====
-- What src/proc.c calls in the other files of the kernel, each over a state `W` of theirs: the
-- page allocator (kalloc.c), address spaces (vm.c), open files (file.c), inodes and the log
-- (fs.c, log.c). A null pointer is `none`.
use t2_so.Base.{ℕ, Option, Result}

pub record Services (W : Type 0) : Type 0 where
  pub kalloc : W → Option ℕ × W
  pub kfree : ℕ → W → Result W
  pub setupkvm : W → Option ℕ × W
  pub inituvm : ℕ → (ℕ → ℕ) → ℕ → W → Result W
  pub copyuvm : ℕ → ℕ → W → Result (Option ℕ × W)
  pub freevm : ℕ → W → Result W
  pub allocuvm : ℕ → ℕ → ℕ → W → Result (ℕ × W)
  pub deallocuvm : ℕ → ℕ → ℕ → W → Result (ℕ × W)
  pub filedup : ℕ → W → Result (ℕ × W)
  pub fileclose : ℕ → W → Result W
  pub idup : ℕ → W → ℕ × W
  pub iput : ℕ → W → Result W
  pub namei : (ℕ → ℕ) → W → Result (Option ℕ × W)
