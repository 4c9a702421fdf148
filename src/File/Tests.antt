-- ===== src/File/Tests.antt =====
-- Concrete runs of the file table, over services whose state is one number: the bytes written.
use t2_so.Base.{find_from}
use t2_so.File.Refs.{dups}
use t2_so.File.Refs.{allocs}
use t2_so.File.Refs.{start}
use t2_so.File.Refs.{next}
use t2_so.Base.{ℕ, ◌+◌, ◌-◌, ◌%◌, ◌^◌, ◌<◌, ◌≡◌, refl, arith, true, false, some, update}
use t2_so.Base.{pos, pos_part, ok, ◌≢◌}
use t2_so.File.{
  File, Ftable, fd_none, fd_inode, Calls, nfile, filealloc, filedup, fileclose, filewrite, let_go,
}
use t2_so.File.Chunks.{Wrote, WritesAll, filewrite-Wrote}
use t2_so.File.Refs.{Held, Reach, Reach-refs}

abbrev counter : Calls ℕ
counter = record {
  pipeclose = λ p writable w. ok w;
  begin_trans = λ w. w;
  commit_trans = λ w. w;
  ilock = λ ip w. ok w;
  iunlock = λ ip w. ok w;
  iput = λ ip w. ok w;
  stati = λ ip st w. w;
  piperead = λ p addr n w. ok (n, w);
  pipewrite = λ p addr n w. ok (n, w);
  readi = λ ip addr off n w. ok (n, w);
  writei = λ ip addr off n w. ok (n, w + pos_part n);
}

abbrev free_file : File
free_file = record {
  type = fd_none;
  ref = 0;
  readable = false;
  writable = false;
  pipe = 0;
  ip = 0;
  off = 0;
}

abbrev regular : File
regular = record free_file { type = fd_inode; ref = 1; writable = true; ip = 7; off = 100 }

filewrite-Wrote_example :
    ((f : File) (w : ℕ)
      → filewrite counter regular 4096 (pos 4000) 0 ≡ ok (pos 4000, f, w)
      → Wrote counter regular 4096 4000 0 f w × (f.off % 2 ^ 32 ≡ (100 + 4000) % 2 ^ 32))
    × (WritesAll counter
        → (f : File) × (w : ℕ) × (filewrite counter regular 4096 (pos 4000) 0
            ≡ ok (pos 4000, f, w)))
filewrite-Wrote_example = filewrite-Wrote counter regular 4096 4000 0 refl refl

-- a file with two references
abbrev empty_table : Ftable
empty_table _ = free_file

abbrev one_ref : Ftable
one_ref = update empty_table 0 (record free_file { ref = 1 })

allocated : filealloc empty_table ≡ (some 0, one_ref)
unfolding filealloc find_from
allocated = refl

abbrev two_refs : Ftable
two_refs = update one_ref 0 (record (one_ref 0) { ref = 2 })

doubled : filedup 0 one_ref ≡ ok (0, two_refs)
unfolding filedup
doubled = refl

abbrev opened : Held ℕ
opened = record { table = two_refs; held = update (update (λ _. 0) 0 1) 0 2; world = 0 }

opened-Reach : Reach counter opened
opened-Reach =
    next (next (start empty_table 0 (λ f. refl)) (allocs _ 0 one_ref allocated))
      (dups _ 0 (0, two_refs) (omega arith) doubled)

Reach-refs_example :
    ((f : ℕ) → (two_refs f).ref ≡ opened.held f)
    × ((f : ℕ) (t : Ftable) → filealloc two_refs ≡ (some f, t) → (f < nfile) × (opened.held f ≡ 0))
    × ((f : ℕ)
        → f < nfile
        → opened.held f ≡ 0
        → (g : ℕ) × ((t : Ftable) × (filealloc two_refs ≡ (some g, t))))
    × ((f : ℕ) → 0 < opened.held f → (r : ℕ × Ftable) × (filedup f two_refs ≡ ok r))
    × ((f : ℕ)
        → 1 < opened.held f
        → fileclose counter f two_refs 0
          ≡ ok (update two_refs f (record (two_refs f) { ref = opened.held f - 1 }), 0))
    × ((f w : ℕ)
        → opened.held f ≡ 1
        → let_go counter (two_refs f) 0 ≡ ok w
        → (t : Ftable) × ((fileclose counter f two_refs 0 ≡ ok (t, w))
            × ((t f).ref ≡ 0)
            × ((t f).type ≡ fd_none)
            × ((g : ℕ) → g ≢ f → t g ≡ two_refs g)))
Reach-refs_example = Reach-refs counter opened opened-Reach
