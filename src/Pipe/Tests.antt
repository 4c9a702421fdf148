-- ===== src/Pipe/Tests.antt =====
-- A pipe at work: a write, a read, and a write that meets a full pipe.
use t2_so.Base.{ℕ, ◌≡◌, ◌≤◌, refl, true, false, arith, [], ◌∷◌, ◌++◌, length}
use t2_so.Pipe.{Pipe, opened, pipewrite, piperead, pipesize}
use t2_so.Pipe.Inv.{contents, IsValid}
use t2_so.Pipe.Write.{WriteSays, pipewrite-WriteSays}
use t2_so.Pipe.Read.{ReadSays, piperead-ReadSays}
use t2_so.Pipe.Fifo.{Session, Reach, start, next, writes, reads, Reach-fifo}

abbrev zeros : ℕ → ℕ
zeros _ = 0

abbrev fresh : Pipe
fresh = opened zeros

-- a pipe whose counters are about to wrap round, and that is one byte short of full
abbrev almost_full : Pipe
almost_full = record {
  bytes = zeros;
  nread = 0xffff_fff0;
  nwrite = 495;
  readopen = true;
  writeopen = true;
}

almost_full-IsValid : IsValid almost_full
almost_full-IsValid = record {
  read_small = omega arith;
  write_small = omega arith;
  fits = omega arith;
}

pipewrite-WriteSays_example :
    WriteSays false almost_full (7 ∷ 8 ∷ []) (pipewrite false almost_full (7 ∷ 8 ∷ []))
pipewrite-WriteSays_example = pipewrite-WriteSays false almost_full (7 ∷ 8 ∷ []) almost_full-IsValid

piperead-ReadSays_example :
    let t = piperead false almost_full 3 in ReadSays false almost_full 3 t t.end
piperead-ReadSays_example = piperead-ReadSays false almost_full 3 almost_full-IsValid

abbrev after_write : Pipe
after_write = (pipewrite false fresh (5 ∷ 6 ∷ [])).pipe

abbrev session : Session
session = record {
  pipe = (piperead false after_write 1).pipe;
  sent = 5 ∷ 6 ∷ [];
  received = 5 ∷ [];
}

session-Reach : Reach zeros session
unfolding opened pipewrite piperead
session-Reach = next (next start (writes false (5 ∷ 6 ∷ []) (5 ∷ 6 ∷ []) refl)) (reads false 1)

Reach-fifo_example :
    (session.sent ≡ session.received ++ contents session.pipe)
    × (length (contents session.pipe) ≤ pipesize)
Reach-fifo_example = Reach-fifo session-Reach
