-- ===== src/Pipe/Fifo.antt =====
-- A pipe over its whole life: what is read is what was written, in order, with nothing lost,
-- repeated or made up, however the calls interleave.
use mathlib.Core.List.{append_cancel_right}
use t2_so.Base.{ℕ, ◌≡◌, Bool, List, [], ◌++◌, sym, ◌∙◌, arith, ◌≤◌, length}
use mathlib.Core.List.{append-nil, append_assoc, append_cancel_right}
use t2_so.Pipe.{
  Pipe, pipesize, opened, pipewrite, piperead, pipeclose, ReadEnd, got_bytes, interrupted, waiting,
}
use t2_so.Pipe.Inv.{contents, IsValid, opened-IsValid, pipeclose-contents, length-contents}
use t2_so.Pipe.Write.{rest_of, pipewrite-WriteSays}
use t2_so.Pipe.Read.{ReadSays, piperead-ReadSays}

-- the pipe with all that was ever put in and taken out
pub record Session : Type 0 where
  pub pipe : Pipe
  pub sent : List ℕ
  pub received : List ℕ

abbrev pub bytes_of : ReadEnd → List ℕ
bytes_of (got_bytes bs) = bs
bytes_of _ = []

-- One stretch of a call between two sleeps, by any process. The bytes that a write has taken are
-- those before the rest; a write that is woken later goes on with that rest.
pub data Step (s : Session) : Session → Type 0 where
  writes :
      (killed : Bool) (bs taken : List ℕ)
      → bs ≡ taken ++ rest_of (pipewrite killed s.pipe bs).end
      → Step s (record s { pipe = (pipewrite killed s.pipe bs).pipe; sent = s.sent ++ taken })
  reads :
      (killed : Bool) (n : ℕ)
      → Step s (record s {
        pipe = (piperead killed s.pipe n).pipe;
        received = s.received ++ bytes_of (piperead killed s.pipe n).end;
      })
  closes : (writable : Bool) → Step s (record s { pipe = (pipeclose s.pipe writable).0 })

pub data Reach (junk : ℕ → ℕ) : Session → Type 0 where
  start : Reach junk (record { pipe = opened junk; sent = []; received = [] })
  next : {s s' : Session} → Reach junk s → Step s s' → Reach junk s'

pub record Inv (s : Session) : Type 0 where
  pub valid : IsValid s.pipe
  pub fifo : s.sent ≡ s.received ++ contents s.pipe

writes-Inv :
    (s : Session) (killed : Bool) (bs taken : List ℕ)
    → bs ≡ taken ++ rest_of (pipewrite killed s.pipe bs).end
    → Inv s
    → Inv (record s { pipe = (pipewrite killed s.pipe bs).pipe; sent = s.sent ++ taken })
writes-Inv s killed bs taken e inv =
    let says = pipewrite-WriteSays killed s.pipe bs inv.valid in
    let same : taken ≡ says.sent = append_cancel_right taken says.sent _ (sym e ∙ says.split) in
    record {
      valid = says.valid;
      fifo = rw (same, inv.fifo, says.added) (append_assoc s.received (contents s.pipe) says.sent);
    }

reads-Inv :
    (s : Session) (killed : Bool) (n : ℕ) (e : ReadEnd)
    → Inv s
    → ReadSays killed s.pipe n (piperead killed s.pipe n) e
    → Inv (record s { pipe = (piperead killed s.pipe n).pipe; received = s.received ++ bytes_of e })
reads-Inv s killed n (got_bytes bs) inv (copy, _, _) = record {
  valid = copy.valid;
  fifo = inv.fifo ∙ rw copy.taken (sym (append_assoc s.received bs _));
}
reads-Inv s killed n interrupted inv (_, _, _, same) = rw (same, append-nil) inv
reads-Inv s killed n waiting inv (_, _, _, same) = rw (same, append-nil) inv

pub Step-Inv : {s s' : Session} → Step s s' → Inv s → Inv s'
Step-Inv {s} (writes killed bs taken e) inv = writes-Inv s killed bs taken e inv
Step-Inv {s} (reads killed n) inv =
    reads-Inv s killed n _ inv (piperead-ReadSays killed s.pipe n inv.valid)
Step-Inv {s} (closes writable) inv =
    let (valid, same) = pipeclose-contents s.pipe writable inv.valid in
    record { valid = valid; fifo = rw same inv.fifo }

Reach-Inv : {junk : ℕ → ℕ} {s : Session} → Reach junk s → Inv s
Reach-Inv {junk} start =
    let (valid, none) = opened-IsValid junk in record { valid = valid; fifo = sym none }
Reach-Inv (next r st) = Step-Inv st (Reach-Inv r)

-- Over the life of a pipe, whatever calls are made and however they interleave, the bytes written
-- are the bytes read so far followed by those that the pipe holds, at most 512.
pub Reach-fifo :
    {junk : ℕ → ℕ} {s : Session}
    → Reach junk s
    → (s.sent ≡ s.received ++ contents s.pipe) × (length (contents s.pipe) ≤ pipesize)
Reach-fifo {s} r =
    let inv = Reach-Inv r in (inv.fifo, omega (arith, inv.valid.fits, length-contents s.pipe))
