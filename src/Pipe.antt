-- ===== src/Pipe.antt =====
-- src/pipe.c: a pipe, a ring of 512 bytes with counters that wrap round. `pipewrite` and
-- `piperead` are followed up to each `sleep`; what a sleeper does when it is woken is to run its
-- loop again on the pipe as it is then.
pub mod Inv
pub mod Write
pub mod Read
pub mod Fifo
mod Tests
use t2_so.Base.{
  ℕ, zero, suc, ◌+◌, ◌%◌, ◌^◌, Bool, true, false, not, ◌&&◌, ◌||◌, ◌==◌, if◌then◌else◌,
}
use t2_so.Base.{List, [], ◌∷◌, update, Option, none, some}

abbrev pub pipesize : ℕ
pipesize = 512

-- `struct pipe`, less its lock
pub record Pipe : Type 0 where
  pub bytes : ℕ → ℕ
  pub nread : ℕ
  pub nwrite : ℕ
  pub readopen : Bool
  pub writeopen : Bool

-- The two channels of a pipe, `&p->nread` and `&p->nwrite`.
pub data Chan : Type 0 where
  readers writers : Chan

-- what `pipealloc` makes of the page that it is given
unfoldable pub opened : (ℕ → ℕ) → Pipe
opened junk = record { bytes = junk; nread = 0; nwrite = 0; readopen = true; writeopen = true }

abbrev pub full : Pipe → Bool
full p = p.nwrite == (p.nread + pipesize) % 2 ^ 32

abbrev pub empty : Pipe → Bool
empty p = p.nread == p.nwrite

-- `p->data[p->nwrite++ % PIPESIZE] = b`
unfoldable pub put : Pipe → ℕ → Pipe
put p b = record p {
  bytes = update p.bytes (p.nwrite % pipesize) b;
  nwrite = (p.nwrite + 1) % 2 ^ 32;
}

-- `p->data[p->nread++ % PIPESIZE]`
unfoldable pub got : Pipe → ℕ
got p = p.bytes (p.nread % pipesize)

unfoldable pub drop_one : Pipe → Pipe
drop_one p = record p { nread = (p.nread + 1) % 2 ^ 32 }

-- How `pipewrite` comes to rest, with the bytes that it has not written: it returns their number,
-- all written; it returns -1; or it sleeps on `&p->nwrite`, and goes on with the rest when woken.
pub data WriteEnd : Type 0 where
  wrote : WriteEnd
  refused : List ℕ → WriteEnd
  blocked : List ℕ → WriteEnd

pub record Written : Type 0 where
  pub pipe : Pipe
  pub woken : List Chan
  pub end : WriteEnd

-- The loop of `pipewrite` on the bytes still to be written, and what follows it.
unfoldable pub pipewrite : Bool → Pipe → List ℕ → Written
unfolding put
pipewrite killed p [] = record { pipe = p; woken = readers ∷ []; end = wrote }
pipewrite killed p (b ∷ bs) =
    let more = pipewrite killed (put p b) bs in
    if full p
    then (if not p.readopen || killed
        then record { pipe = p; woken = []; end = refused (b ∷ bs) }
        else record { pipe = p; woken = readers ∷ []; end = blocked (b ∷ bs) })
    else more

-- How `piperead` comes to rest: it returns the number of bytes that it has stored, it returns -1,
-- or it sleeps on `&p->nread`, and begins again when woken.
pub data ReadEnd : Type 0 where
  got_bytes : List ℕ → ReadEnd
  interrupted : ReadEnd
  waiting : ReadEnd

pub record Taken : Type 0 where
  pub pipe : Pipe
  pub woken : List Chan
  pub end : ReadEnd

-- the loop that copies at most `n` bytes
pub copy_out : Pipe → ℕ → List ℕ × Pipe
unfolding got drop_one
copy_out p zero = ([], p)
copy_out p (suc n) =
    let (bs, p') = copy_out (drop_one p) n in if empty p then ([], p) else (got p ∷ bs, p')

unfoldable pub piperead : Bool → Pipe → ℕ → Taken
unfolding copy_out
piperead killed p n =
    if empty p && p.writeopen
    then (if killed
        then record { pipe = p; woken = []; end = interrupted }
        else record { pipe = p; woken = []; end = waiting })
    else let (bs, p') = copy_out p n in
      record { pipe = p'; woken = writers ∷ []; end = got_bytes bs }

-- `pipeclose`: the pipe, the channel that it wakes, and whether it frees the page
unfoldable pub pipeclose : Pipe → Bool → Pipe × Chan × Bool
pipeclose p writable =
    let p' = if writable then record p { writeopen = false } else record p { readopen = false } in
    (p', if writable then readers else writers, not p'.readopen && not p'.writeopen)
