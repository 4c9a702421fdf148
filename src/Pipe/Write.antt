-- ===== src/Pipe/Write.antt =====
-- What `pipewrite` adds to a pipe, and when it stops.
use t2_so.Base.{
  ℕ, ◌≡◌, ◌≢◌, ◌⊎◌, inl, inr, refl, Bool, true, false, not, ◌||◌, arith, List, [], ◌∷◌, ◌++◌,
}
use t2_so.Base.{length, Bool-cases, sym, ◌∙◌, ap}
use mathlib.Core.List.{append-nil, append_assoc}
use t2_so.Pipe.{Pipe, readers, pipesize, full, put, WriteEnd, wrote, refused, blocked}
use t2_so.Pipe.{Written, pipewrite}
use t2_so.Pipe.Inv.{contents, IsValid, put-IsValid, contents-put, full-length}

-- the bytes not written
abbrev pub rest_of : WriteEnd → List ℕ
rest_of wrote = []
rest_of (refused bs) = bs
rest_of (blocked bs) = bs

-- why a call has come to rest
abbrev pub Stopped : Bool → Bool → Written → WriteEnd → Type 0
Stopped killed readopen w wrote = w.woken ≡ readers ∷ []
Stopped killed readopen w (refused bs) =
    (length (contents w.pipe) ≡ pipesize) × (bs ≢ []) × ((readopen ≡ false) ⊎ (killed ≡ true))
Stopped killed readopen w (blocked bs) =
    (length (contents w.pipe) ≡ pipesize)
    × (bs ≢ [])
    × (readopen ≡ true)
    × (killed ≡ false)
    × (w.woken ≡ readers ∷ [])

pub record WriteSays (killed : Bool) (p : Pipe) (bs : List ℕ) (w : Written) : Type 0 where
  pub valid : IsValid w.pipe
  pub sent : List ℕ
  pub split : bs ≡ sent ++ rest_of w.end
  pub added : contents w.pipe ≡ contents p ++ sent
  pub open_kept : (w.pipe.readopen ≡ p.readopen) × (w.pipe.writeopen ≡ p.writeopen)
  pub stopped : Stopped killed p.readopen w w.end

-- one byte more before the others
WriteSays-put :
    (killed : Bool) (p : Pipe) (b : ℕ) (bs : List ℕ) (w : Written)
    → full p ≡ false
    → IsValid p
    → WriteSays killed (put p b) bs w
    → WriteSays killed p (b ∷ bs) w
unfolding put
WriteSays-put killed p b bs w room v s = record {
  valid = s.valid;
  sent = b ∷ s.sent;
  split = ap (λ (l : List ℕ). b ∷ l) s.split;
  added = s.added ∙ rw (contents-put p b room v) (append_assoc (contents p) (b ∷ []) s.sent);
  open_kept = s.open_kept;
  stopped = s.stopped;
}

-- `pipewrite` on a valid pipe adds the bytes that it has taken, in their order, behind those that
-- the pipe held, and leaves the pipe valid. If it returns the count, it has taken all the bytes and
-- woken the readers. Otherwise the pipe is full and bytes are left over: it returns -1 if no reader
-- is left or the writer has been killed, and else sleeps, with the readers woken.
pub pipewrite-WriteSays :
    (killed : Bool) (p : Pipe) (bs : List ℕ)
    → IsValid p
    → WriteSays killed p bs (pipewrite killed p bs)
unfolding pipewrite
pipewrite-WriteSays killed p [] v = record {
  valid = v;
  sent = [];
  split = refl;
  added = sym (append-nil (contents p));
  open_kept = (refl, refl);
  stopped = refl;
}
pipewrite-WriteSays killed p (b ∷ bs) v = elim (Bool-cases (full p)) [
  | inr room ↦
      rw (pipewrite, room)
        (WriteSays-put killed p b bs (pipewrite killed (put p b) bs) room v
          (pipewrite-WriteSays killed (put p b) bs (put-IsValid p b room v)))
  | inl no_room ↦ elim (Bool-cases (not p.readopen || killed)) [
    | inl give_up ↦
        rw (pipewrite, no_room, give_up)
          (record {
            valid = v;
            sent = [];
            split = refl;
            added = sym (append-nil (contents p));
            open_kept = (refl, refl);
            stopped = (ground (arith, full-length p v), λ e. cc, ground arith);
          })
    | inr sleep ↦
        rw (pipewrite, no_room, sleep)
          (record {
            valid = v;
            sent = [];
            split = refl;
            added = sym (append-nil (contents p));
            open_kept = (refl, refl);
            stopped = (ground (arith, full-length p v), λ e. cc, ground arith, ground arith, refl);
          })
  ]
]
