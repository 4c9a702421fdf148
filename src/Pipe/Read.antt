-- ===== src/Pipe/Read.antt =====
-- What `piperead` takes from a pipe, and when it waits.
use t2_so.Base.{ℕ, zero, suc, ◌≡◌, ◌∙◌, refl, Bool, true, false, ◌&&◌, arith, List, [], ◌∷◌, ◌++◌}
use t2_so.Base.{length, Bool-cases, inl, inr, ap, min}
use t2_so.Pipe.{Pipe, writers, empty, drop_one, got, copy_out, ReadEnd, got_bytes, interrupted}
use t2_so.Pipe.{waiting, Taken, piperead}
use t2_so.Pipe.Inv.{contents, IsValid, drop_one-IsValid, contents-drop_one, empty-length}

length-zero : (l : List ℕ) → length l ≡ 0 → l ≡ []
length-zero [] e = refl
length-zero (x ∷ l) e = absurd (omega arith)

pub record CopySays (p : Pipe) (n : ℕ) (bs : List ℕ) (p' : Pipe) : Type 0 where
  pub valid : IsValid p'
  pub taken : contents p ≡ bs ++ contents p'
  pub count : length bs ≡ min n (length (contents p))
  pub open_kept : (p'.readopen ≡ p.readopen) × (p'.writeopen ≡ p.writeopen)

CopySays-more :
    (p : Pipe) (n : ℕ) {bs : List ℕ} {p' : Pipe}
    → empty p ≡ false
    → IsValid p
    → CopySays (drop_one p) n bs p'
    → CopySays p (suc n) (got p ∷ bs) p'
unfolding drop_one
CopySays-more p n more v rest =
    let front = contents-drop_one p more v in
    record {
      valid = rest.valid;
      taken = front ∙ ap (λ (l : List ℕ). got p ∷ l) rest.taken;
      count = rw front (omega (arith, rest.count));
      open_kept = rest.open_kept;
    }

copy_out-CopySays : (p : Pipe) (n : ℕ) → IsValid p → let r = copy_out p n in CopySays p n r.0 r.1
unfolding copy_out
copy_out-CopySays p zero v = record {
  valid = v;
  taken = refl;
  count = omega arith;
  open_kept = (refl, refl);
}
copy_out-CopySays p (suc n) v = elim (Bool-cases (empty p)) [
  | inl none_left ↦
      rw (copy_out, none_left)
        (record {
          valid = v;
          taken = refl;
          count = ground (arith, empty-length p v);
          open_kept = (refl, refl);
        })
  | inr more ↦
      rw (copy_out, more)
        (CopySays-more p n more v (copy_out-CopySays (drop_one p) n (drop_one-IsValid p more v)))
]

-- what a read comes to
abbrev pub ReadSays : Bool → Pipe → ℕ → Taken → ReadEnd → Type 0
ReadSays killed p n t (got_bytes bs) =
    CopySays p n bs t.pipe × (t.woken ≡ writers ∷ []) × (contents p ≡ [] → p.writeopen ≡ false)
ReadSays killed p n t interrupted =
    (contents p ≡ []) × (p.writeopen ≡ true) × (killed ≡ true) × (t.pipe ≡ p)
ReadSays killed p n t waiting =
    (contents p ≡ []) × (p.writeopen ≡ true) × (killed ≡ false) × (t.pipe ≡ p)

-- `piperead` of `n` bytes on a valid pipe takes the oldest bytes, `n` of them or all that there
-- are, leaves the rest in order in a valid pipe, and wakes the writers; on an empty pipe it returns
-- 0 only if no writer is left. An empty pipe with a writer it leaves as it is, and returns -1 if
-- the reader has been killed, and else sleeps.
pub piperead-ReadSays :
    (killed : Bool) (p : Pipe) (n : ℕ)
    → IsValid p
    → let t = piperead killed p n in ReadSays killed p n t t.end
unfolding piperead
piperead-ReadSays killed p n v = elim (Bool-cases (empty p && p.writeopen)) [
  | inl wait ↦ elim (Bool-cases killed) [
    | inl dead ↦ rw (piperead, wait, dead) (no_bytes (ground arith), ground arith, refl, refl)
    | inr alive ↦ rw (piperead, wait, alive) (no_bytes (ground arith), ground arith, refl, refl)
  ]
  | inr go ↦
      rw (piperead, go)
        (
          copy_out-CopySays p n v,
          refl,
          λ e. ground (arith, empty-length p v, ap (length {A = ℕ}) e),
        )
]
  where
    no_bytes : empty p ≡ true → contents p ≡ []
    no_bytes e = length-zero (contents p) (ground (arith, empty-length p v))
