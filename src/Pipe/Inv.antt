-- ===== src/Pipe/Inv.antt =====
-- What a pipe holds, and that `put` and `drop_one` add and take at its ends.
use t2_so.Base.{
  ℕ, zero, suc, ◌+◌, ◌-◌, ◌%◌, ◌^◌, ◌≤◌, ◌<◌, ◌≡◌, refl, Bool, true, false, arith, ap, ◌∙◌,
}
use t2_so.Base.{List, [], ◌∷◌, ◌++◌, length, ◌==◌, update, update_ne, update_self}
use t2_so.Pipe.{pipeclose, Pipe, pipesize, full, empty, put, got, drop_one, opened}

-- the number of bytes held: the counters' difference, modulo 2^32
abbrev pub pending : Pipe → ℕ
pending p = (p.nwrite + 2 ^ 32 - p.nread) % 2 ^ 32

pub bytes_from : (ℕ → ℕ) → ℕ → ℕ → List ℕ
bytes_from bytes r zero = []
bytes_from bytes r (suc k) = bytes (r % pipesize) ∷ bytes_from bytes ((r + 1) % 2 ^ 32) k

-- the bytes held, oldest first
pub contents : Pipe → List ℕ
contents p = bytes_from p.bytes p.nread (pending p)

pub record IsValid (p : Pipe) : Type 0 where
  pub read_small : p.nread < 2 ^ 32
  pub write_small : p.nwrite < 2 ^ 32
  pub fits : pending p ≤ pipesize

length-bytes_from : (bytes : ℕ → ℕ) (r k : ℕ) → length (bytes_from bytes r k) ≡ k
unfolding bytes_from
length-bytes_from bytes r zero = refl
length-bytes_from bytes r (suc k) = ap suc (length-bytes_from bytes ((r + 1) % 2 ^ 32) k)

pub length-contents : (p : Pipe) → length (contents p) ≡ pending p
unfolding contents
length-contents p = length-bytes_from p.bytes p.nread (pending p)

-- a byte written past the `k` held ones leaves them as they were
bytes_from-update :
    (bytes : ℕ → ℕ) (r k x b d : ℕ)
    → k + d < pipesize
    → x ≡ (r + k + d) % pipesize
    → bytes_from (update bytes x b) r k ≡ bytes_from bytes r k
unfolding bytes_from
bytes_from-update bytes r zero x b d lt at = refl
bytes_from-update bytes r (suc k) x b d lt at =
    let rest = bytes_from-update bytes ((r + 1) % 2 ^ 32) k x b d (omega arith) (omega arith) in
    let same : update bytes x b (r % pipesize) ≡ bytes (r % pipesize) =
      update_ne bytes x (r % pipesize) b (omega arith) in
    rw (rest, same)

-- one byte more, at the end
bytes_from-suc :
    (bytes : ℕ → ℕ) (r k : ℕ)
    → bytes_from bytes r (suc k) ≡ bytes_from bytes r k ++ bytes ((r + k) % pipesize) ∷ []
unfolding bytes_from
bytes_from-suc bytes r zero = ap (λ (i : ℕ). bytes i ∷ []) (omega arith)
bytes_from-suc bytes r (suc k) =
    let e : ((r + 1) % 2 ^ 32 + k) % pipesize ≡ (r + suc k) % pipesize = omega arith in
    ap (λ (l : List ℕ). bytes (r % pipesize) ∷ l) (bytes_from-suc bytes ((r + 1) % 2 ^ 32) k ∙ rw e)

pub put-IsValid : (p : Pipe) (b : ℕ) → full p ≡ false → IsValid p → IsValid (put p b)
unfolding put
put-IsValid p b h v = ground (arith, v.fits)

pub drop_one-IsValid : (p : Pipe) → empty p ≡ false → IsValid p → IsValid (drop_one p)
unfolding drop_one
drop_one-IsValid p h v = ground (arith, v.fits)

pub contents-put :
    (p : Pipe) (b : ℕ) → full p ≡ false → IsValid p → contents (put p b) ≡ contents p ++ b ∷ []
unfolding contents
contents-put p b h v =
    let x = p.nwrite % pipesize in
    let more : pending (put p b) ≡ suc (pending p) = unfold put in ground (arith, v.fits) in
    let at : (p.nread + pending p) % pipesize ≡ x = ground (arith, v.fits) in
    let room : pending p + 0 < pipesize = ground (arith, v.fits) in
    let written : contents (put p b) ≡ bytes_from (update p.bytes x b) p.nread (suc (pending p)) =
      unfold put in ap (bytes_from (update p.bytes x b) p.nread) more in
    written
    ∙ rw (
      bytes_from-suc (update p.bytes x b) p.nread (pending p),
      bytes_from-update p.bytes p.nread (pending p) x b 0 room (omega arith),
      at,
      update_self p.bytes x b,
    )

pub contents-drop_one :
    (p : Pipe) → empty p ≡ false → IsValid p → contents p ≡ got p ∷ contents (drop_one p)
unfolding drop_one contents got
contents-drop_one p h v =
    let e : pending p ≡ suc (pending (drop_one p)) = unfold drop_one in ground (arith, v.fits) in
    rw e (unfold bytes_from in refl)

-- the tests of `pipe.c`, as what they say of the contents
pub full-length : (p : Pipe) → IsValid p → full p ≡ (length (contents p) == pipesize)
full-length p v = ground (arith, length-contents p, v.fits)

pub empty-length : (p : Pipe) → IsValid p → empty p ≡ (length (contents p) == 0)
empty-length p v = ground (arith, length-contents p, v.fits)

pub opened-IsValid : (junk : ℕ → ℕ) → IsValid (opened junk) × (contents (opened junk) ≡ [])
unfolding opened contents bytes_from
opened-IsValid junk = (omega arith, refl)

pub pipeclose-contents :
    (p : Pipe) (writable : Bool)
    → IsValid p
    → IsValid (pipeclose p writable).0 × (contents (pipeclose p writable).0 ≡ contents p)
unfolding pipeclose contents
pipeclose-contents p true v = (omega arith, refl)
pipeclose-contents p false v = (omega arith, refl)
