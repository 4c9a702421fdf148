-- ===== src/Str/Mem.antt =====
-- `memset`, `memmove` and `memcpy` of src/string.c, against what they leave at each address.
use t2_so.Base.{
  ap, ℕ, zero, suc, ◌+◌, ◌-◌, ◌*◌, ◌/◌, ◌%◌, ◌≤◌, ◌≡◌, ◌∙◌, arith, Bool-cases, inl, inr,
}
use t2_so.Base.{◌<◌, Bool, ◌&&◌, ◌==◌, if◌then◌else◌, ltb, leb, update}
use t2_so.Str.{Memory, stosb, store_word, stosl, four_times, memset, move_down, move_up, memmove}
use t2_so.Str.{memcpy}

-- `a` lies in the `n` bytes from `from` on
abbrev pub within : ℕ → ℕ → ℕ → Bool
within from n a = leb from a && ltb a (from + n)

stosb-within :
    (m : Memory) (addr b n a : ℕ) → stosb m addr b n a ≡ (if within addr n a then b % 256 else m a)
unfolding stosb
stosb-within m addr b zero a = ground arith
stosb-within m addr b (suc n) a =
    ground (arith, stosb-within (update m addr (b % 256)) (addr + 1) b n a)

store_word-four_times :
    (m : Memory) (addr c a : ℕ)
    → store_word m addr (four_times c) a ≡ (if within addr 4 a then c % 256 else m a)
store_word-four_times m addr c a = ground arith

stosl-within :
    (m : Memory) (addr c n a : ℕ)
    → stosl m addr (four_times c) n a ≡ (if within addr (4 * n) a then c % 256 else m a)
unfolding stosl
stosl-within m addr c zero a = ground arith
stosl-within m addr c (suc n) a =
    stosl-within (store_word m addr (four_times c)) (addr + 4) c n a
    ∙ ground (arith, store_word-four_times m addr c a)

-- Whichever of its two loops runs, `memset` leaves the low byte of `c` at the `n` addresses from
-- `dst` on, and every other byte as it was.
pub memset-within :
    (m : Memory) (dst c n a : ℕ) → memset m dst c n a ≡ (if within dst n a then c % 256 else m a)
unfolding memset
memset-within m dst c n a = elim (Bool-cases (dst % 4 == 0 && n % 4 == 0)) [
  | inl e ↦ let q : 4 * (n / 4) ≡ n = ground arith in rw e (stosl-within m dst c (n / 4) a ∙ rw q)
  | inr e ↦ rw e (stosb-within m dst c n a)
]

move_up-within :
    (m : Memory) (d s n a : ℕ)
    → (s < d → s + n ≤ d)
    → move_up m d s n a ≡ (if within d n a then m (s + (a - d)) else m a)
unfolding move_up
move_up-within m d s zero a apart = ground arith
move_up-within m d s (suc n) a apart =
    move_up-within (update m d (m s)) (d + 1) (s + 1) n a (omega arith) ∙ ground arith

move_down-suc :
    (m : Memory) (d s n : ℕ)
    → move_down m (d + suc n) (s + suc n) (suc n)
      ≡ move_down (update m (d + n) (m (s + n))) (d + n) (s + n) n
unfolding move_down
move_down-suc m d s n =
    let e : d + suc n - 1 ≡ d + n = omega arith in
    let f : s + suc n - 1 ≡ s + n = omega arith in rw (e, f)

-- one byte more, above the others
within-suc :
    (m : Memory) (d s n a : ℕ)
    → s < d
    → (if within d n a
        then update m (d + n) (m (s + n)) (s + (a - d))
        else update m (d + n) (m (s + n)) a)
      ≡ (if within d (suc n) a then m (s + (a - d)) else m a)
within-suc m d s n a apart = ground arith

-- Going down, the bytes still to be read lie below those written.
move_down-within :
    (m : Memory) (d s n a : ℕ)
    → s < d
    → move_down m (d + n) (s + n) n a ≡ (if within d n a then m (s + (a - d)) else m a)
move_down-within m d s zero a apart = unfold move_down in ground arith
move_down-within m d s (suc n) a apart =
    ap (λ (f : Memory). f a) (move_down-suc m d s n)
    ∙ (move_down-within (update m (d + n) (m (s + n))) d s n a apart ∙ within-suc m d s n a apart)

-- For ranges that may overlap either way, `memmove` leaves at the `n` addresses from `dst` on the
-- bytes that stood at the `n` addresses from `src` on before the call, and every other byte as it
-- was.
pub memmove-within :
    (m : Memory) (dst src n a : ℕ)
    → memmove m dst src n a ≡ (if within dst n a then m (src + (a - dst)) else m a)
unfolding memmove
memmove-within m dst src n a = elim (Bool-cases (ltb src dst && ltb dst (src + n))) [
  | inl e ↦ rw e (move_down-within m dst src n a (ground arith))
  | inr e ↦ rw e (move_up-within m dst src n a (ground arith))
]

memcpy-within :
    (m : Memory) (dst src n a : ℕ)
    → memcpy m dst src n a ≡ (if within dst n a then m (src + (a - dst)) else m a)
unfolding memcpy
memcpy-within = memmove-within
