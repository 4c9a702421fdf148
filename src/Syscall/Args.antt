-- ===== src/Syscall/Args.antt =====
-- That what the kernel takes from a process lies in the memory of the process.
use t2_so.Syscall.{string_at}
use t2_so.Syscall.{with_length}
use t2_so.Syscall.{block_at}
use t2_so.Base.{◌↔◌}
use t2_so.Base.{
  ℕ, zero, suc, ◌+◌, ◌-◌, ◌^◌, ◌≤◌, ◌<◌, ◌≡◌, ◌≢◌, inl, inr, ◌∙◌, refl, sym, ap, arith, true, false,
  ◌==◌, leb, Bool-cases, Option, none, some,
}
use t2_so.Str.{Memory}
use t2_so.Syscall.{Caller, scan, fetchstr, argint, bad_block, argptr, argstr}

-- The first zero from `s` on is `k` bytes away.
abbrev pub FirstZero : Memory → ℕ → ℕ → Type 0
FirstZero m s k = (m (s + k) ≡ 0) × ((i : ℕ) → i < k → m (s + i) ≢ 0)

FirstZero-suc : (m : Memory) (s k : ℕ) → m s ≢ 0 → FirstZero m (s + 1) k → FirstZero m s (k + 1)
FirstZero-suc m s k ne (z, before) = (rw shift z, earlier)
  where
    shift : s + (k + 1) ≡ s + 1 + k
    shift = omega arith

    earlier : (i : ℕ) → i < k + 1 → m (s + i) ≢ 0
    earlier zero lt = rw (zero_offset) ne
      where
        zero_offset : s + zero ≡ s
        zero_offset = omega arith
    earlier (suc i) lt =
        let q : s + suc i ≡ s + 1 + i = omega arith in rw q (before i (omega arith))

FirstZero-pred : (m : Memory) (s k : ℕ) → FirstZero m s (suc k) → FirstZero m (s + 1) k
FirstZero-pred m s k (z, before) =
    let shift : s + 1 + k ≡ s + suc k = omega arith in
    (
      rw shift z,
      λ i lt. let q : s + 1 + i ≡ s + suc i = omega arith in rw q (before (suc i) (omega arith)),
    )

scan_lem :
    (m : Memory) (left s n r : ℕ)
    → scan m left s n ≡ some r
    → (k : ℕ) × (r ≡ n + k) × (k < left) × FirstZero m s k
unfolding scan
scan_lem m zero s n r e = absurd (ground (arith, e))
scan_lem m (suc left) s n r e = elim (Bool-cases (m s == 0)) [
  | inl z ↦
      let q : n ≡ r = ground (arith, e, z) in
      let here : s + 0 ≡ s = omega arith in
      let zero_byte : m s ≡ 0 = ground (arith, z) in
      (0, omega arith, omega arith, (rw here zero_byte, λ i lt. absurd (omega arith)))
  | inr nz ↦
      let (k, a, b, c) = scan_lem m left (s + 1) (n + 1) r (ground (arith, e, nz)) in
      (k + 1, omega arith, omega arith, FirstZero-suc m s k (λ z. ground (arith, nz, z)) c)
]

scan-FirstZero :
    (m : Memory) (left s n k : ℕ) → k < left → FirstZero m s k → scan m left s n ≡ some (n + k)
unfolding scan
scan-FirstZero m zero s n k lt h = absurd (omega arith)
scan-FirstZero m (suc left) s n zero lt (z, _) =
    let here : s + zero ≡ s = omega arith in
    let zero_byte : m s ≡ 0 = ap m (sym here) ∙ z in
    let q : (m s == 0) ≡ true = ground (arith, zero_byte) in rw q (ground arith)
scan-FirstZero m (suc left) s n (suc k) lt h =
    let here : s + 0 ≡ s = omega arith in
    let byte : m s ≢ 0 = λ z. h.1 0 (omega arith) (ap m here ∙ z) in
    let q : (m s == 0) ≡ false = ground (arith, byte) in
    let later = scan-FirstZero m left (s + 1) (n + 1) k (omega arith) (FirstZero-pred m s k h) in
    rw q (later ∙ ground arith)

-- `fetchstr` returns the length of the string at an address, for exactly the strings whose final
-- zero lies in the memory of the process.
pub fetchstr-FirstZero :
    (c : Caller) (addr len : ℕ)
    → (fetchstr c addr ≡ some len) ↔ ((addr + len < c.sz) × FirstZero c.memory addr len)
unfolding fetchstr
fetchstr-FirstZero c addr len = elim (Bool-cases (leb c.sz addr)) [
  | inl e ↦ (λ h. absurd (ground (arith, e, rw e at h)), λ (lt, _). absurd (ground (arith, e, lt)))
  | inr e ↦ (
    λ h.
        let (k, a, b, z) = scan_lem c.memory (c.sz - addr) addr 0 len (rw e at h) in
        let same : len ≡ k = omega arith in (omega arith, rw same z),
    λ (lt, z).
        let plain : 0 + len ≡ len = omega arith in
        rw e (scan-FirstZero c.memory (c.sz - addr) addr 0 len (omega arith) z ∙ rw plain),
  )
]

-- Every block of a size that is not negative, and every string, that `argptr` and `argstr` accept
-- lies in the memory of the process, for a process of at most 2^31 bytes.
pub args-within :
    (c : Caller) (n p size len : ℕ)
    → c.sz ≤ 2147483648
    → size < 2147483648
    → (argptr c n size ≡ some p → (p < c.sz) × (p + size ≤ c.sz) × (argint c n ≡ some p))
      × (argstr c n ≡ some (p, len)
          → (p + len < c.sz) × FirstZero c.memory p len × (argint c n ≡ some p))
unfolding argptr argstr
args-within c n p size len small positive = (ptr (argint c n), str (argint c n))
  where
    ptr :
        (o : Option ℕ) → block_at c size o ≡ some p → (p < c.sz) × (p + size ≤ c.sz) × (o ≡ some p)
    ptr none e = cc
    ptr (some i) e = elim (Bool-cases (bad_block c i size)) [
      | inl bad ↦ let no : ◌≡◌ {A = Option ℕ} none (some p) = rw bad at e in cc
      | inr fine ↦
          let found : some i ≡ some p = rw fine at e in
          let same : i ≡ p = ground (arith, found) in
          rw same (ground (arith, fine, same), ground (arith, fine, same), refl)
    ]

    measured :
        (addr : ℕ) (l : Option ℕ) → with_length addr l ≡ some (p, len) → (addr ≡ p) × (l ≡ some len)
    measured addr none e = cc
    measured addr (some l) e =
        let both : ◌≡◌ {A = Option (ℕ × ℕ)} (some (addr, l)) (some (p, len)) = e in
        (ground (arith, both), ground (arith, both))

    str :
        (o : Option ℕ)
        → string_at c o ≡ some (p, len)
        → (p + len < c.sz) × FirstZero c.memory p len × (o ≡ some p)
    str none e = cc
    str (some addr) e =
        let (same, found) = measured addr (fetchstr c addr) e in
        let (lt, z) =
          (fetchstr-FirstZero c p len).0 (ap (λ (a : ℕ). fetchstr c a) (sym same) ∙ found) in
        (lt, z, ap some same)

-- For an argument that is an address in a process of at most 2^31 bytes, `argptr` takes the size
-- -k for any positive k up to the address: the sum wraps round.
pub argptr-negative :
    (c : Caller) (n p k : ℕ)
    → c.sz ≤ 2147483648
    → argint c n ≡ some p
    → p < c.sz
    → 0 < k
    → k ≤ p
    → argptr c n (2 ^ 32 - k) ≡ some p
unfolding argptr
argptr-negative c n p k small e lt lo hi =
    let fine : bad_block c p (2 ^ 32 - k) ≡ false = ground arith in
    ap (block_at c (2 ^ 32 - k)) e ∙ rw fine
