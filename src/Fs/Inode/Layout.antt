-- ===== src/Fs/Inode/Layout.antt =====
-- The 64 bytes of an inode on the disk: what `iupdate` writes there, `ilock` reads back.
use t2_so.Base.{Bool-cases}
use t2_so.Base.{
  ℕ, zero, suc, ◌+◌, ◌*◌, ◌^◌, ◌≤◌, ◌<◌, ◌≡◌, ◌⊎◌, inl, inr, ◌∙◌, refl, arith, if◌then◌else◌, ltb,
  dec_lt, fun_ext,
}
use t2_so.Str.{Memory, store_word}
use t2_so.Kalloc.{load_word}
use t2_so.Kalloc.Words.{load_word-store_word, load_word-cong, store_word-other}
use t2_so.Fs.{ndirect}
use t2_so.Fs.Inode.{Dinode, load_short, store_short, store_words, put_dinode, get_dinode}

store_words-other :
    (m : Memory) (a : ℕ) (words : ℕ → ℕ) (n i : ℕ)
    → (i < a) ⊎ (a + 4 * n ≤ i)
    → store_words m a words n i ≡ m i
unfolding store_words
store_words-other m a words zero i away = refl
store_words-other m a words (suc n) i (inl lt) =
    store_word-other (store_words m a words n) (a + 4 * n) (words n) i (inl (omega arith))
    ∙ store_words-other m a words n i (inl lt)
store_words-other m a words (suc n) i (inr ge) =
    store_word-other (store_words m a words n) (a + 4 * n) (words n) i (inr (omega arith))
    ∙ store_words-other m a words n i (inr (omega arith))

load_word-store_words :
    (m : Memory) (a : ℕ) (words : ℕ → ℕ) (n j : ℕ)
    → ((k : ℕ) → words k < 2 ^ 32)
    → j < n
    → load_word (store_words m a words n) (a + 4 * j) ≡ words j
unfolding store_words
load_word-store_words m a words zero j fit lt = absurd (omega arith)
load_word-store_words m a words (suc n) j fit lt = elim (dec_lt j n) [
  | yes before ↦
      load_word-cong _ _ (a + 4 * j) (λ i lo hi.
        store_word-other (store_words m a words n) (a + 4 * n) (words n) i (inl (omega arith)))
      ∙ load_word-store_words m a words n j fit before
  | no last ↦
      let q : j ≡ n = omega arith in
      rw q (load_word-store_word (store_words m a words n) (a + 4 * n) (words n) (fit n))
]

-- The fields fit their widths, and there are 13 addresses.
pub record IsDinode (d : Dinode) : Type 0 where
  pub type : d.type < 2 ^ 16
  pub major : d.major < 2 ^ 16
  pub minor : d.minor < 2 ^ 16
  pub nlink : d.nlink < 2 ^ 16
  pub size : d.size < 2 ^ 32
  pub addrs : (k : ℕ) → d.addrs k < 2 ^ 32
  pub array : (k : ℕ) → ndirect < k → d.addrs k ≡ 0

-- the fields before the addresses
abbrev fields : Memory → ℕ → Dinode → Memory
fields m a d =
    let m₁ = store_short (store_short m a d.type) (a + 2) d.major in
    let m₂ = store_short (store_short m₁ (a + 4) d.minor) (a + 6) d.nlink in
    store_word m₂ (a + 8) d.size

fields_lem :
    (m : Memory) (a : ℕ) (d : Dinode)
    → IsDinode d
    → (load_short (fields m a d) a ≡ d.type)
      × (load_short (fields m a d) (a + 2) ≡ d.major)
      × (load_short (fields m a d) (a + 4) ≡ d.minor)
      × (load_short (fields m a d) (a + 6) ≡ d.nlink)
      × (load_word (fields m a d) (a + 8) ≡ d.size)
unfolding load_word
fields_lem m a d h = (
  ground (arith, h.type),
  ground (arith, h.major),
  ground (arith, h.minor),
  ground (arith, h.nlink),
  ground (arith, h.size),
)

fields-other :
    (m : Memory) (a : ℕ) (d : Dinode) (i : ℕ) → (i < a) ⊎ (a + 12 ≤ i) → fields m a d i ≡ m i
fields-other m a d i away = ground (arith, away)

-- no byte outside the inode changes
pub put_dinode-other :
    (m : Memory) (a : ℕ) (d : Dinode) (i : ℕ) → (i < a) ⊎ (a + 64 ≤ i) → put_dinode m a d i ≡ m i
unfolding put_dinode
put_dinode-other m a d i (inl lt) =
    store_words-other (fields m a d) (a + 12) d.addrs (ndirect + 1) i (inl (omega arith))
    ∙ fields-other m a d i (inl lt)
put_dinode-other m a d i (inr ge) =
    store_words-other (fields m a d) (a + 12) d.addrs (ndirect + 1) i (inr (omega arith))
    ∙ fields-other m a d i (inr (omega arith))

Dinode-ext :
    {d e : Dinode}
    → d.type ≡ e.type
    → d.major ≡ e.major
    → d.minor ≡ e.minor
    → d.nlink ≡ e.nlink
    → d.size ≡ e.size
    → d.addrs ≡ e.addrs
    → d ≡ e
Dinode-ext p q r s t u =
    λ i. record { type = p i; major = q i; minor = r i; nlink = s i; size = t i; addrs = u i }

ap_two : {a b c d : ℕ} → a ≡ b → c ≡ d → a + 256 * c ≡ b + 256 * d
ap_two p q = rw (p, q)

-- An inode that has been written is read back as it was.
pub get_dinode-put_dinode :
    (m : Memory) (a : ℕ) (d old : Dinode)
    → IsDinode d
    → IsDinode old
    → get_dinode (put_dinode m a d) a old ≡ d
unfolding put_dinode get_dinode
get_dinode-put_dinode m a d old h g =
    let (type, major, minor, nlink, size) = fields_lem m a d h in
    Dinode-ext (short a (omega arith) ∙ type) (short (a + 2) (omega arith) ∙ major)
      (short (a + 4) (omega arith) ∙ minor) (short (a + 6) (omega arith) ∙ nlink)
      (load_word-cong (fields m a d) (put_dinode m a d) (a + 8) (λ i lo hi.
          store_words-other (fields m a d) (a + 12) d.addrs (ndirect + 1) i (inl (omega arith)))
        ∙ size)
      (fun_ext addrs)
  where
    short : (b : ℕ) → b + 1 < a + 12 → load_short (put_dinode m a d) b ≡ load_short (fields m a d) b
    short b le =
        ap_two
          (store_words-other (fields m a d) (a + 12) d.addrs (ndirect + 1) b (inl (omega arith)))
          (store_words-other (fields m a d) (a + 12) d.addrs (ndirect + 1) (b + 1)
            (inl (omega arith)))

    addrs :
        (j : ℕ)
        → (if ltb j (ndirect + 1)
            then load_word (put_dinode m a d) (a + 12 + 4 * j)
            else old.addrs j)
          ≡ d.addrs j
    addrs j = ground (
      arith,
      load_word-store_words (fields m a d) (a + 12) d.addrs (ndirect + 1) j h.addrs,
      h.array j,
      g.array j,
    )

-- An inode reads the 64 bytes from its address on.
pub get_dinode-cong :
    (m m' : Memory) (a : ℕ) (old : Dinode)
    → ((i : ℕ) → a ≤ i → i < a + 64 → m' i ≡ m i)
    → get_dinode m' a old ≡ get_dinode m a old
unfolding get_dinode
get_dinode-cong m m' a old same =
    Dinode-ext
      (ap_two (same a (omega arith) (omega arith)) (same (a + 1) (omega arith) (omega arith)))
      (ap_two (same (a + 2) (omega arith) (omega arith))
        (same (a + 2 + 1) (omega arith) (omega arith)))
      (ap_two (same (a + 4) (omega arith) (omega arith))
        (same (a + 4 + 1) (omega arith) (omega arith)))
      (ap_two (same (a + 6) (omega arith) (omega arith))
        (same (a + 6 + 1) (omega arith) (omega arith)))
      (load_word-cong m m' (a + 8) (λ i lo hi. same i (omega arith) (omega arith)))
      (fun_ext λ j. addrs j)
  where
    addrs :
        (j : ℕ)
        → (if ltb j (ndirect + 1) then load_word m' (a + 12 + 4 * j) else old.addrs j)
          ≡ (if ltb j (ndirect + 1) then load_word m (a + 12 + 4 * j) else old.addrs j)
    addrs j = elim (Bool-cases (ltb j (ndirect + 1))) [
      | inl e ↦
          let lt : j < 13 = ground (arith, e) in
          rw e
            (load_word-cong m m' (a + 12 + 4 * j) (λ i lo hi. same i (omega arith) (omega arith)))
      | inr e ↦ rw e
    ]
