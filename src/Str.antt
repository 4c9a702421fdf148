-- ===== src/Str.antt =====
-- src/string.c. Memory is a family of bytes. `memset` and `memmove` work on one memory, since
-- their ranges may overlap; the functions on texts take each array as a family of its own, from
-- the pointer's offset 0 on. The caller keeps every range inside the 32-bit address space.
pub mod Mem
pub mod Copy
pub mod Compare
mod Tests
use Prim.Native.Char.{code}
use Prim.Native.String.{String}
use t2_so.Base.{List, [], ◌∷◌, get_or}
use t2_so.Base.{ℕ, zero, suc, ◌+◌, ◌-◌, ◌*◌, ◌/◌, ◌%◌, ◌^◌, Bool, true, false, not, ◌&&◌, ◌||◌}
use t2_so.Base.{◌==◌, if◌then◌else◌, ltb, leb, update, ℤ, pos, negsuc, sub_ℕ, Option, none, some}

abbrev pub Memory : Type 0
Memory = ℕ → ℕ

-- `rep stosb` (x86.h): `cnt` times the low byte of `b`
pub stosb : Memory → ℕ → ℕ → ℕ → Memory
stosb m addr b zero = m
stosb m addr b (suc cnt) = stosb (update m addr (b % 256)) (addr + 1) b cnt

-- a word, its low byte first
abbrev pub store_word : Memory → ℕ → ℕ → Memory
store_word m a w =
    update
      (update (update (update m a (w % 256)) (a + 1) (w / 256 % 256)) (a + 2) (w / 65536 % 256))
      (a + 3) (w / 16777216 % 256)

-- `rep stosl` (x86.h)
pub stosl : Memory → ℕ → ℕ → ℕ → Memory
stosl m addr w zero = m
stosl m addr w (suc cnt) = stosl (store_word m addr w) (addr + 4) w cnt

-- `c &= 0xFF; (c<<24)|(c<<16)|(c<<8)|c`: the four bytes share no bit
abbrev pub four_times : ℕ → ℕ
four_times c = c % 256 * 16777216 + c % 256 * 65536 + c % 256 * 256 + c % 256

unfoldable pub memset : Memory → ℕ → ℕ → ℕ → Memory
unfolding stosl stosb
memset m dst c n =
    if dst % 4 == 0 && n % 4 == 0 then stosl m dst (four_times c) (n / 4) else stosb m dst c n

-- `while(n-- > 0) *--d = *--s;`, with both pointers past the end
pub move_down : Memory → ℕ → ℕ → ℕ → Memory
move_down m d s zero = m
move_down m d s (suc n) = move_down (update m (d - 1) (m (s - 1))) (d - 1) (s - 1) n

-- `while(n-- > 0) *d++ = *s++;`
pub move_up : Memory → ℕ → ℕ → ℕ → Memory
move_up m d s zero = m
move_up m d s (suc n) = move_up (update m d (m s)) (d + 1) (s + 1) n

unfoldable pub memmove : Memory → ℕ → ℕ → ℕ → Memory
unfolding move_down move_up
memmove m dst src n =
    if ltb src dst && ltb dst (src + n)
    then move_down m (dst + n) (src + n) n
    else move_up m dst src n

-- `memcpy`, which calls `memmove`
unfoldable pub memcpy : Memory → ℕ → ℕ → ℕ → Memory
memcpy m dst src n = memmove m dst src n

-- the loop of `memcmp`, from offset `i` on with `n` bytes left
pub memcmp_from : Memory → Memory → ℕ → ℕ → ℤ
memcmp_from v1 v2 i zero = pos 0
memcmp_from v1 v2 i (suc n) =
    let rest = memcmp_from v1 v2 (i + 1) n in
    if not (v1 i == v2 i) then sub_ℕ (v1 i) (v2 i) else rest

unfoldable pub memcmp : Memory → Memory → ℕ → ℤ
unfolding memcmp_from
memcmp v1 v2 n = memcmp_from v1 v2 0 n

-- the loop of `strncmp` and what follows it
pub strncmp_from : Memory → Memory → ℕ → ℕ → ℤ
strncmp_from p q i zero = pos 0
strncmp_from p q i (suc n) =
    let rest = strncmp_from p q (i + 1) n in
    if not (p i == 0) && p i == q i then rest else sub_ℕ (p i) (q i)

unfoldable pub strncmp : Memory → Memory → ℕ → ℤ
unfolding strncmp_from
strncmp p q n = strncmp_from p q 0 n

-- the second loop of `strncpy`
pub zeros_from : Memory → ℕ → ℕ → Memory
zeros_from s i zero = s
zeros_from s i (suc n) = zeros_from (update s i 0) (i + 1) n

-- the first loop of `strncpy`, then the second
pub strncpy_from : Memory → Memory → ℕ → ℕ → Memory
strncpy_from s t i zero = s
strncpy_from s t i (suc n) =
    let s' = update s i (t i) in
    let more = strncpy_from s' t (i + 1) n in if t i == 0 then zeros_from s' (i + 1) n else more

unfoldable pub strncpy : Memory → Memory → ℤ → Memory
unfolding strncpy_from zeros_from
strncpy s t (pos n) = strncpy_from s t 0 n
strncpy s t (negsuc n) = s

-- the loop of `safestrcpy` and the final zero, with `n` counted as after `--n`
pub safestrcpy_from : Memory → Memory → ℕ → ℕ → Memory
safestrcpy_from s t i zero = update s i 0
safestrcpy_from s t i (suc n) =
    let s' = update s i (t i) in
    let more = safestrcpy_from s' t (i + 1) n in if t i == 0 then update s' (i + 1) 0 else more

unfoldable pub safestrcpy : Memory → Memory → ℤ → Memory
unfolding safestrcpy_from
safestrcpy s t (pos n) = if n == 0 then s else safestrcpy_from s t 0 (n - 1)
safestrcpy s t (negsuc n) = s

-- `for(n = 0; s[n]; n++)`; `none` means that the fuel ran out
pub strlen_from : Memory → ℕ → ℕ → Option ℕ
strlen_from s zero n = none
strlen_from s (suc fuel) n =
    let rest = strlen_from s fuel (n + 1) in if s n == 0 then some n else rest

unfoldable pub strlen : ℕ → Memory → Option ℕ
unfolding strlen_from
strlen fuel s = strlen_from s fuel 0

-- The bytes of a text literal, and zeros after it.
abbrev codes : String → List ℕ
codes String.[] = []
codes (String.◌∷◌ c s) = code c ∷ codes s

abbrev pub text : String → Memory
text s i = get_or (codes s) i 0
