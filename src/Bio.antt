-- ===== src/Bio.antt =====
-- src/bio.c: the buffers and their list, most recently used first. The buffers are numbered, and the
-- list's head, the buffer `head` of the code, is number `nbuf`.
pub mod Links
pub mod Release
pub mod Get
mod Tests
use t2_so.Base.{
  ℕ, zero, suc, ◌+◌, Bool, true, false, not, ◌&&◌, ◌==◌, if◌then◌else◌, Option, none, some, update,
}
use t2_so.Base.{Result, ok, panic, ◌>>=◌, ◌>>◌, panic_if}

abbrev pub nbuf : ℕ
nbuf = 10

-- `struct buf` without its data and links; `dev` is -1 if it has none
pub record Buf : Type 0 where
  pub dev : Option ℕ
  pub sector : ℕ
  pub busy : Bool
  pub valid : Bool
  pub dirty : Bool

-- `b->dev == dev && b->sector == sector`
abbrev pub is_dev : ℕ → Option ℕ → Bool
is_dev dev none = false
is_dev dev (some d) = d == dev

abbrev pub is_for : ℕ → ℕ → Buf → Bool
is_for dev sector b = is_dev dev b.dev && b.sector == sector

-- `bcache`
pub record Bcache : Type 0 where
  pub buf : ℕ → Buf
  pub next : ℕ → ℕ
  pub prev : ℕ → ℕ

-- `b->next->prev = b->prev; b->prev->next = b->next`
abbrev pub unlinked : ℕ → Bcache → Bcache
unlinked b c =
    let prev = update c.prev (c.next b) (c.prev b) in
    record c { prev = prev; next = update c.next (prev b) (c.next b) }

-- the four assignments that put `b` first
abbrev pub linked : ℕ → Bcache → Bcache
linked b c =
    let next = update c.next b (c.next nbuf) in
    let prev = update (update c.prev b nbuf) (next nbuf) b in
    record c { prev = prev; next = update next nbuf b }

unfoldable pub brelse : ℕ → Bcache → Result Bcache
brelse b c =
    panic_if (not (c.buf b).busy)
    >> (let c₁ = linked b (unlinked b c) in
        ok (record c₁ { buf = update c₁.buf b (record (c₁.buf b) { busy = false }) }))

-- how `bget` ends: with a buffer, asleep on one that another process has, or in a panic
pub data Gets : Type 0 where
  gets : ℕ → Bcache → Gets
  waits : ℕ → Gets
  no_buffers : Gets

-- the first loop of `bget`, on fuel, from buffer `b` on
unfoldable pub cached_from : ℕ → ℕ → ℕ → ℕ → Bcache → Option ℕ
cached_from zero dev sector b c = none
cached_from (suc fuel) dev sector b c =
    let rest = cached_from fuel dev sector (c.next b) c in
    if b == nbuf then none else if is_for dev sector (c.buf b) then some b else rest

-- the second loop, towards the front
unfoldable pub clean_from : ℕ → ℕ → Bcache → Option ℕ
clean_from zero b c = none
clean_from (suc fuel) b c =
    let rest = clean_from fuel (c.prev b) c in
    if b == nbuf then none else if not (c.buf b).busy && not (c.buf b).dirty then some b else rest

-- the buffer taken over for a sector
abbrev pub reused : ℕ → ℕ → Option ℕ → Bcache → Gets
reused dev sector none c = no_buffers
reused dev sector (some b) c = gets b (record c {
  buf =
      update c.buf b
        (record { dev = some dev; sector = sector; busy = true; valid = false; dirty = false });
})

-- a buffer that has the sector
abbrev pub hit : ℕ → Bcache → Gets
hit b c =
    if (c.buf b).busy
    then waits b
    else gets b (record c { buf = update c.buf b (record (c.buf b) { busy = true }) })

unfoldable pub bget : ℕ → ℕ → Bcache → Gets
bget dev sector c = elim (cached_from (nbuf + 1) dev sector (c.next nbuf) c) [
  | some b ↦ hit b c
  | none ↦ reused dev sector (clean_from (nbuf + 1) (c.prev nbuf) c) c
]

-- the loop of `binit`, with the buffers from `b` on to go
unfoldable pub link_from : ℕ → ℕ → Bcache → Bcache
link_from zero b c = c
link_from (suc left) b c =
    let c₁ = record c { buf = update c.buf b (record (c.buf b) { dev = none }) } in
    let next = update c₁.next b (c₁.next nbuf) in
    let prev = update (update c₁.prev b nbuf) (next nbuf) b in
    link_from left (b + 1) (record c₁ { prev = prev; next = update next nbuf b })

unfoldable pub binit : Bcache → Bcache
binit c =
    link_from nbuf 0 (record c { prev = update c.prev nbuf nbuf; next = update c.next nbuf nbuf })
