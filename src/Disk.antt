-- ===== src/Disk.antt =====
-- The blocks that src/bio.c caches, as its callers see them: `bread`, `bwrite` and the flag
-- B_DIRTY that keeps a block in the cache. A block is its 128 words. `power` counts the writes that
-- still reach the disk before the machine loses power; it is what a crash is modelled by.
pub mod Laws
use t2_so.Base.{ℕ, ◌-◌, Bool, true, false, Option, none, some, update, ◌==◌, if◌then◌else◌}

abbrev pub Block : Type 0
Block = ℕ → ℕ

pub record Bufs : Type 0 where
  pub disk : ℕ → Block
  pub power : ℕ
  pub cache : ℕ → Option Block
  pub dirty : ℕ → Bool

-- the contents of a block: the cached ones, if it is in the cache
unfoldable pub look : Bufs → ℕ → Block
look b s = elim (b.cache s) [ none ↦ b.disk s | some d ↦ d ]

-- `bread`: afterwards the block is in the cache
unfoldable pub bread : ℕ → Bufs → Bufs
unfolding look
bread s b = record b { cache = update b.cache s (some (look b s)) }

-- a change of the data of a cached block
unfoldable pub modify : ℕ → Block → Bufs → Bufs
modify s d b = record b { cache = update b.cache s (some d) }

-- `bwrite` of a block that is in the cache, through `iderw`, which clears B_DIRTY
unfoldable pub bwrite : ℕ → Bufs → Bufs
unfolding look
bwrite s b = record b {
  disk = if b.power == 0 then b.disk else update b.disk s (look b s);
  power = b.power - 1;
  dirty = update b.dirty s false;
}

-- `b->flags |= B_DIRTY`
unfoldable pub pin : ℕ → Bufs → Bufs
pin s b = record b { dirty = update b.dirty s true }

-- the machine after a crash, with a cache that is empty
unfoldable pub boot : (ℕ → Block) → ℕ → Bufs
boot disk power = record { disk = disk; power = power; cache = λ _. none; dirty = λ _. false }
