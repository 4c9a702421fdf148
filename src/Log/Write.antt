-- ===== src/Log/Write.antt =====
-- What `log_write` adds to a transaction.
use t2_so.Base.{◌↔◌}
use t2_so.Base.{Bool}
use t2_so.Base.{
  ℕ, ◌+◌, ◌≤◌, ◌<◌, ◌≡◌, ◌⊎◌, ◌∙◌, refl, arith, update, ◌==◌, ap, update_self, leb, not, ◌||◌, true,
  false, if◌then◌else◌,
}
use t2_so.Base.{ok, panic, ok-injective, subst}
use t2_so.Disk.{Block, Bufs, look, pin}
use t2_so.Log.{Log, logsize, log_write}
use t2_so.Log.Spec.{replay}
use t2_so.Log.Slots.{IsOpen}
use t2_so.Log.Append.{
  slot, appended, log_write-appended, appended-HomesBelow, appended-IsCoherent, appended_distinct,
  appended-fetch, appended-disk,
}

-- what `log_write` of `s` on `l` leaves
pub record LogWritten (l : Log) (s : ℕ) (l' : Log) : Type 0 where
  pub pinned : l'.bufs.dirty s ≡ true
  pub untouched : (x : ℕ) → x ≤ l.start → l'.bufs.disk x ≡ l.bufs.disk x
  pub still_open : 0 < l.bufs.power → IsOpen l'
  pub blocks :
      0 < l.bufs.power
      → (x : ℕ) → x < l.start
      → replay l'.start l'.sector l'.n 0 l'.bufs.disk x
        ≡ (if s == x then look l.bufs s else replay l.start l.sector l.n 0 l.bufs.disk x)

pin-dirty : (s : ℕ) (b : Bufs) → (pin s b).dirty s ≡ true
unfolding pin
pin-dirty s b = update_self b.dirty s true

appended-LogWritten : (l : Log) (s : ℕ) → IsOpen l → s < l.start → LogWritten l s (appended s l)
appended-LogWritten l s h home = record {
  pinned = pin-dirty s _;
  untouched = untouched;
  still_open = λ on. record {
    ready = record {
      empty = ap (λ (b : Block). b 0) (untouched l.start (omega arith)) ∙ h.ready.empty;
      below = appended-HomesBelow l h s home;
      coherent = appended-IsCoherent l h s home on;
    };
    distinct = appended_distinct l h s home;
  };
  blocks = appended-fetch l h s home;
}
  where
    kept :
        (x : ℕ)
        → x ≤ l.start
        → (if l.bufs.power == 0
              then l.bufs.disk
              else update l.bufs.disk (l.start + slot s l + 1) (look l.bufs s))
            x
          ≡ l.bufs.disk x
    kept x le = ground arith

    untouched : (x : ℕ) → x ≤ l.start → (appended s l).bufs.disk x ≡ l.bufs.disk x
    untouched x le = ap (λ (d : ℕ → Block). d x) (appended-disk l h s home) ∙ kept x le

-- Take an open log: one that is ready to be committed, with one slot for each block. `log_write`
-- of a block below the log panics exactly if the log is full or no transaction is active.
-- Otherwise the block is pinned in the cache, no block below the log and no header changes on the
-- disk, and with power the log stays open, and its transaction now gives this block its cached
-- data and each other block what it gave before.
pub log_write-LogWritten :
    (l : Log) (s : ℕ)
    → IsOpen l
    → s < l.start
    → ((log_write s l ≡ panic) ↔ ((logsize ≤ l.n) ⊎ (l.size ≤ l.n + 1) ⊎ (l.busy ≡ false)))
      × ((l' : Log) → log_write s l ≡ ok l' → LogWritten l s l')
log_write-LogWritten l s h home = rw (log_write-appended s l) (guarded _ refl)
  where
    full : Bool
    full = leb logsize l.n || leb l.size (l.n + 1) || not l.busy

    guarded :
        (b : Bool)
        → full ≡ b
        → (((if b then panic else ok (appended s l)) ≡ panic)
            ↔ ((logsize ≤ l.n) ⊎ (l.size ≤ l.n + 1) ⊎ (l.busy ≡ false)))
          × ((l' : Log) → (if b then panic else ok (appended s l)) ≡ ok l' → LogWritten l s l')
    guarded true e = ((λ _. ground (arith, e), λ _. refl), λ l' q. cc)
    guarded false e = (
      (λ q. cc, λ q. absurd (ground (arith, e, q))),
      λ l' q. subst (LogWritten l s) (ok-injective q) (appended-LogWritten l s h home),
    )
