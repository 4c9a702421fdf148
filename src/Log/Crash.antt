-- ===== src/Log/Crash.antt =====
-- A system call's transaction from `commit_trans` through any number of crashes.
use t2_so.Base.{ℕ, ◌<◌, ◌≡◌, inl, inr, ◌∙◌, arith, List, [], ◌∷◌, ◌==◌, if◌then◌else◌, Bool-cases}
use t2_so.Disk.{Block}
use t2_so.Log.{Log, recover_from_log, commit_trans}
use t2_so.Log.Spec.{replay}
use t2_so.Log.Atomic.{StandsFor}
use t2_so.Log.Recovery.{booted, recover_from_log-StandsFor}
use t2_so.Log.Commit.{IsReady, commit_trans-atomic}

-- the disk after boots whose power allows the given numbers of writes
abbrev pub reboots : Log → List ℕ → (ℕ → Block) → ℕ → Block
reboots l [] d = d
reboots l (power ∷ later) d = reboots l later (recover_from_log (booted l d power)).bufs.disk

reboots-StandsFor :
    (l : Log) (powers : List ℕ) (d new : ℕ → Block)
    → StandsFor l.start d new
    → StandsFor l.start (reboots l powers d) new
reboots-StandsFor l [] d new h = h
reboots-StandsFor l (power ∷ later) d new h =
    let (stands, _) = recover_from_log-StandsFor l d power h.header in
    reboots-StandsFor l later _ new
      (record { header = stands.header; blocks = λ s home. stands.blocks s home ∙ h.blocks s home })

-- Take a log that is ready to be committed: its header on the disk is empty, each home lies below
-- the log, and the log blocks in the cache are those on the disk. The power is lost during
-- `commit_trans` and then during any number of recoveries. Once a recovery has power for all its
-- writes, the log is empty, and the blocks below the log are all as before the transaction, if
-- none of the commit's writes reached the disk, and otherwise all as the transaction leaves them.
pub crash-all_or_nothing :
    (l : Log) (powers : List ℕ) (last : ℕ)
    → IsReady l
    → let crashed = reboots l powers (commit_trans l).bufs.disk in
      crashed l.start 0 < last
      → let final = (recover_from_log (booted l crashed last)).bufs.disk in
        let new = replay l.start l.sector l.n 0 l.bufs.disk in
        (final l.start 0 ≡ 0)
        × ((s : ℕ) → s < l.start → final s ≡ (if l.bufs.power == 0 then l.bufs.disk s else new s))
crash-all_or_nothing l powers last h enough = elim (Bool-cases (l.bufs.power == 0)) [
  | inl e ↦
      let off : l.bufs.power ≡ 0 = ground (arith, e) in
      rw e (settled _ ((commit_trans-atomic l h).0 off))
  | inr e ↦
      let on : 0 < l.bufs.power = ground (arith, e) in
      rw e (settled _ ((commit_trans-atomic l h).1 on))
]
  where
    crashed : ℕ → Block
    crashed = reboots l powers (commit_trans l).bufs.disk

    settled :
        (new : ℕ → Block)
        → StandsFor l.start (commit_trans l).bufs.disk new
        → let final = (recover_from_log (booted l crashed last)).bufs.disk in
          (final l.start 0 ≡ 0) × ((s : ℕ) → s < l.start → final s ≡ new s)
    settled new h =
        let stands = reboots-StandsFor l powers _ new h in
        let (_, done) = recover_from_log-StandsFor l crashed last stands.header in
        let (z, b) = done enough in (z, λ s home. b s home ∙ stands.blocks s home)
