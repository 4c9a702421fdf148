-- ===== src/Proc/Sleep/Laws.antt =====
-- What `wakeup1` and `kill` do to each entry of the table.
use t2_so.Base.{ℕ, ◌<◌, ◌≡◌, arith, if◌then◌else◌, sweep_lem, ◌&&◌}
use t2_so.Proc.Table.{Proc, Chan, nproc, is_sleeping, same_chan, runnable}
use t2_so.Proc.Sleep.{awaken, wakeup1}

-- `wakeup1` makes runnable exactly the entries that sleep on the given channel, and changes
-- nothing else of them and nothing of the other entries.
pub wakeup1_lem :
    (chan : Chan) (procs : ℕ → Proc) (i : ℕ)
    → i < nproc
    → wakeup1 chan procs i ≡ (
        if is_sleeping (procs i).state && same_chan (procs i).chan chan
        then record (procs i) { state = runnable }
        else procs i)
unfolding wakeup1
wakeup1_lem chan procs i lt = ground (arith, sweep_lem (awaken chan) nproc procs i)
