-- ===== src/Log/Tests.antt =====
-- Runs of kernel/log.c, and its theorems at concrete inputs.
use os_prioritypipes.Prelude.{
  ℕ, ◌+◌, ◌≤◌, ◌<◌, ◌≡◌, refl, false, [], ◌∷◌, arith, ◌==◌, if◌then◌else◌, take,
}
use os_prioritypipes.Prelude.Maps.{apply}
use os_prioritypipes.Prelude.Loops.{rounds}
use os_prioritypipes.Prelude.Results.{Returns}
use os_prioritypipes.Log.{Block, Log, Disk, install_trans, write_log, write_head, commit, log_write}
use os_prioritypipes.Log.Commit.{IsHome, IsApart}
use os_prioritypipes.Log.Recover.{Committed}
use os_prioritypipes.Log.Points.{recovered, Installed}
use os_prioritypipes.Log.Crash.{commit_crash}
use os_prioritypipes.Log.Reserve.{Reserved}
use os_prioritypipes.Log.Absorb.{Logs, log_write-Reserved}

-- a transaction of the blocks 40 and 50, with the log at block 2
abbrev two_blocks : Log
two_blocks = record {
  start = 2;
  size = 31;
  outstanding = 1;
  committing = false;
  n = 2;
  block = λ i. if i == 0 then 40 else 50;
}

-- Each block on the disk holds zeros; the cache holds ones.
abbrev dirty : Disk
dirty = record { disk = λ b w. 0; view = λ b w. 1; pins = λ b. 0; writes = [] }

two_blocks-IsApart : IsApart two_blocks
two_blocks-IsApart i lt j le e = ground arith

commit_runs : (commit two_blocks dirty).1.disk 50 7 ≡ 1
unfolding commit write_log write_head install_trans rounds
commit_runs = refl

commit_crash_example :
    let after =
      recovered two_blocks 31 (apply (take 3 (commit two_blocks dirty).1.writes) dirty.disk) in
    (3 ≤ 2 → (b : ℕ) → IsHome two_blocks b → after b ≡ dirty.disk b)
    × (2 < 3 → Installed two_blocks dirty.disk dirty.view after)
commit_crash_example = commit_crash two_blocks dirty two_blocks-IsApart (omega arith) refl 31 3 refl

-- the disk after the header of that transaction is written
abbrev crashed : ℕ → Block
crashed b w =
    if b == 2
    then (if w == 0 then 2 else if w == 1 then 40 else 50)
    else if b == 3
    then 7
    else if b == 4
    then 8
    else 0

crashed-Committed : Committed two_blocks (λ b w. if b == 40 then 7 else 8) crashed
crashed-Committed = record {
  count = refl;
  blocks = λ i lt. ground arith;
  slots = λ i lt. slot_at i lt;
}
  where
    slot_at :
        (i : ℕ)
        → i < 2
        → ◌≡◌ {A = Block} (crashed (2 + i + 1)) (λ w. if two_blocks.block i == 40 then 7 else 8)
    slot_at i lt = ground arith

-- one operation in progress, which has eight blocks left
two_blocks-Reserved : Reserved two_blocks (8 ∷ [])
two_blocks-Reserved = record {
  count = refl;
  each = omega arith;
  room = omega arith;
  idle = refl;
  distinct = λ i j lt hi. ground arith;
}

log_write-Reserved_example :
    Returns (λ s. Reserved s.0 (7 ∷ []) × Logs s.0 60) (log_write 60 two_blocks dirty)
log_write-Reserved_example =
    log_write-Reserved 60 two_blocks dirty (8 ∷ []) two_blocks-Reserved 0 7 refl (omega arith)

-- 29 blocks in a log as mkfs makes it, and one block left
abbrev nearly_full : Log
nearly_full = record {
  start = 2;
  size = 30;
  outstanding = 1;
  committing = false;
  n = 29;
  block = λ i. i + 100;
}

nearly_full-Reserved : Reserved nearly_full (1 ∷ [])
nearly_full-Reserved = record {
  count = refl;
  each = omega arith;
  room = omega arith;
  idle = refl;
  distinct = λ i j lt hi e. omega arith;
}
