-- ===== src/Log.antt =====
-- kernel/log.c: the redo log of the file system. A block is 256 words of four bytes. `view b` is
-- what the buffer cache gives for block `b`, and `disk b` what is on the disk; `bwrite` brings the
-- disk up to the view, and the writes are recorded in order, since a crash may fall between any
-- two. A block that the log has pinned stays in the cache, so its view outlives `brelse`.
use os_prioritypipes.Prelude.{
  ℕ, zero, suc, ◌+◌, ◌-◌, ◌*◌, Bool, true, false, ◌||◌, List, [], ◌∷◌, ◌++◌, ltb, leb, ◌==◌,
  if◌then◌else◌,
}
use os_prioritypipes.Prelude.Loops.{rounds}
use os_prioritypipes.Prelude.Maps.{update}
use os_prioritypipes.Prelude.Results.{Result, ok, panic, ◌>>=◌, ◌>>◌, panic_if}
pub mod Copy
pub mod Head
pub mod Commit
pub mod Writes
pub mod Recover
pub mod Points
pub mod Crash
pub mod Reserve
pub mod Absorb
mod Tests

-- MAXOPBLOCKS and LOGSIZE of kernel/param.h
abbrev pub max_op_blocks : ℕ
max_op_blocks = 10

abbrev pub log_size : ℕ
log_size = max_op_blocks * 3

abbrev pub Block : Type 0
Block = ℕ → ℕ

-- `struct log` less its lock and device, with `struct logheader` as `n` and `block`
pub record Log : Type 0 where
  pub start : ℕ
  pub size : ℕ
  pub outstanding : ℕ
  pub committing : Bool
  pub n : ℕ
  pub block : ℕ → ℕ

-- The disk behind its cache. `pins` counts the references that `bpin` has added to a buffer.
pub record Disk : Type 0 where
  pub disk : ℕ → Block
  pub view : ℕ → Block
  pub pins : ℕ → ℕ
  pub writes : List (ℕ × Block)

abbrev pub fill : ℕ → Block → Disk → Disk
fill b x d = record d { view = update d.view b x }

abbrev pub bwrite : ℕ → Disk → Disk
bwrite b d = record d { disk = update d.disk b (d.view b); writes = d.writes ++ (b, d.view b) ∷ [] }

abbrev pub bpin : ℕ → Disk → Disk
bpin b d = record d { pins = update d.pins b (d.pins b + 1) }

abbrev pub bunpin : ℕ → Disk → Disk
bunpin b d = record d { pins = update d.pins b (d.pins b - 1) }

-- `install_trans`, from the log blocks to their home locations
unfoldable pub install_trans : Bool → Log → Disk → Disk
install_trans recovering log =
    rounds
      (λ tail d.
        let dst = log.block tail in
        let d1 = bwrite dst (fill dst (d.view (log.start + tail + 1)) d) in
        if recovering then d1 else bunpin dst d1)
      log.n 0

-- The words of the header block are `n`, then `block`.
unfoldable pub read_head : Log → Disk → Log
read_head log d =
    let head = d.view log.start in
    record log {
      n = head 0;
      block = rounds (λ i block. update block i (head (i + 1))) (head 0) 0 log.block;
    }

unfoldable pub head_words : Log → Block → Block
head_words log old =
    rounds (λ i words. update words (i + 1) (log.block i)) log.n 0 (update old 0 log.n)

unfoldable pub write_head : Log → Disk → Disk
unfolding head_words
write_head log d = bwrite log.start (fill log.start (head_words log (d.view log.start)) d)

unfoldable pub recover_from_log : Log → Disk → Log × Disk
recover_from_log log d =
    let log1 = read_head log d in
    let d1 = install_trans true log1 d in
    let log2 = record log1 { n = 0 } in (log2, write_head log2 d1)

-- `initlog`: `log` is a zeroed static variable.
unfoldable pub initlog : ℕ → ℕ → Disk → Log × Disk
unfolding recover_from_log
initlog logstart nlog d =
    recover_from_log
      (record {
        start = logstart;
        size = nlog;
        outstanding = 0;
        committing = false;
        n = 0;
        block = λ i. 0;
      })
      d

-- `write_log`, from the cache to the log blocks
unfoldable pub write_log : Log → Disk → Disk
write_log log =
    rounds
      (λ tail d. let to = log.start + tail + 1 in bwrite to (fill to (d.view (log.block tail)) d))
      log.n 0

unfoldable pub commit : Log → Disk → Log × Disk
commit log d =
    let d1 = write_log log d in
    let d2 = write_head log d1 in
    let d3 = install_trans false log d2 in
    let log1 = record log { n = 0 } in if ltb 0 log.n then (log1, write_head log1 d3) else (log, d)

-- A pass of the loop of `begin_op`: none if the caller has to sleep and try again.
pub data Begin : Type 0 where
  sleeps : Begin
  begins : Log → Begin

unfoldable pub begin_op : Log → Begin
begin_op log =
    if log.committing
    then sleeps
    else if ltb log_size (log.n + (log.outstanding + 1) * max_op_blocks)
    then sleeps
    else begins (record log { outstanding = log.outstanding + 1 })

-- `end_op`. An `outstanding` of 0 would become -1 in the code; no caller ends an operation that
-- it has not begun. The commit runs without the lock, but with `committing` set.
unfoldable pub end_op : Log → Disk → Result (Log × Disk)
end_op log d = do
  let log1 = record log { outstanding = log.outstanding - 1 }
  panic_if log.committing
  let (log2, d2) = commit (record log1 { committing = true }) d
  if log1.outstanding == 0 then ok (record log2 { committing = false }, d2) else ok (log1, d)

-- The first index from `i` on that holds the block, or `i + k`.
unfoldable pub find_block : ℕ → (ℕ → ℕ) → ℕ → ℕ → ℕ
find_block zero block b i = i
find_block (suc k) block b i =
    let later = find_block k block b (i + 1) in if block i == b then i else later

unfoldable pub log_write : ℕ → Log → Disk → Result (Log × Disk)
log_write b log d = do
  panic_if (leb log_size log.n || leb (log.size - 1) log.n)
  panic_if (ltb log.outstanding 1)
  let i = find_block log.n log.block b 0
  let log1 = record log { block = update log.block i b }
  if i == log.n then ok (record log1 { n = log.n + 1 }, bpin b d) else ok (log1, d)
