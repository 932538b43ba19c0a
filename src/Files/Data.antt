-- ===== src/Files/Data.antt =====
-- kernel/file.c: `fileread` and `filewrite` of a file that is an inode, while they hold the lock of the inode;
-- begin_op and end_op are those of Log, and a count is not negative. Neither `f->off` nor the count wraps: `writei` refuses to pass the largest size of a file.
use os_prioritypipes.Prelude.{
  ℕ, zero, suc, ◌+◌, ◌-◌, ◌/◌, ◌%◌, Bool, true, false, Option, none, some, ltb, ◌==◌, if◌then◌else◌,
}
use os_prioritypipes.Prelude.Results.{Result, ok, ◌>>=◌}
use os_prioritypipes.Fs.{Superblock, Blocks}
use os_prioritypipes.Fs.Inodes.{Dinode}
use os_prioritypipes.Fs.Contents.{Memory, Disk, BytesRead, min, readi, writei}
pub mod Chunks
mod Tests

-- `((MAXOPBLOCKS - 1 - 1 - 2) / 2) * BSIZE`
abbrev pub max_chunk : ℕ
max_chunk = 3072

-- The offset of the file, with the inode and the disk.
pub record Place : Type 0 where
  pub off : ℕ
  pub ip : Dinode
  pub disk : Disk

abbrev pub advance : Place → BytesRead → Option ℕ × Place × (ℕ → ℕ)
advance p (none, ip, d, to) = (none, record p { ip = ip; disk = record p.disk { blocks = d } }, to)
advance p (some r, ip, d, to) =
    (some r, record { off = p.off + r; ip = ip; disk = record p.disk { blocks = d } }, to)

-- A round of the loop of `filewrite`, after its `writei`; `more` is the loop's next round.
abbrev pub next_chunk :
    (ℕ → Place → Result (Option (ℕ × Place)))
    → ℕ
    → Place
    → Option ℕ × Dinode × Disk
    → Result (Option (ℕ × Place))
next_chunk more i p (none, ip, disk) = ok (some (i, record p { ip = ip; disk = disk }))
next_chunk more i p (some r, ip, disk) =
    more (i + r) record { off = p.off + r; ip = ip; disk = disk }

abbrev pub chunks_result : ℕ → Option (ℕ × Place) → Option (Option ℕ × Place)
chunks_result n none = none
chunks_result n (some (i, p)) = some (if i == n then some n else none, p)

-- `f->writable & O_APPEND`, where O_APPEND is 0x400
abbrev pub appends : ℕ → Bool
appends writable = writable / 1024 % 2 == 1

-- `if (f->writable & O_APPEND) f->off = f->ip->size;`
abbrev pub start_at : ℕ → Place → Place
start_at writable p = if appends writable then record p { off = p.ip.size } else p

module _ (sb : Superblock) where
  -- `fileread` of an inode, with the memory that it leaves; none as the result is -1.
  abbrev pub read_inode : Memory → Bool → ℕ → ℕ → Place → Result (Option ℕ × Place × (ℕ → ℕ))
  read_inode mem readable addr n p =
      let read =
        readi sb mem addr p.off n p.ip p.disk.blocks >>= λ (r : BytesRead). ok (advance p r) in
      if readable then read else ok (none, p, mem.byte)

  -- The loop of `filewrite`, with the bytes written; none if it has not ended after the rounds.
  unfoldable pub write_chunks : Memory → ℕ → ℕ → ℕ → ℕ → ℕ → Place → Result (Option (ℕ × Place))
  write_chunks mem inum addr n zero i p = ok none
  write_chunks mem inum addr n (suc rounds) i p =
      let more = write_chunks mem inum addr n rounds in
      let round =
        writei sb mem inum (addr + i) p.off (min (n - i) max_chunk) p.ip p.disk
        >>= next_chunk more i p in
      if ltb i n then round else ok (some (i, p))

  -- `filewrite` of an inode, where `writable` is the field of the file; none as the second `Option` is -1.
  abbrev pub write_inode : Memory → ℕ → ℕ → ℕ → ℕ → ℕ → Place → Result (Option (Option ℕ × Place))
  write_inode mem writable inum addr n rounds p =
      let chunks =
        write_chunks mem inum addr n rounds 0 (start_at writable p) >>= λ (r : Option (ℕ × Place)).
        ok (chunks_result n r) in
      if writable == 0 then ok (some (none, p)) else chunks
