-- ===== src/Fs/Itable.antt =====
-- kernel/fs.c: the table of inodes in memory. `itable.lock` makes each search and each change of a count
-- one step. The sleep lock of an inode is that of kernel/sleeplock.c, and its holder alone
-- reads and writes what is behind it; the steps of `ilock` and `iput` begin once they have it.
use os_prioritypipes.Prelude.{
  ℕ, zero, suc, ◌+◌, ◌-◌, Bool, true, false, ◌&&◌, not, Option, none, some, ltb, ◌==◌,
  if◌then◌else◌,
}
use os_prioritypipes.Prelude.Maps.{update}
use os_prioritypipes.Prelude.Results.{Result, ok, panic, ◌>>=◌, ◌>>◌, panic_if}
use os_prioritypipes.Fs.{Superblock, Blocks}
use os_prioritypipes.Fs.Inodes.{Dinode, itrunc}
use os_prioritypipes.Fs.Contents.{Disk, iupdate}
pub mod Getting
pub mod Putting
pub mod Allocating

-- NINODE
abbrev pub ninode : ℕ
ninode = 50

-- `struct inode`; `info` is its copy of the inode on the disk, the fields from `type` on.
pub record Inode : Type 0 where
  pub dev : ℕ
  pub inum : ℕ
  pub ref : ℕ
  pub valid : Bool
  pub info : Dinode

abbrev pub Table : Type 0
Table = ℕ → Inode

-- `ip->ref > 0 && ip->dev == dev && ip->inum == inum`
abbrev pub is_entry_of : ℕ → ℕ → Inode → Bool
is_entry_of dev inum ip = ltb 0 ip.ref && (ip.dev == dev) && (ip.inum == inum)

-- `if(empty == 0 && ip->ref == 0) empty = ip;`
abbrev pub remember : Option ℕ → ℕ → Inode → Option ℕ
remember (some e) i ip = some e
remember none i ip = if ip.ref == 0 then some i else none

abbrev pub recycle : ℕ → ℕ → Option ℕ → Table → Result (ℕ × Table)
recycle dev inum none t = panic
recycle dev inum (some e) t =
    ok (e, update t e (record (t e) { dev = dev; inum = inum; ref = 1; valid = false }))

unfoldable pub iget_from : ℕ → ℕ → Option ℕ → ℕ → ℕ → Table → Result (ℕ × Table)
iget_from zero i empty dev inum t = recycle dev inum empty t
iget_from (suc rounds) i empty dev inum t =
    let later = iget_from rounds (i + 1) (remember empty i (t i)) dev inum t in
    if is_entry_of dev inum (t i)
    then ok (i, update t i (record (t i) { ref = (t i).ref + 1 }))
    else later

-- An inode in memory is its index in `itable.inode`.
unfoldable pub iget : ℕ → ℕ → Table → Result (ℕ × Table)
iget dev inum t = iget_from ninode 0 none dev inum t

unfoldable pub idup : ℕ → Table → Table
idup i t = update t i (record (t i) { ref = (t i).ref + 1 })

-- The table and the disk.
pub record Inodes : Type 0 where
  pub table : Table
  pub disk : Disk

unfoldable pub ilock : ℕ → Inodes → Result Inodes
ilock i s =
    let ip = s.table i in
    let info = s.disk.inodes ip.inum in
    let read =
      panic_if (info.kind == 0)
      >> ok (record s { table = update s.table i (record ip { info = info; valid = true }) }) in
    panic_if (ltb ip.ref 1) >> (if ip.valid then ok s else read)

-- `struct stat`
pub record Stat : Type 0 where
  pub dev : ℕ
  pub ino : ℕ
  pub kind : ℕ
  pub nlink : ℕ
  pub size : ℕ

abbrev pub stati : Inode → Stat
stati ip = record {
  dev = ip.dev;
  ino = ip.inum;
  kind = ip.info.kind;
  nlink = ip.info.nlink;
  size = ip.info.size;
}

-- `ip->ref--;`, where the caller has a reference, so that the count is not 0
abbrev pub drop : ℕ → Inodes → Inodes
drop i s = record s { table = update s.table i (record (s.table i) { ref = (s.table i).ref - 1 }) }

-- `memset(dip, 0, sizeof(*dip)); dip->type = type;`
abbrev pub new_dinode : ℕ → Dinode
new_dinode kind = record { kind = kind; major = 0; minor = 0; nlink = 0; size = 0; addrs = λ i. 0 }

module _ (sb : Superblock) where
  -- `itrunc(ip); ip->type = 0; iupdate(ip); ip->valid = 0;`; `itrunc` ends in an `iupdate` of its own.
  abbrev pub free_inode : ℕ → Inodes → Result Inodes
  free_inode i s =
      let ip = s.table i in
      itrunc sb ip.info s.disk.blocks >>= λ (r : Dinode × Blocks).
      let info = record r.0 { kind = 0 } in
      let disk1 = iupdate ip.inum r.0 (record s.disk { blocks = r.1 }) in
      ok record {
        table = update s.table i (record ip { info = info; valid = false });
        disk = iupdate ip.inum info disk1;
      }

  unfoldable pub iput : ℕ → Inodes → Result Inodes
  iput i s =
      let ip = s.table i in
      (if (ip.ref == 1) && ip.valid && (ip.info.nlink == 0) then free_inode i s else ok s)
      >>= λ (s1 : Inodes). ok (drop i s1)

  -- The loop of `ialloc` from the number `inum` on.
  unfoldable pub ialloc_from : ℕ → ℕ → ℕ → ℕ → Inodes → Result (Option ℕ × Inodes)
  ialloc_from zero inum dev kind s = ok (none, s)
  ialloc_from (suc rounds) inum dev kind s =
      let later = ialloc_from rounds (inum + 1) dev kind s in
      let disk = record s.disk { inodes = update s.disk.inodes inum (new_dinode kind) } in
      let this = iget dev inum s.table >>= λ (r : ℕ × Table).
      ok (some r.0, record { table = r.1; disk = disk }) in
      if ltb inum sb.ninodes
      then (if (s.disk.inodes inum).kind == 0 then this else later)
      else ok (none, s)

  unfoldable pub ialloc : ℕ → ℕ → Inodes → Result (Option ℕ × Inodes)
  ialloc dev kind s = ialloc_from sb.ninodes 1 dev kind s
