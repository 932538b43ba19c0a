-- ===== src/Fs/Contents.antt =====
-- kernel/fs.c: `readi` and `writei`, which copy between a file and memory block by block.
use os_prioritypipes.Prelude.{
  ℕ, zero, suc, ◌+◌, ◌-◌, ◌*◌, ◌/◌, ◌%◌, Bool, true, false, ◌&&◌, ◌||◌, Option, none, some, ltb,
  leb, ◌==◌, if◌then◌else◌,
}
use os_prioritypipes.Prelude.Maps.{update}
use os_prioritypipes.Prelude.Results.{Result, ok, ◌>>=◌}
use os_prioritypipes.Fs.{Superblock, Blocks, bsize}
use os_prioritypipes.Fs.Inodes.{Dinode, bmap}
pub mod Bytes
pub mod Copying
pub mod WriteRounds
pub mod Rounds
pub mod Writing
pub mod ReadRounds
pub mod Reads
pub mod Reading
pub mod Filled
pub mod RoundTrip

-- What `either_copyin` and `either_copyout` find. `copied a m` is how many of `m` bytes from `a` on get
-- copied before a page is found that the process may not use; it is `m` if there is none.
pub record Memory : Type 0 where
  pub byte : ℕ → ℕ
  pub copied : ℕ → ℕ → ℕ

-- What is on the disk. The blocks of inodes are the table `inodes`.
pub record Disk : Type 0 where
  pub blocks : Blocks
  pub inodes : ℕ → Dinode

-- MAXFILE*BSIZE
abbrev pub max_size : ℕ
max_size = 274432

-- the macro `min`
abbrev pub min : ℕ → ℕ → ℕ
min a b = if ltb a b then a else b

-- `iupdate` of the inode `inum`
abbrev pub iupdate : ℕ → Dinode → Disk → Disk
iupdate inum ip disk = record disk { inodes = update disk.inodes inum ip }

-- The bytes `to`, after `m` bytes from `source` on have been copied to the place `at`.
abbrev pub copy : ℕ → (ℕ → ℕ) → ℕ → ℕ → (ℕ → ℕ) → ℕ → ℕ
copy m to at source from =
    λ (i : ℕ). if leb at i && ltb i (at + m) then from (source + (i - at)) else to i

-- `off > ip->size || off + n < off`
abbrev pub is_outside : ℕ → ℕ → Dinode → Bool
is_outside off n ip = ltb ip.size off || ltb ((off + n) % 4294967296) off

-- `tot` and `off` after the loop
abbrev pub Written : Type 0
Written = ℕ × ℕ × Dinode × Blocks

abbrev pub BytesRead : Type 0
BytesRead = Option ℕ × Dinode × Blocks × (ℕ → ℕ)

module _ (sb : Superblock) where
  -- A round of the loop of `writei` once `bmap` has been called; `more` is the loop's next round.
  abbrev pub write_block :
      Memory
      → (ℕ → Dinode → Blocks → Result Written)
      → ℕ
      → ℕ
      → ℕ
      → ℕ
      → ℕ × Dinode × Blocks
      → Result Written
  write_block mem more tot off src n (addr, ip, d) =
      let m = min (n - tot) (bsize - off % bsize) in
      let k = mem.copied src m in
      let d1 = update d addr (copy k (d addr) (off % bsize) src mem.byte) in
      let rest = more m ip d1 in
      if addr == 0 then ok (tot, off, ip, d) else (if k == m then rest else ok (tot, off, ip, d1))

  unfoldable pub write_loop : Memory → ℕ → ℕ → ℕ → ℕ → ℕ → Dinode → Blocks → Result Written
  write_loop mem zero tot off src n ip d = ok (tot, off, ip, d)
  write_loop mem (suc rounds) tot off src n ip d =
      let more = λ (m : ℕ). write_loop mem rounds (tot + m) (off + m) (src + m) n in
      let round = bmap sb (off / bsize) ip d >>= write_block mem more tot off src n in
      if ltb tot n then round else ok (tot, off, ip, d)

  -- `writei`; `none` is the result -1.
  unfoldable pub writei : Memory → ℕ → ℕ → ℕ → ℕ → Dinode → Disk → Result (Option ℕ × Dinode × Disk)
  writei mem inum src off n ip disk =
      let written = write_loop mem n 0 off src n ip disk.blocks >>= λ (r : Written).
      let ip1 = record r.2 { size = if ltb r.2.size r.1 then r.1 else r.2.size } in
      ok (some r.0, ip1, iupdate inum ip1 (record disk { blocks = r.3 })) in
      if is_outside off n ip
      then ok (none, ip, disk)
      else (if ltb max_size (off + n) then ok (none, ip, disk) else written)

  -- A round of the loop of `readi`, with the memory it copies to.
  abbrev pub read_block :
      Memory
      → (ℕ → Dinode → Blocks → (ℕ → ℕ) → Result BytesRead)
      → ℕ
      → ℕ
      → ℕ
      → ℕ
      → (ℕ → ℕ)
      → ℕ × Dinode × Blocks
      → Result BytesRead
  read_block mem more tot off dst n to (addr, ip, d) =
      let m = min (n - tot) (bsize - off % bsize) in
      let k = mem.copied dst m in
      let to1 = copy k to dst (off % bsize) (d addr) in
      let rest = more m ip d to1 in
      if addr == 0
      then ok (some tot, ip, d, to)
      else (if k == m then rest else ok (none, ip, d, to1))

  unfoldable pub read_loop :
      Memory → ℕ → ℕ → ℕ → ℕ → ℕ → Dinode → Blocks → (ℕ → ℕ) → Result BytesRead
  read_loop mem zero tot off dst n ip d to = ok (some tot, ip, d, to)
  read_loop mem (suc rounds) tot off dst n ip d to =
      let more = λ (m : ℕ). read_loop mem rounds (tot + m) (off + m) (dst + m) n in
      let round = bmap sb (off / bsize) ip d >>= read_block mem more tot off dst n to in
      if ltb tot n then round else ok (some tot, ip, d, to)

  unfoldable pub readi : Memory → ℕ → ℕ → ℕ → Dinode → Blocks → Result BytesRead
  readi mem dst off n ip d =
      let clipped = if ltb ip.size (off + n) then ip.size - off else n in
      if is_outside off n ip
      then ok (some 0, ip, d, mem.byte)
      else read_loop mem clipped 0 off dst clipped ip d mem.byte
