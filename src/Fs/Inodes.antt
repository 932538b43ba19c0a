-- ===== src/Fs/Inodes.antt =====
-- kernel/fs.c and kernel/fs.h: the blocks of an inode, `bmap` and `itrunc`. The fields of a
-- `struct inode` from `type` on are a copy of its `struct dinode`.
use os_prioritypipes.Prelude.{ℕ, zero, suc, ◌+◌, ◌-◌, Bool, true, false, ltb, ◌==◌, if◌then◌else◌}
use os_prioritypipes.Prelude.Maps.{update}
use os_prioritypipes.Prelude.Results.{Result, ok, panic, ◌>>=◌}
use os_prioritypipes.Fs.{Superblock, Blocks, ndirect, nindirect, balloc, bfree}
use os_prioritypipes.Fs.Words.{word, put_word}
pub mod Slots
pub mod Adding
pub mod Mapping
pub mod Freeing
pub mod Clearing
pub mod Truncating

-- `struct dinode`, with `kind` for the field `type`
pub record Dinode : Type 0 where
  pub kind : ℕ
  pub major : ℕ
  pub minor : ℕ
  pub nlink : ℕ
  pub size : ℕ
  pub addrs : ℕ → ℕ

module _ (sb : Superblock) where
  -- `if((addr = ip->addrs[i]) == 0){ addr = balloc(ip->dev); ...; ip->addrs[i] = addr; }`
  abbrev pub take_addr : ℕ → Dinode → ℕ × Blocks → ℕ × Dinode × Blocks
  take_addr i ip (addr, d) =
      if addr == 0 then (0, ip, d) else (addr, record ip { addrs = update ip.addrs i addr }, d)

  unfoldable pub bmap_addr : ℕ → Dinode → Blocks → ℕ × Dinode × Blocks
  bmap_addr i ip d = if ip.addrs i == 0 then take_addr i ip (balloc sb d) else (ip.addrs i, ip, d)

  -- The same for the word `bn` of the indirect block `table`.
  abbrev pub take_word : ℕ → ℕ → ℕ × Blocks → ℕ × Blocks
  take_word table bn (addr, d) =
      if addr == 0 then (0, d) else (addr, update d table (put_word (d table) bn addr))

  unfoldable pub bmap_word : ℕ → ℕ → Blocks → ℕ × Blocks
  bmap_word table bn d =
      if word (d table) bn == 0 then take_word table bn (balloc sb d) else (word (d table) bn, d)

  abbrev pub bmap_indirect : ℕ → ℕ × Dinode × Blocks → ℕ × Dinode × Blocks
  bmap_indirect bn (table, ip, d) =
      let (addr, d1) = bmap_word table bn d in if table == 0 then (0, ip, d) else (addr, ip, d1)

  unfoldable pub bmap : ℕ → Dinode → Blocks → Result (ℕ × Dinode × Blocks)
  bmap bn ip d =
      if ltb bn ndirect
      then ok (bmap_addr bn ip d)
      else (if ltb (bn - ndirect) nindirect
          then ok (bmap_indirect (bn - ndirect) (bmap_addr ndirect ip d))
          else panic)

  -- The first loop of `itrunc`, from `i` with `rounds` rounds to go.
  unfoldable pub free_direct : ℕ → ℕ → Dinode → Blocks → Result (Dinode × Blocks)
  free_direct zero i ip d = ok (ip, d)
  free_direct (suc rounds) i ip d =
      if ip.addrs i == 0
      then free_direct rounds (i + 1) ip d
      else bfree sb (ip.addrs i) d >>= λ (d1 : Blocks).
          free_direct rounds (i + 1) (record ip { addrs = update ip.addrs i 0 }) d1

  -- The loop over the indirect block, whose buffer stays locked.
  unfoldable pub free_words : ℕ → ℕ → ℕ → Blocks → Result Blocks
  free_words zero table j d = ok d
  free_words (suc rounds) table j d =
      if word (d table) j == 0
      then free_words rounds table (j + 1) d
      else bfree sb (word (d table) j) d >>= λ (d1 : Blocks). free_words rounds table (j + 1) d1

  abbrev pub free_indirect : Dinode × Blocks → Result (Dinode × Blocks)
  free_indirect (ip, d) =
      if ip.addrs ndirect == 0
      then ok (ip, d)
      else free_words nindirect (ip.addrs ndirect) 0 d >>= λ (d1 : Blocks).
          bfree sb (ip.addrs ndirect) d1 >>= λ (d2 : Blocks).
          ok (record ip { addrs = update ip.addrs ndirect 0 }, d2)

  -- `itrunc` up to its call of `iupdate`
  unfoldable pub itrunc : Dinode → Blocks → Result (Dinode × Blocks)
  itrunc ip d = free_direct ndirect 0 ip d >>= free_indirect >>= λ (r : Dinode × Blocks).
      ok (record r.0 { size = 0 }, r.1)
