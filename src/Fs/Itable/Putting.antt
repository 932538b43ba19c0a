-- ===== src/Fs/Itable/Putting.antt =====
-- kernel/fs.c: `iput`, which frees an inode that has no link and no other reference.
use os_prioritypipes.Prelude.{
  ℕ, ◌≡◌, ◌≢◌, inl, inr, Bool, true, false, ◌&&◌, ◌==◌, Bool-cases, arith,
}
use os_prioritypipes.Prelude.Results.{Returns, returns, bind}
use os_prioritypipes.Fs.{Superblock}
use os_prioritypipes.Fs.Bitmap.{Sound}
use os_prioritypipes.Fs.Inodes.Slots.{Owns}
use os_prioritypipes.Fs.Inodes.Freeing.{Frees, owns_block}
use os_prioritypipes.Fs.Inodes.Truncating.{itrunc-Truncated}
use os_prioritypipes.Fs.Itable.{Inode, Inodes, drop, free_inode, iput}

-- `ip->ref == 1 && ip->valid && ip->nlink == 0`
abbrev pub is_last : Inode → Bool
is_last ip = (ip.ref == 1) && ip.valid && (ip.info.nlink == 0)

-- What `iput` comes to: one reference less, and the inode and its blocks are free if that was the last
-- one and there is no link.
pub data Put (sb : Superblock) (i : ℕ) (s : Inodes) : Inodes → Type 0 where
  kept : is_last (s.table i) ≡ false → Put sb i s (drop i s)
  freed :
      {s' : Inodes}
      → is_last (s.table i) ≡ true
      → ((s'.table i).ref ≡ 0) × ((s'.table i).valid ≡ false)
      → ((j : ℕ) → j ≢ i → s'.table j ≡ s.table j)
      → ((s'.disk.inodes (s.table i).inum).kind ≡ 0)
      → ((n : ℕ) → n ≢ (s.table i).inum → s'.disk.inodes n ≡ s.disk.inodes n)
      → Frees sb s.disk.blocks (owns_block (s.table i).info.addrs s.disk.blocks) s'.disk.blocks
      → Put sb i s s'

-- The inode after it has been freed, with its references yet.
abbrev Freed : Superblock → ℕ → Inodes → Inodes → Type 0
Freed sb i s s1 =
    ((s1.table i).ref ≡ (s.table i).ref)
    × ((s1.table i).valid ≡ false)
    × ((j : ℕ) → j ≢ i → s1.table j ≡ s.table j)
    × ((s1.disk.inodes (s.table i).inum).kind ≡ 0)
    × ((n : ℕ) → n ≢ (s.table i).inum → s1.disk.inodes n ≡ s.disk.inodes n)
    × Frees sb s.disk.blocks (owns_block (s.table i).info.addrs s.disk.blocks) s1.disk.blocks

free_inode-Freed :
    (sb : Superblock) (i : ℕ) (s : Inodes)
    → Sound sb s.disk.blocks
    → Owns sb (s.table i).info.addrs s.disk.blocks
    → Returns (Freed sb i s) (free_inode sb i s)
free_inode-Freed sb i s h w = bind (itrunc-Truncated sb (s.table i).info s.disk.blocks h w) (λ r t.
    returns (
      ground arith,
      ground arith,
      λ j ne. ground (arith, ne),
      ground arith,
      λ n ne. ground (arith, ne),
      t.frees,
    ))

-- Where the bitmap is sound and the numbers in the inode are those of distinct blocks in use,
-- `iput` does not panic and drops one reference. If that was the last one to an inode that has
-- been read and has no link, the inode is free on the disk, each block it had is free, and no
-- other inode or block changes; else the disk stays.
pub iput-Put :
    (sb : Superblock) (i : ℕ) (s : Inodes)
    → Sound sb s.disk.blocks
    → Owns sb (s.table i).info.addrs s.disk.blocks
    → Returns (Put sb i s) (iput sb i s)
unfolding iput
iput-Put sb i s h w = elim (Bool-cases (is_last (s.table i))) [
  | inr other ↦ rw other (returns (kept other))
  | inl last ↦ rw last (
      bind (free_inode-Freed sb i s h w) (λ s1 (ref, valid, others, kind, inodes, blocks). returns (
        freed last (ground (arith, ref, last), ground (arith, valid))
          (λ j ne. ground (arith, ne, others j)) kind inodes blocks)))
]
