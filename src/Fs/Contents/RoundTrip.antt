-- ===== src/Fs/Contents/RoundTrip.antt =====
-- kernel/fs.c: `writei` and then `readi`.
use os_prioritypipes.Prelude.{
  ℕ, ◌+◌, ◌-◌, ◌≤◌, ◌<◌, ◌≡◌, refl, ap, ◌∙◌, inr, Option, none, some, ltb, if◌then◌else◌, arith,
}
use os_prioritypipes.Prelude.Results.{Result, ok, ◌>>=◌, Returns, returns, bind}
use os_prioritypipes.Fs.{Superblock}
use os_prioritypipes.Fs.Bitmap.{Sound}
use os_prioritypipes.Fs.Inodes.{Dinode}
use os_prioritypipes.Fs.Inodes.Slots.{Owns}
use os_prioritypipes.Fs.Inodes.Adding.{IsSmall}
use os_prioritypipes.Fs.Contents.{Memory, Disk, BytesRead, readi, writei}
use os_prioritypipes.Fs.Contents.Copying.{IsMemory}
use os_prioritypipes.Fs.Contents.Reading.{readi-Whole}
use os_prioritypipes.Fs.Contents.Writing.{WriteResult, refused, wrote, writei-WriteResult}

-- The number that `writei` returned, and then a read of that many bytes from the same place.
abbrev pub read_back :
    Superblock → Memory → ℕ → ℕ → Option ℕ × Dinode × Disk → Result (ℕ × BytesRead)
read_back sb reader dst off (none, ip, disk) = ok (0, (some 0, ip, disk.blocks, reader.byte))
read_back sb reader dst off (some k, ip, disk) =
    readi sb reader dst off k ip disk.blocks >>= λ (r : BytesRead). ok (k, r)

-- All bytes that were written are read.
abbrev pub AreBack : Memory → Memory → ℕ → ℕ → ℕ × BytesRead → Type 0
AreBack mem reader src dst (k, (count, ip, d, to)) =
    (count ≡ some k) × ((i : ℕ) → i < k → to (dst + i) ≡ mem.byte (src + i))

module _ (sb : Superblock) where
  read_back-AreBack :
      (mem reader : Memory) (inum src dst off n : ℕ) (ip : Dinode) (disk : Disk)
      (r : Option ℕ × Dinode × Disk)
      → IsSmall sb
      → IsMemory reader
      → ((a m : ℕ) → reader.copied a m ≡ m)
      → ip.size ≤ 274432
      → off + n ≤ 274432
      → WriteResult sb mem inum src off n ip disk r
      → Returns (AreBack mem reader src dst) (read_back sb reader dst off r)
  read_back-AreBack mem reader inum src dst off n ip disk _ small ir all size fits (refused why) =
      returns (refl, λ i lt. absurd (omega (arith, lt)))
  read_back-AreBack mem reader inum src dst off n ip disk (_, ip1, disk1) small ir all size fits
        (wrote k le within h w inode table has new old why) =
      let e : ip1.size ≡ (if ltb ip.size (off + k) then off + k else ip.size) =
        ap (λ (x : Dinode). x.size) inode in
      bind
        (readi-Whole sb reader dst off k ip1 disk1.blocks small ir all
          (ground (arith, e, size, fits, le)) (ground (arith, e))
          (λ o lo hi. has o (omega (arith, hi, fits, le)) (inr (lo, hi))) h w)
        (λ r got. returns (
          got.count,
          λ i lt.
              let place : off + i - off ≡ i = omega arith in
              got.bytes i lt
              ∙ new (off + i) (omega arith) (omega (arith, lt))
              ∙ ap (λ x. mem.byte (src + x)) place,
        ))

  -- What `writei` has put into a file, `readi` finds there. Where the bitmap is sound and the
  -- numbers in the inode are those of distinct blocks in use, and the write ends within the
  -- largest size: with a memory whose pages may all be written, a read of as many bytes as the
  -- write has returned, from the place it began at, returns that number and brings these bytes.
  pub writei-readi :
      (mem reader : Memory) (inum src dst off n : ℕ) (ip : Dinode) (disk : Disk)
      → IsSmall sb
      → IsMemory mem
      → IsMemory reader
      → ((a m : ℕ) → reader.copied a m ≡ m)
      → ip.size ≤ 274432
      → off + n ≤ 274432
      → Sound sb disk.blocks
      → Owns sb ip.addrs disk.blocks
      → Returns
          (AreBack mem reader src dst)
          (writei sb mem inum src off n ip disk >>= read_back sb reader dst off)
  writei-readi mem reader inum src dst off n ip disk small im ir all size fits h w =
      bind
        (writei-WriteResult sb mem inum src off n ip disk small im size (omega (arith, fits)) h w)
        (λ r written.
          read_back-AreBack mem reader inum src dst off n ip disk r small ir all size fits written)
