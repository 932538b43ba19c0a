-- ===== src/Fs.antt =====
-- kernel/fs.c: the layers of the file system below its names. A block is what `bread` finds, the bytes
-- that the log has for it; `log_write` and `brelse` of a buffer end in a write to the block. The
-- blocks of inodes are a table of `struct dinode` here.
use os_prioritypipes.Prelude.{
  ℕ, zero, suc, ◌+◌, ◌-◌, ◌*◌, ◌/◌, ◌%◌, Bool, true, false, ◌&&◌, not, Option, none, some, ltb, leb,
  ◌==◌, if◌then◌else◌,
}
use os_prioritypipes.Prelude.Maps.{update}
use os_prioritypipes.Prelude.Results.{Result, ok, panic, ◌>>=◌, ◌>>◌, panic_if}
pub mod Bits
pub mod Bitmap
pub mod Words
pub mod Inodes
pub mod Contents
pub mod Paths
pub mod Directories
pub mod Itable
pub mod Namei
pub mod Tests
use Bits.{is_clear, set_bit, clear_bit}

abbrev pub bsize : ℕ
bsize = 1024

-- BPB
abbrev pub bits_per_block : ℕ
bits_per_block = 8192

abbrev pub ndirect : ℕ
ndirect = 12

abbrev pub nindirect : ℕ
nindirect = 256

pub record Superblock : Type 0 where
  pub size : ℕ
  pub ninodes : ℕ
  pub bmapstart : ℕ

abbrev pub Blocks : Type 0
Blocks = ℕ → ℕ → ℕ

-- `bzero`
abbrev pub bzero : ℕ → Blocks → Blocks
bzero bno d = update d bno (λ i. 0)

module _ (sb : Superblock) where
  -- `BBLOCK`
  abbrev pub bitmap_block : ℕ → ℕ
  bitmap_block b = b / bits_per_block + sb.bmapstart

  -- The byte and the bit of a block in its block of the bitmap.
  abbrev pub is_free : Blocks → ℕ → Bool
  is_free d b = is_clear (d (bitmap_block b) (b % bits_per_block / 8)) (b % bits_per_block % 8)

  abbrev pub change_bit : (ℕ → ℕ → ℕ) → ℕ → Blocks → Blocks
  change_bit change b d =
      let block = bitmap_block b in
      let i = b % bits_per_block / 8 in
      update d block (update (d block) i (change (d block i) (b % bits_per_block % 8)))

  -- The inner loop of `balloc` from the bit `bi` of the bitmap block for `b`.
  unfoldable pub find_bit : ℕ → ℕ → ℕ → Blocks → Option ℕ
  find_bit zero b bi d = none
  find_bit (suc rounds) b bi d =
      let later = find_bit rounds b (bi + 1) d in
      if ltb bi bits_per_block && ltb (b + bi) sb.size
      then (if is_clear (d (bitmap_block b) (bi / 8)) (bi % 8) then some bi else later)
      else none

  -- the outer loop, and `balloc`
  abbrev pub take_bit : ℕ → Blocks → ℕ × Blocks → Option ℕ → ℕ × Blocks
  take_bit b d later none = later
  take_bit b d later (some bi) =
      let block = bitmap_block b in
      let marked =
        update d block (update (d block) (bi / 8) (set_bit (d block (bi / 8)) (bi % 8))) in
      (b + bi, bzero (b + bi) marked)

  unfoldable pub balloc_from : ℕ → ℕ → Blocks → ℕ × Blocks
  balloc_from zero b d = (0, d)
  balloc_from (suc rounds) b d =
      let later = balloc_from rounds (b + bits_per_block) d in
      let found = take_bit b d later (find_bit bits_per_block b 0 d) in
      if ltb b sb.size then found else (0, d)

  unfoldable pub balloc : Blocks → ℕ × Blocks
  balloc d = balloc_from (sb.size / bits_per_block + 1) 0 d

  unfoldable pub bfree : ℕ → Blocks → Result Blocks
  bfree b d = panic_if (is_free d b) >> ok (change_bit clear_bit b d)
