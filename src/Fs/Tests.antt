-- ===== src/Fs/Tests.antt =====
-- kernel/fs.c: its functions on a disk of 20 blocks with one directory, and its theorems there.
use os_prioritypipes.Prelude.{
  ℕ, zero, suc, ◌%◌, ◌<◌, ◌≡◌, refl, inl, inr, true, List, [], ◌∷◌, map, take, ◌==◌, if◌then◌else◌,
  Bool-cases, arith,
}
use os_prioritypipes.Prelude.Results.{◌>>=◌, Returns}
use os_prioritypipes.Fs.{Superblock, Blocks, is_free, find_bit, balloc_from, balloc}
use os_prioritypipes.Fs.Bitmap.{Sound}
use os_prioritypipes.Fs.Inodes.{Dinode, bmap, itrunc}
use os_prioritypipes.Fs.Inodes.Slots.{slot, Owns, Used}
use os_prioritypipes.Fs.Inodes.Adding.{Mapped}
use os_prioritypipes.Fs.Inodes.Mapping.{bmap-Mapped}
use os_prioritypipes.Fs.Inodes.Truncating.{Truncated, itrunc-Truncated}
use os_prioritypipes.Fs.Contents.{Memory, Disk, readi, writei}
use os_prioritypipes.Fs.Contents.Copying.{IsMemory}
use os_prioritypipes.Fs.Contents.ReadRounds.{Read}
use os_prioritypipes.Fs.Contents.Reading.{readi-Read}
use os_prioritypipes.Fs.Contents.Writing.{WriteResult, writei-WriteResult}
use os_prioritypipes.Fs.Contents.RoundTrip.{read_back, AreBack, writei-readi}
use os_prioritypipes.Fs.Paths.{skip_slashes, element, names, dirsiz}
use os_prioritypipes.Fs.Paths.Elements.{nonempty, parts, names-parts}
use os_prioritypipes.Fs.Directories.{dirlookup, dirlink}
use os_prioritypipes.Fs.Directories.Entries.{IsDirectory}
use os_prioritypipes.Fs.Directories.Searching.{Searched, dirlookup-Searched}
use os_prioritypipes.Fs.Directories.LinkLookup.{IsFound, look_again, dirlink-dirlookup}
use os_prioritypipes.Fs.Itable.{Table, Inodes, iget, iput}
use os_prioritypipes.Fs.Itable.Getting.{Unique, Got, iget-Got}
use os_prioritypipes.Fs.Itable.Putting.{Put, iput-Put}

abbrev pub super_block : Superblock
super_block = record { size = 20; ninodes = 8; bmapstart = 3 }

-- Block 3 is the bitmap, with the blocks 0 to 4 in use. Block 4 holds the entry of a file "a" with the number 5.
abbrev pub blocks : Blocks
blocks b i =
    if b == 3
    then (if i == 0 then 31 else 0)
    else (if b == 4 then (if i == 0 then 5 else (if i == 2 then 97 else 0)) else 0)

abbrev pub directory : Dinode
directory = record {
  kind = 1;
  major = 0;
  minor = 0;
  nlink = 0;
  size = 16;
  addrs = λ (i : ℕ). if i == 0 then 4 else 0;
}

abbrev disk : Disk
disk = record { blocks = blocks; inodes = λ (n : ℕ). directory }

early : (c : ℕ) → is_free super_block blocks c ≡ true → 3 < c
early zero e = cc
early (suc zero) e = cc
early (suc (suc zero)) e = cc
early (suc (suc (suc zero))) e = cc
early (suc (suc (suc (suc c)))) e = omega arith

pub blocks-Sound : Sound super_block blocks
blocks-Sound = record { bytes = λ b i. ground arith; free_data = λ c lt e. early c e }

slots : (i : ℕ) → slot directory.addrs blocks i ≡ (if i == 0 then 4 else 0)
slots i = ground arith

block_4-Used : Used super_block blocks 4
block_4-Used = record { fits = omega arith; taken = refl; above = omega arith }

pub directory-Owns : Owns super_block directory.addrs blocks
directory-Owns = record {
  used = λ i lt ne. elim (Bool-cases (i == 0)) [
    | inl first ↦
        let e : slot directory.addrs blocks i ≡ 4 = ground (arith, slots i, first) in
        rw e block_4-Used
    | inr other ↦ absurd (ne (ground (arith, slots i, other)))
  ];
  apart = λ i j li lj ne e. ground (arith, slots i, slots j, ne, e);
}

-- a name "b" at 100
abbrev memory : ℕ → ℕ
memory a = if a == 100 then 98 else 0

memory_small : (x : ℕ) → memory x < 256
memory_small x = ground arith

abbrev user : Memory
user = record { byte = λ (a : ℕ). a % 256; copied = λ (a k : ℕ). k }

user-IsMemory : IsMemory user
user-IsMemory = record { small = λ a. omega arith; at_most = λ a k. omega arith }

directory-IsDirectory : IsDirectory super_block directory blocks
directory-IsDirectory = record {
  kind = refl;
  size = omega arith;
  whole = refl;
  has = λ o lt. ground (arith, lt);
  sound = blocks-Sound;
  owns = directory-Owns;
}

balloc_takes : (balloc super_block blocks).0 ≡ 5
unfolding balloc balloc_from find_bit
balloc_takes = refl

abbrev path : List ℕ
path = 47 ∷ 97 ∷ 47 ∷ 47 ∷ 98 ∷ []

names_run : names 6 path ≡ (97 ∷ []) ∷ (98 ∷ []) ∷ []
unfolding names skip_slashes element
names_run = refl

bmap-Mapped_example :
    Returns (Mapped super_block 13 directory blocks) (bmap super_block 12 directory blocks)
bmap-Mapped_example =
    bmap-Mapped super_block 12 directory blocks (omega arith) (omega arith) blocks-Sound
      directory-Owns

itrunc-Truncated_example :
    Returns (Truncated super_block directory blocks) (itrunc super_block directory blocks)
itrunc-Truncated_example = itrunc-Truncated super_block directory blocks blocks-Sound directory-Owns

writei-WriteResult_example :
    Returns
      (WriteResult super_block user 1 0 16 3000 directory disk)
      (writei super_block user 1 0 16 3000 directory disk)
writei-WriteResult_example =
    writei-WriteResult super_block user 1 0 16 3000 directory disk (omega arith) user-IsMemory
      (omega arith) (omega arith) blocks-Sound directory-Owns

readi-Read_example :
    Returns
      (Read super_block user 0 4 500 12 directory blocks user.byte)
      (readi super_block user 500 4 100 directory blocks)
readi-Read_example =
    readi-Read super_block user 500 4 100 directory blocks (omega arith) user-IsMemory (omega arith)
      (omega arith) blocks-Sound directory-Owns

writei-readi_example :
    Returns
      (AreBack user user 7 500)
      (writei super_block user 1 7 16 3000 directory disk >>= read_back super_block user 500 16)
writei-readi_example =
    writei-readi super_block user user 1 7 500 16 3000 directory disk (omega arith) user-IsMemory
      user-IsMemory (λ a k. refl) (omega arith) (omega arith) blocks-Sound directory-Owns

names-parts_example : names 6 path ≡ map (take dirsiz) (nonempty (parts path))
names-parts_example = names-parts 6 path (omega arith)

dirlookup-Searched_example :
    Returns
      (Searched super_block 200 100 directory blocks memory 0)
      (dirlookup super_block 200 100 directory blocks memory)
dirlookup-Searched_example =
    dirlookup-Searched super_block 200 100 directory blocks memory (omega arith)
      directory-IsDirectory memory_small (inl (omega arith))

dirlink-dirlookup_example : Returns (IsFound 7) (
    dirlink super_block 200 100 1 7 directory disk memory >>= look_again super_block 200 100 memory)
dirlink-dirlookup_example =
    dirlink-dirlookup super_block 200 100 1 7 directory disk memory (omega arith)
      directory-IsDirectory memory_small (inl (omega arith)) (omega arith) (omega arith)

-- One entry in use, of an inode with no link.
abbrev table : Table
table i = record {
  dev = 1;
  inum = 1;
  ref = if i == 0 then 1 else 0;
  valid = true;
  info = directory;
}

table-Unique : Unique table
table-Unique i j li lj ri rj ed ei = ground (arith, ri, rj)

iget-Got_example : Got 1 2 table (iget 1 2 table)
iget-Got_example = iget-Got 1 2 table table-Unique

abbrev inodes : Inodes
inodes = record { table = table; disk = disk }

iput-Put_example : Returns (Put super_block 0 inodes) (iput super_block 0 inodes)
iput-Put_example = iput-Put super_block 0 inodes blocks-Sound directory-Owns
