-- ===== src/Fs/Namei/Tests.antt =====
-- kernel/fs.c: `namex` on a disk with a root directory and the file "a", and its theorem there.
use os_prioritypipes.Prelude.{
  ℕ, ◌≡◌, refl, inl, true, false, Option, none, some, [], ◌∷◌, ◌==◌, if◌then◌else◌, arith,
}
use os_prioritypipes.Prelude.Results.{Result, ok, panic, Returns}
use os_prioritypipes.Prelude.Int.{◌-ℤ◌}
use os_prioritypipes.Fs.Inodes.{Dinode, bmap, bmap_addr}
use os_prioritypipes.Strings.{strncmp}
use os_prioritypipes.Fs.Contents.{Disk, readi, read_loop}
use os_prioritypipes.Fs.Paths.{names, element, skip_slashes}
use os_prioritypipes.Fs.Directories.{dirlookup, lookup_loop}
use os_prioritypipes.Fs.Itable.{Inodes, iget, iget_from, ilock, iput, idup}
use os_prioritypipes.Fs.Itable.Getting.{Unique}
use os_prioritypipes.Fs.Namei.{namex, namex_loop, namei, nameiparent}
use os_prioritypipes.Fs.Namei.Tree.{number_of, Arrived}
use os_prioritypipes.Fs.Namei.Holding.{Consistent, Coherent}
use os_prioritypipes.Fs.Namei.Looking.{Room}
use os_prioritypipes.Fs.Namei.Walking.{namex-Arrived}
use os_prioritypipes.Fs.Tests.{super_block, blocks, directory, blocks-Sound, directory-Owns}

-- The inode 1 is the directory, 5 its file.
abbrev inode : ℕ → Dinode
inode n = record {
  kind = if n == 1 then 1 else (if n == 5 then 2 else 0);
  major = 0;
  minor = 0;
  nlink = 1;
  size = if n == 1 then 16 else 0;
  addrs = directory.addrs;
}

abbrev tree : Disk
tree = record { blocks = blocks; inodes = inode }

-- A process is in the directory.
abbrev state : Inodes
state = record {
  table = λ (i : ℕ). record {
    dev = 1;
    inum = 1;
    ref = if i == 0 then 1 else 0;
    valid = true;
    info = inode 1;
  };
  disk = tree;
}

abbrev memory : ℕ → ℕ
memory a = 0

abbrev inum_of : Result (Option ℕ × Inodes) → Option ℕ
inum_of panic = none
inum_of (ok (r, s)) = number_of s r

tree-Consistent : Consistent super_block tree
tree-Consistent = record {
  directory = λ n kind. record {
    kind = kind;
    size = ground arith;
    whole = ground arith;
    has = λ o lt. ground (arith, lt);
    sound = blocks-Sound;
    owns = directory-Owns;
  };
  linked = λ n kind. omega arith;
  entries = λ n o kind lt al ne. ground (arith, kind, lt, al, ne);
  root = ground arith;
}

state-Coherent : Coherent state
state-Coherent = record { device = λ j r. refl; in_use = λ j r. ground arith; read = λ j r v. refl }

state-Unique : Unique state.table
state-Unique i j li lj ri rj ed ei = ground (arith, ri, rj)

state-Room : Room state
state-Room = record {
  first = 1;
  second = 2;
  apart = omega arith;
  first_lt = omega arith;
  second_lt = omega arith;
  first_free = refl;
  second_free = refl;
}

namei_finds : inum_of (namei super_block 200 100 (47 ∷ 97 ∷ []) 0 state memory) ≡ some 5
unfolding namex namex_loop skip_slashes element iget iget_from idup ilock iput dirlookup lookup_loop
    readi read_loop bmap bmap_addr strncmp ◌-ℤ◌
namei_finds = refl

namei_finds_nothing : inum_of (namei super_block 200 100 (47 ∷ 98 ∷ []) 0 state memory) ≡ none
unfolding namex namex_loop skip_slashes element iget iget_from idup ilock iput dirlookup lookup_loop
    readi read_loop bmap bmap_addr strncmp ◌-ℤ◌
namei_finds_nothing = refl

namei_stops_at_file : inum_of (namei super_block 200 100 (97 ∷ 47 ∷ 97 ∷ []) 0 state memory) ≡ none
unfolding namex namex_loop skip_slashes element iget iget_from idup ilock iput dirlookup lookup_loop
    readi read_loop bmap bmap_addr strncmp ◌-ℤ◌
namei_stops_at_file = refl

nameiparent_finds : inum_of (nameiparent super_block 200 100 (97 ∷ []) 0 state memory) ≡ some 1
unfolding namex namex_loop skip_slashes element iget iget_from idup ilock iput dirlookup lookup_loop
    readi read_loop bmap bmap_addr strncmp ◌-ℤ◌
nameiparent_finds = refl

namex-Arrived_example :
    Returns
      (Arrived state false 1 (names 2 (97 ∷ [])))
      (namex super_block 200 100 false (97 ∷ []) 0 state memory)
namex-Arrived_example =
    namex-Arrived super_block 200 100 false (97 ∷ []) 0 state memory (omega arith)
      (inl (omega arith)) tree-Consistent state-Coherent state-Unique (omega arith) state-Room
      (omega arith, tt) (λ x. omega arith)
