-- ===== src/Fs/Namei/Tree.antt =====
-- kernel/fs.c: the tree of directories on the disk, and what a walk of `namex` in it comes to.
use os_prioritypipes.Prelude.{
  ℕ, ◌%◌, ◌<◌, ◌≡◌, ◌≢◌, Bool, true, false, ◌&&◌, Option, none, some, List, [], ◌∷◌,
}
use os_prioritypipes.Fs.Contents.{Disk}
use os_prioritypipes.Fs.Directories.Entries.{number_at}
use os_prioritypipes.Fs.Paths.{is_end}
use os_prioritypipes.Fs.Itable.{Inodes}
use os_prioritypipes.Fs.Namei.{Walked}
use os_prioritypipes.Fs.Namei.Names.{NamedBy}
use os_prioritypipes.Fs.Namei.Holding.{Holds, one}

-- An entry in use with the name.
abbrev pub Names : List ℕ → Disk → ℕ → ℕ → Type 0
Names cs disk n o =
    (number_at (disk.inodes n).addrs disk.blocks o ≢ 0)
    × NamedBy cs (disk.inodes n).addrs disk.blocks o

-- The inode that is reached from the inode `n` along the names, if there is one. With `parent` the walk
-- stops before the last name.
pub data Walks (disk : Disk) (parent : Bool) : ℕ → List (List ℕ) → Option ℕ → Type 0 where
  arrived : (n : ℕ) → parent ≡ false → Walks disk parent n [] (some n)
  no_name : (n : ℕ) → parent ≡ true → Walks disk parent n [] none
  no_directory :
      (n : ℕ) (cs : List ℕ) (rest : List (List ℕ))
      → (disk.inodes n).kind ≢ 1
      → Walks disk parent n (cs ∷ rest) none
  stops :
      (n : ℕ) (cs : List ℕ) (rest : List (List ℕ))
      → (disk.inodes n).kind ≡ 1
      → (parent && is_end rest) ≡ true
      → Walks disk parent n (cs ∷ rest) (some n)
  no_entry :
      (n : ℕ) (cs : List ℕ) (rest : List (List ℕ))
      → (disk.inodes n).kind ≡ 1
      → (parent && is_end rest) ≡ false
      → ((o : ℕ) → o < (disk.inodes n).size → o % 16 ≡ 0 → ¬ Names cs disk n o)
      → Walks disk parent n (cs ∷ rest) none
  into :
      {r : Option ℕ} (n : ℕ) (cs : List ℕ) (rest : List (List ℕ)) (o : ℕ)
      → (disk.inodes n).kind ≡ 1
      → (parent && is_end rest) ≡ false
      → o < (disk.inodes n).size
      → o % 16 ≡ 0
      → Names cs disk n o
      → ((o' : ℕ) → o' < o → o' % 16 ≡ 0 → ¬ Names cs disk n o')
      → Walks disk parent (number_at (disk.inodes n).addrs disk.blocks o) rest r
      → Walks disk parent n (cs ∷ rest) r

-- The reference that is returned, and the number of its inode.
abbrev pub returned : Option ℕ → ℕ → ℕ
returned none j = 0
returned (some i) j = one i j

abbrev pub number_of : Inodes → Option ℕ → Option ℕ
number_of s none = none
number_of s (some i) = some (s.table i).inum

-- The walk is that of the tree, and no reference is left but the one returned.
pub record Arrived (s0 : Inodes) (parent : Bool) (start : ℕ) (ns : List (List ℕ)) (r : Walked)
    : Type 0 where
  pub holds : Holds s0 (returned r.0) r.1
  pub reached : Walks s0.disk parent start ns (number_of r.1 r.0)
