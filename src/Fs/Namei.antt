-- ===== src/Fs/Namei.antt =====
-- kernel/fs.c: `namex`, which goes from directory to directory along the names of a path. `de` is the address
-- of the `struct dirent` of `dirlookup`, and `name` that of the name that it looks for. A step is a whole call; no
-- other process comes between.
use os_prioritypipes.Prelude.{
  ℕ, zero, suc, ◌+◌, Bool, true, false, ◌&&◌, not, Option, none, some, List, [], ◌∷◌, ◌++◌, length,
  ltb, ◌==◌, if◌then◌else◌,
}
use os_prioritypipes.Prelude.Maps.{update}
use os_prioritypipes.Prelude.Results.{Result, ok, ◌>>=◌, ◌>>◌, panic_if}
use os_prioritypipes.Fs.{Superblock, Blocks}
use os_prioritypipes.Fs.Inodes.{Dinode}
use os_prioritypipes.Fs.Paths.{slash, dirsiz, skipelem, is_end}
use os_prioritypipes.Fs.Directories.{t_dir, LookedUp, dirlookup}
use os_prioritypipes.Fs.Itable.{Table, Inodes, iget, idup, ilock, iput}
pub mod Names
pub mod Holding
pub mod Referring
pub mod Tree
pub mod Looking
pub mod Walking
mod Tests

-- ROOTDEV and ROOTINO
abbrev pub rootdev : ℕ
rootdev = 1

abbrev pub rootino : ℕ
rootino = 1

abbrev pub put_chars : ℕ → List ℕ → (ℕ → ℕ) → ℕ → ℕ
put_chars a [] m = m
put_chars a (c ∷ cs) m = put_chars (a + 1) cs (update m a c)

-- `memmove(name, s, len)` with `len` cut to DIRSIZ, and the NUL after a shorter name
abbrev pub store_name : ℕ → List ℕ → (ℕ → ℕ) → ℕ → ℕ
store_name name cs m = put_chars name (if ltb (length cs) dirsiz then cs ++ 0 ∷ [] else cs) m

-- `iunlock` of an inode whose sleep lock its caller holds
abbrev pub iunlock : ℕ → Inodes → Result Inodes
iunlock i s = panic_if (ltb (s.table i).ref 1) >> ok s

-- The inode that was found, as its index in the table; `none` is the result 0.
abbrev pub Walked : Type 0
Walked = Option ℕ × Inodes

abbrev pub starts_at_root : List ℕ → Bool
starts_at_root [] = false
starts_at_root (c ∷ path) = c == slash

-- `dirlookup`, with the `iget` that it ends in
abbrev pub found_at : ℕ → Inodes → LookedUp → Result (Option ℕ × Inodes × (ℕ → ℕ))
found_at i s (found, info, d, m) =
    let s1 = record s {
      table = update s.table i (record (s.table i) { info = info });
      disk = record s.disk { blocks = d };
    } in
    elim found [
      | none ↦ ok (none, s1, m)
      | some (off, inum) ↦ iget (s.table i).dev inum s1.table >>= λ (r : ℕ × Table).
          ok (some r.0, record s1 { table = r.1 }, m)
    ]

module _ (sb : Superblock) (de name : ℕ) where
  abbrev pub iunlockput : ℕ → Inodes → Result Inodes
  iunlockput i s = iunlock i s >>= iput sb i

  abbrev pub give_up : ℕ → Inodes → Result Walked
  give_up i s = iunlockput i s >>= λ (s1 : Inodes). ok (none, s1)

  -- the end of a round, once the entry has been looked up
  abbrev pub next_inode :
      (List ℕ → ℕ → Inodes → (ℕ → ℕ) → Result Walked)
      → ℕ
      → List ℕ
      → Option ℕ × Inodes × (ℕ → ℕ)
      → Result Walked
  next_inode more i rest (none, s, m) = give_up i s
  next_inode more i rest (some next, s, m) = iunlockput i s >>= λ (s1 : Inodes). more rest next s1 m

  -- a round of the loop, once the inode is locked
  abbrev pub enter :
      (List ℕ → ℕ → Inodes → (ℕ → ℕ) → Result Walked)
      → Bool
      → ℕ
      → List ℕ
      → (ℕ → ℕ)
      → Inodes
      → Result Walked
  enter more parent i rest m s =
      let found =
        dirlookup sb de name (s.table i).info s.disk.blocks m
        >>= found_at i s
        >>= next_inode more i rest in
      let stop = iunlock i s >>= λ (s1 : Inodes). ok (some i, s1) in
      if not ((s.table i).info.kind == t_dir)
      then give_up i s
      else (if parent && is_end rest then stop else found)

  abbrev pub next_element :
      (List ℕ → ℕ → Inodes → (ℕ → ℕ) → Result Walked)
      → Bool
      → ℕ
      → Inodes
      → (ℕ → ℕ)
      → Option (List ℕ × List ℕ)
      → Result Walked
  next_element more parent i s m none =
      let put = iput sb i s >>= λ (s1 : Inodes). ok (none, s1) in
      if parent then put else ok (some i, s)
  next_element more parent i s m (some (cs, rest)) =
      ilock i s >>= enter more parent i rest (store_name name cs m)

  unfoldable pub namex_loop : Bool → ℕ → List ℕ → ℕ → Inodes → (ℕ → ℕ) → Result Walked
  namex_loop parent zero path i s m = ok (none, s)
  namex_loop parent (suc rounds) path i s m =
      next_element (namex_loop parent rounds) parent i s m (skipelem path)

  -- `namex` of a process whose directory is `cwd`
  unfoldable pub namex : Bool → List ℕ → ℕ → Inodes → (ℕ → ℕ) → Result Walked
  namex parent path cwd s m =
      (if starts_at_root path then iget rootdev rootino s.table else ok (cwd, idup cwd s.table))
      >>= λ (r : ℕ × Table).
          namex_loop parent (suc (length path)) path r.0 (record s { table = r.1 }) m

  -- `namei`, with `name` its own buffer, and `nameiparent`
  abbrev pub namei : List ℕ → ℕ → Inodes → (ℕ → ℕ) → Result Walked
  namei path cwd s m = namex false path cwd s m

  abbrev pub nameiparent : List ℕ → ℕ → Inodes → (ℕ → ℕ) → Result Walked
  nameiparent path cwd s m = namex true path cwd s m
