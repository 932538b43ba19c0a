-- ===== src/Fs/Directories.antt =====
-- kernel/fs.c: the entries of a directory. `dirlookup` is modelled up to its call of `iget`, which
-- gets the number it returns here. `de` is the address of the local `struct dirent`, of 16
-- bytes, and `name` that of a name; a copy to or from a kernel address does not fail.
use os_prioritypipes.Prelude.{
  ℕ, zero, suc, ◌+◌, ◌*◌, ◌/◌, ◌%◌, Bool, true, false, ◌&&◌, not, Option, none, some, ltb, ◌==◌,
  if◌then◌else◌,
}
use os_prioritypipes.Prelude.Int.{ℤ, pos_part, neg_part}
use os_prioritypipes.Prelude.Maps.{update}
use os_prioritypipes.Prelude.Results.{Result, ok, panic, ◌>>=◌, ◌>>◌, panic_if}
use os_prioritypipes.Strings.{strncmp, strncpy}
use os_prioritypipes.Fs.{Superblock, Blocks}
use os_prioritypipes.Fs.Inodes.{Dinode}
use os_prioritypipes.Fs.Contents.{Memory, Disk, BytesRead, readi, writei}
pub mod Entries
pub mod Searching
pub mod Unmoved
pub mod Filling
pub mod Places
pub mod Linking
pub mod LinkLookup

-- T_DIR
abbrev pub t_dir : ℕ
t_dir = 1

abbrev pub kernel_memory : (ℕ → ℕ) → Memory
kernel_memory m = record { byte = m; copied = λ a k. k }

-- `namecmp(name, other) == 0`
abbrev pub is_zero : ℤ → Bool
is_zero z = (pos_part z == 0) && (neg_part z == 0)

abbrev pub same_name : ℕ → ℕ → (ℕ → ℕ) → Bool
same_name name other m = is_zero (strncmp name other 14 m)

abbrev pub is_count : ℕ → Option ℕ → Bool
is_count n none = false
is_count n (some k) = k == n

-- `de.inum`
abbrev pub entry_number : ℕ → (ℕ → ℕ) → ℕ
entry_number de m = m de + 256 * m (de + 1)

-- The offset and the number of an entry that was found, and the state.
abbrev pub LookedUp : Type 0
LookedUp = Option (ℕ × ℕ) × Dinode × Blocks × (ℕ → ℕ)

-- A round of the loop of `dirlookup` after its `readi`; `more` is the loop's next round.
abbrev pub check_entry :
    (Dinode → Blocks → (ℕ → ℕ) → Result LookedUp) → ℕ → ℕ → ℕ → BytesRead → Result LookedUp
check_entry more de name off (count, ip, d, m) =
    let rest = more ip d m in
    panic_if (not (is_count 16 count))
    >> (if entry_number de m == 0
        then rest
        else (if same_name name (de + 2) m
            then ok (some (off, entry_number de m), ip, d, m)
            else rest))

-- A round of the second loop of `dirlink`.
abbrev pub check_free :
    (Dinode → Blocks → (ℕ → ℕ) → Result (ℕ × Dinode × Blocks × (ℕ → ℕ)))
    → ℕ
    → ℕ
    → BytesRead
    → Result (ℕ × Dinode × Blocks × (ℕ → ℕ))
check_free more de off (count, ip, d, m) =
    let rest = more ip d m in
    panic_if (not (is_count 16 count))
    >> (if entry_number de m == 0 then ok (off, ip, d, m) else rest)

module _ (sb : Superblock) where
  unfoldable pub lookup_loop : ℕ → ℕ → ℕ → ℕ → Dinode → Blocks → (ℕ → ℕ) → Result LookedUp
  lookup_loop de name zero off ip d m = ok (none, ip, d, m)
  lookup_loop de name (suc rounds) off ip d m =
      let more = lookup_loop de name rounds (off + 16) in
      let round = readi sb (kernel_memory m) de off 16 ip d >>= check_entry more de name off in
      if ltb off ip.size then round else ok (none, ip, d, m)

  unfoldable pub dirlookup : ℕ → ℕ → Dinode → Blocks → (ℕ → ℕ) → Result LookedUp
  dirlookup de name ip d m =
      panic_if (not (ip.kind == t_dir)) >> lookup_loop de name ip.size 0 ip d m

  unfoldable pub free_loop :
      ℕ → ℕ → ℕ → Dinode → Blocks → (ℕ → ℕ) → Result (ℕ × Dinode × Blocks × (ℕ → ℕ))
  free_loop de zero off ip d m = ok (off, ip, d, m)
  free_loop de (suc rounds) off ip d m =
      let more = free_loop de rounds (off + 16) in
      let round = readi sb (kernel_memory m) de off 16 ip d >>= check_free more de off in
      if ltb off ip.size then round else ok (off, ip, d, m)

  -- `strncpy(de.name, name, DIRSIZ); de.inum = inum;`
  abbrev pub fill_entry : ℕ → ℕ → ℕ → (ℕ → ℕ) → ℕ → ℕ
  fill_entry de name inum m =
      update (update (strncpy (de + 2) name 14 m) de (inum % 256)) (de + 1) (inum / 256 % 256)

  abbrev pub write_entry :
      ℕ → ℕ → ℕ → ℕ → Disk → ℕ × Dinode × Blocks × (ℕ → ℕ) → Result (Bool × Dinode × Disk)
  write_entry de name self inum disk (off, ip, d, m) =
      writei sb (kernel_memory (fill_entry de name inum m)) self de off 16 ip
        (record disk { blocks = d })
      >>= λ (r : Option ℕ × Dinode × Disk). ok (is_count 16 r.0, r.1, r.2)

  abbrev pub link_absent : ℕ → ℕ → ℕ → ℕ → Disk → LookedUp → Result (Bool × Dinode × Disk)
  link_absent de name self inum disk (some found, ip, d, m) =
      ok (false, ip, record disk { blocks = d })
  link_absent de name self inum disk (none, ip, d, m) =
      free_loop de ip.size 0 ip d m >>= write_entry de name self inum disk

  -- `dirlink` of the directory with the number `self`: is 0 the result? The reference to an inode that
  -- has the name already, which it gets and gives up at once, is left out.
  unfoldable pub dirlink : ℕ → ℕ → ℕ → ℕ → Dinode → Disk → (ℕ → ℕ) → Result (Bool × Dinode × Disk)
  dirlink de name self inum ip disk m =
      dirlookup de name ip disk.blocks m >>= link_absent de name self inum disk
