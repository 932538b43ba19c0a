-- ===== src/Fs/Directories/Unmoved.antt =====
-- kernel/fs.c: `dirlookup` leaves the directory and the disk as they are.
use os_prioritypipes.Prelude.{
  ℕ, zero, suc, ◌+◌, ◌≤◌, ◌<◌, ◌≡◌, ◌⊎◌, refl, inl, inr, true, Option, ltb, ◌==◌, Bool-cases, arith,
}
use os_prioritypipes.Prelude.Results.{Result, ok, panic, ◌>>=◌, Returns, returns}
use os_prioritypipes.Fs.{Superblock, Blocks}
use os_prioritypipes.Fs.Inodes.{Dinode}
use os_prioritypipes.Fs.Inodes.Adding.{IsSmall}
use os_prioritypipes.Fs.Contents.{BytesRead}
use os_prioritypipes.Fs.Contents.Filled.{Unchanged, unchanged, readi-Unchanged}
use os_prioritypipes.Fs.Directories.{
  t_dir, kernel_memory, same_name, is_count, entry_number, LookedUp, check_entry, lookup_loop,
  dirlookup,
}
use os_prioritypipes.Fs.Directories.Entries.{IsDirectory}
use os_prioritypipes.Fs.Directories.Searching.{Searched, dirlookup-Searched}

data Unmoved (ip : Dinode) (d : Blocks) : Result LookedUp → Type 0 where
  unmoved : {t : Option (ℕ × ℕ)} {m : ℕ → ℕ} → Unmoved ip d (ok (t, ip, d, m))
  broken : Unmoved ip d panic

module _ (sb : Superblock) (de name : ℕ) (ip : Dinode) (d : Blocks)
    (dir : IsDirectory sb ip d) where
  entry-Unmoved :
      (more : Dinode → Blocks → (ℕ → ℕ) → Result LookedUp) (off : ℕ) (r : Result BytesRead)
      → ((m : ℕ → ℕ) → Unmoved ip d (more ip d m))
      → Unchanged ip d r
      → Unmoved ip d (r >>= check_entry more de name off)
  entry-Unmoved more off _ next (unchanged {count} {to}) = elim (Bool-cases (is_count 16 count)) [
    | inr short ↦ rw short broken
    | inl whole ↦ elim (Bool-cases (entry_number de to == 0)) [
      | inl unused ↦ rw (whole, unused) (next to)
      | inr in_use ↦ elim (Bool-cases (same_name name (de + 2) to)) [
        | inl this ↦ rw (whole, in_use, this) unmoved
        | inr other ↦ rw (whole, in_use, other) (next to)
      ]
    ]
  ]

  lookup_loop-Unmoved :
      (rounds off : ℕ) (m : ℕ → ℕ) → Unmoved ip d (lookup_loop sb de name rounds off ip d m)
  unfolding lookup_loop
  lookup_loop-Unmoved zero off m = unmoved
  lookup_loop-Unmoved (suc rounds) off m = elim (Bool-cases (ltb off ip.size)) [
    | inr over ↦ rw over unmoved
    | inl more ↦ rw more (
        entry-Unmoved (lookup_loop sb de name rounds (off + 16)) off _
          (λ m1. lookup_loop-Unmoved rounds (off + 16) m1)
          (readi-Unchanged sb (kernel_memory m) de off 16 ip d dir.size dir.has))
  ]

  dirlookup-Unmoved : (m : ℕ → ℕ) → Unmoved ip d (dirlookup sb de name ip d m)
  unfolding dirlookup
  dirlookup-Unmoved m =
      let is_dir : (ip.kind == t_dir) ≡ true = ground (arith, dir.kind) in
      rw is_dir (lookup_loop-Unmoved ip.size 0 m)

  kept_too :
      (P : LookedUp → Type 0) (r : Result LookedUp)
      → Returns P r
      → Unmoved ip d r
      → Returns (λ l. P l × (l.1 ≡ ip) × (l.2 ≡ d)) r
  kept_too P _ (returns p) unmoved = returns (p, refl, refl)

  pub dirlookup-Kept :
      (m : ℕ → ℕ)
      → IsSmall sb
      → ((x : ℕ) → m x < 256)
      → (name + 14 ≤ de) ⊎ (de + 16 ≤ name)
      → Returns
          (λ l. Searched sb de name ip d m 0 l × (l.1 ≡ ip) × (l.2 ≡ d))
          (dirlookup sb de name ip d m)
  dirlookup-Kept m small bytes apart =
      kept_too (Searched sb de name ip d m 0) (dirlookup sb de name ip d m)
        (dirlookup-Searched sb de name ip d m small dir bytes apart) (dirlookup-Unmoved m)
