-- ===== src/Fs/Directories/LinkLookup.antt =====
-- kernel/fs.c: `dirlink` and then `dirlookup`.
use os_prioritypipes.Prelude.{
  ℕ, ◌+◌, ◌%◌, ◌≤◌, ◌<◌, ◌≡◌, ◌≢◌, sym, ap, ◌∙◌, ◌⊎◌, inl, inr, Bool, true, false, Option, none,
  some, ltb, ◌==◌, Bool-cases, arith,
}
use os_prioritypipes.Prelude.Results.{Result, ok, ◌>>=◌, Returns, returns, bind}
use os_prioritypipes.Fs.{Superblock}
use os_prioritypipes.Fs.Inodes.{Dinode}
use os_prioritypipes.Fs.Inodes.Adding.{IsSmall}
use os_prioritypipes.Fs.Contents.{Disk}
use os_prioritypipes.Fs.Contents.Bytes.{file_byte}
use os_prioritypipes.Fs.Directories.{LookedUp, dirlookup, dirlink}
use os_prioritypipes.Fs.Directories.Entries.{number_at, Named, IsEntry, IsDirectory}
use os_prioritypipes.Fs.Directories.Searching.{Answer, absent, found, dirlookup-Searched}
use os_prioritypipes.Fs.Directories.Linking.{Linked, present, no_room, linked, dirlink-Linked}

-- A lookup of the name after a link that has returned 0.
abbrev pub look_again :
    Superblock → ℕ → ℕ → (ℕ → ℕ) → Bool × Dinode × Disk → Result (Bool × Option (ℕ × ℕ))
look_again sb de name m (false, ip, disk) = ok (false, none)
look_again sb de name m (true, ip, disk) =
    dirlookup sb de name ip disk.blocks m >>= λ (r : LookedUp). ok (true, r.0)

-- The number that is found.
abbrev number_found : Option (ℕ × ℕ) → Option ℕ
number_found none = none
number_found (some (off, inum)) = some inum

-- A name that has been linked is found, with its number.
abbrev pub IsFound : ℕ → Bool × Option (ℕ × ℕ) → Type 0
IsFound inum (done, t) = done ≡ true → number_found t ≡ some inum

look_again-IsFound :
    (sb : Superblock) (de name inum : ℕ) (ip0 : Dinode) (disk0 : Disk) (m : ℕ → ℕ)
    (r : Bool × Dinode × Disk)
    → IsSmall sb
    → ip0.size ≤ 274432
    → ((x : ℕ) → m x < 256)
    → (name + 14 ≤ de) ⊎ (de + 16 ≤ name)
    → 0 < inum
    → inum < 65536
    → Linked sb de name ip0 disk0.blocks m inum r
    → Returns (IsFound inum) (look_again sb de name m r)
look_again-IsFound sb de name inum ip0 disk0 m _ small size bytes apart pos lt
      (present o hi al entry dir same) =
    returns (λ e. cc)
look_again-IsFound sb de name inum ip0 disk0 m _ small size bytes apart pos lt
      (no_room off unused why same) =
    returns (λ e. cc)
look_again-IsFound sb de name inum ip0 disk0 m (_, ip, disk) small size bytes apart pos lt
      (linked off le al unused first nowhere number named same size' dir) =
    bind (dirlookup-Searched sb de name ip disk.blocks m small dir bytes apart)
      (λ r s. returns (λ e. answered r.0 s.answer))
  where
    entry : IsEntry m name ip.addrs disk.blocks off
    entry = (ground (arith, number, pos, lt), named)

    within : off < ip.size
    within = ground (arith, size', le)

    only : (o : ℕ) → o < ip.size → o % 16 ≡ 0 → IsEntry m name ip.addrs disk.blocks o → o ≡ off
    only o hi al_o (in_use, has_name) = elim (Bool-cases (o == off)) [
      | inl this ↦ ground (arith, this)
      | inr other ↦
          let before : o < ip0.size = ground (arith, hi, size', other, al_o, al, le) in
          let at = λ (i : ℕ) (li : i < 16).
            same (o + i) (omega (arith, before, size, li, al_o)) (apart_from o i li al_o other) in
          absurd (nowhere o before al_o (old_entry o at in_use has_name))
    ]
      where
        apart_from :
            (o i : ℕ)
            → i < 16
            → o % 16 ≡ 0
            → (o == off) ≡ false
            → (o + i < off) ⊎ (off + 16 ≤ o + i)
        apart_from o i li al_o other = elim (Bool-cases (ltb o off)) [
          | inl low ↦ inl (ground (arith, low, li, al_o, al))
          | inr high ↦ inr (ground (arith, high, other, al_o, al))
        ]

        old_entry :
            (o : ℕ)
            → ((i : ℕ)
                → i < 16
                → file_byte ip.addrs disk.blocks (o + i) ≡ file_byte ip0.addrs disk0.blocks (o + i))
            → number_at ip.addrs disk.blocks o ≢ 0
            → Named m name ip.addrs disk.blocks o
            → IsEntry m name ip0.addrs disk0.blocks o
        old_entry o at in_use has_name =
            let q0 : o ≡ o + 0 = omega arith in
            let b0 =
              ap (file_byte ip.addrs disk.blocks) q0
              ∙ at 0 (omega arith)
              ∙ ap (file_byte ip0.addrs disk0.blocks) (sym q0) in
            let b1 = at 1 (omega arith) in
            (
              λ z. in_use (rw (b0, b1) z),
              λ i li nonzero. has_name i li nonzero ∙ at (2 + i) (omega (arith, li)),
            )

    answered :
        (t : Option (ℕ × ℕ)) → Answer sb de name ip disk.blocks m 0 t → number_found t ≡ some inum
    answered _ (absent none_at) = absurd (none_at off (omega arith) within al entry)
    answered _ (found o lo hi al_o this before) =
        let e = only o hi al_o this in
        ap some (ap (number_at ip.addrs disk.blocks) e ∙ ground (arith, number, lt))

-- In a directory of whole entries, each with its block, on a sound disk, and for a name that
-- does not overlap `de`, when `dirlink` returns 0 for a number that is a `ushort` and not 0,
-- `dirlookup` of the name then finds that number.
pub dirlink-dirlookup :
    (sb : Superblock) (de name self inum : ℕ) (ip : Dinode) (disk : Disk) (m : ℕ → ℕ)
    → IsSmall sb
    → IsDirectory sb ip disk.blocks
    → ((x : ℕ) → m x < 256)
    → (name + 14 ≤ de) ⊎ (de + 16 ≤ name)
    → 0 < inum
    → inum < 65536
    → Returns (IsFound inum) (dirlink sb de name self inum ip disk m >>= look_again sb de name m)
dirlink-dirlookup sb de name self inum ip disk m small dir bytes apart pos lt =
    bind (dirlink-Linked sb de name self inum ip disk m small dir bytes apart)
      (λ r l. look_again-IsFound sb de name inum ip disk m r small dir.size bytes apart pos lt l)
