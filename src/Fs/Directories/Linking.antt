-- ===== src/Fs/Directories/Linking.antt =====
-- kernel/fs.c: what `dirlink` does to the entries of a directory.
use os_prioritypipes.Prelude.{
  ℕ, ◌+◌, ◌-◌, ◌%◌, ◌≤◌, ◌<◌, ◌≡◌, ◌≢◌, refl, sym, ap, ◌∙◌, ◌⊎◌, inl, inr, Bool, true, false,
  Option, ltb, ◌==◌, if◌then◌else◌, Bool-cases, arith,
}
use os_prioritypipes.Prelude.Results.{Returns, returns, bind}
use os_prioritypipes.Fs.{Superblock, Blocks, is_free}
use os_prioritypipes.Fs.Inodes.{Dinode}
use os_prioritypipes.Fs.Inodes.Adding.{IsSmall}
use os_prioritypipes.Fs.Contents.{Disk}
use os_prioritypipes.Fs.Contents.Bytes.{file_byte}
use os_prioritypipes.Fs.Contents.WriteRounds.{Stop, done, no_block, no_page}
use os_prioritypipes.Fs.Contents.Writing.{WriteResult, refused, wrote, writei-WriteResult}
use os_prioritypipes.Fs.Directories.{
  kernel_memory, is_count, LookedUp, fill_entry, write_entry, link_absent, dirlink,
}
use os_prioritypipes.Fs.Directories.Entries.{
  number_at, Named, IsEntry, IsDirectory, kernel-IsMemory,
}
use os_prioritypipes.Fs.Directories.Searching.{Answer, absent, found, Searched, dirlookup-Searched}
use os_prioritypipes.Fs.Directories.Filling.{fill_number, fill_name, fill_small}
use os_prioritypipes.Fs.Directories.Places.{Freed, free_loop-Freed}

module _ (sb : Superblock) (de name : ℕ) (ip0 : Dinode) (d0 : Blocks) (m0 : ℕ → ℕ) where
  -- What `dirlink` comes to. The new entry is put where none was in use, with the number and the name,
  -- and every other entry keeps its bytes.
  pub data Linked (inum : ℕ) : Bool × Dinode × Disk → Type 0 where
    present :
        {ip : Dinode} {disk : Disk} (o : ℕ)
        → o < ip0.size
        → o % 16 ≡ 0
        → IsEntry m0 name ip0.addrs d0 o
        → IsDirectory sb ip disk.blocks
        → ((x : ℕ) → x < 274432 → file_byte ip.addrs disk.blocks x ≡ file_byte ip0.addrs d0 x)
        → Linked inum (false, ip, disk)
    no_room :
        {ip : Dinode} {disk : Disk} (off : ℕ)
        → (off < ip0.size → number_at ip0.addrs d0 off ≡ 0)
        → (274432 < off + 16) ⊎ ((c : ℕ) → c < sb.size → is_free sb disk.blocks c ≡ false)
        → ((x : ℕ)
            → x < 274432
            → (x < off) ⊎ (off + 16 ≤ x)
            → file_byte ip.addrs disk.blocks x ≡ file_byte ip0.addrs d0 x)
        → Linked inum (false, ip, disk)
    linked :
        {ip : Dinode} {disk : Disk} (off : ℕ)
        → off ≤ ip0.size
        → off % 16 ≡ 0
        → (off < ip0.size → number_at ip0.addrs d0 off ≡ 0)
        → ((o : ℕ) → o < off → o % 16 ≡ 0 → number_at ip0.addrs d0 o ≢ 0)
        → ((o : ℕ) → o < ip0.size → o % 16 ≡ 0 → ¬ IsEntry m0 name ip0.addrs d0 o)
        → (number_at ip.addrs disk.blocks off ≡ inum % 65536)
        → Named m0 name ip.addrs disk.blocks off
        → ((x : ℕ)
            → x < 274432
            → (x < off) ⊎ (off + 16 ≤ x)
            → file_byte ip.addrs disk.blocks x ≡ file_byte ip0.addrs d0 x)
        → (ip.size ≡ (if ltb ip0.size (off + 16) then off + 16 else ip0.size))
        → IsDirectory sb ip disk.blocks
        → Linked inum (true, ip, disk)

  write_entry-Linked :
      (self inum : ℕ) (disk : Disk) (r : ℕ × Dinode × Blocks × (ℕ → ℕ))
      → IsSmall sb
      → (name + 14 ≤ de) ⊎ (de + 16 ≤ name)
      → ((o : ℕ) → o < ip0.size → o % 16 ≡ 0 → ¬ IsEntry m0 name ip0.addrs d0 o)
      → Freed sb de name ip0 d0 m0 0 r
      → Returns (Linked inum) (write_entry sb de name self inum disk r)
  write_entry-Linked self inum disk (off, ip, d, m) small apart nowhere f =
      let dir = f.view.directory in
      bind
        (writei-WriteResult sb (kernel_memory fill) self de off 16 ip (record disk { blocks = d })
          small (kernel-IsMemory fill (fill_small sb de name inum m apart f.view.small)) dir.size
          (omega arith) dir.sound dir.owns)
        (λ r w. returns (entry r w))
    where
      fill : ℕ → ℕ
      fill = fill_entry sb de name inum m

      kept_size : ip.size ≡ ip0.size
      kept_size = ap (λ (x : Dinode). x.size) f.view.rest

      name_kept : (i : ℕ) → i < 14 → m (name + i) ≡ m0 (name + i)
      name_kept i lt = f.view.beyond (name + i) (outside i lt)
        where
          outside : (i : ℕ) → i < 14 → (name + i < de) ⊎ (de + 16 ≤ name + i)
          outside i lt = elim apart [
            | inl lo ↦ inl (omega (arith, lo, lt))
            | inr hi ↦ inr (omega (arith, hi))
          ]

      too_large :
          (ip.size < off) ⊎ (274432 < off + 16)
          → (274432 < off + 16) ⊎ ((c : ℕ) → c < sb.size → is_free sb d c ≡ false)
      too_large (inl behind) = absurd (omega (arith, behind, f.within, kept_size))
      too_large (inr large) = inl large

      stopped :
          (k : ℕ) (a : ℕ → ℕ) (d1 : Blocks)
          → (k == 16) ≡ false
          → Stop sb (kernel_memory fill) (de + k) (off + k) k 16 a d1
          → (c : ℕ) → c < sb.size
          → is_free sb d1 c ≡ false
      stopped k a d1 short (done e) c lt = absurd (ground (arith, e, short))
      stopped k a d1 short (no_block lt0 missing none_free) c lt = none_free c lt
      stopped k a d1 short (no_page lt0 ne) c lt = absurd (ne refl)

      entry :
          (r : Option ℕ × Dinode × Disk)
          → WriteResult sb (kernel_memory fill) self de off 16 ip (record disk { blocks = d }) r
          → Linked inum (is_count 16 r.0, r.1, r.2)
      entry _ (refused why) = no_room off f.unused (too_large why) (λ x lo out. f.view.same x lo)
      entry (_, ip1, disk1) (wrote k le room sound owns inode table has new old why) =
          elim (Bool-cases (k == 16)) [
            | inr short ↦ rw short (
                no_room off f.unused (inr (stopped k ip1.addrs disk1.blocks short why))
                  (λ x lo out. old x lo out ∙ f.view.same x lo))
            | inl full ↦
                let e : k ≡ 16 = ground (arith, full) in
                let size : ip1.size ≡ (if ltb ip.size (off + k) then off + k else ip.size) =
                  ap (λ (x : Dinode). x.size) inode in
                let size' : ip1.size ≡ (if ltb ip0.size (off + 16) then off + 16 else ip0.size) =
                  size ∙ rw (kept_size, e) refl in
                let at : (i : ℕ)
                    → i < 16
                    → file_byte ip1.addrs disk1.blocks (off + i) ≡ fill (de + i) =
                  λ i lt.
                    let place : off + i - off ≡ i = omega arith in
                    new (off + i) (omega arith) (omega (arith, lt, e))
                    ∙ ap (λ x. fill (de + x)) place in
                let dir = f.view.directory in
                rw full (
                  linked off f.within f.aligned f.unused
                    (λ o lo al_o. f.before o (omega arith) lo al_o) nowhere (number ip1 disk1 at)
                    (λ i lt nonzero.
                      sym (name_kept i lt)
                      ∙ fill_name sb de name inum m apart i lt
                          (λ j lj z. nonzero j lj (sym (name_kept j (omega (arith, lj, lt))) ∙ z))
                      ∙ sym (at (2 + i) (omega (arith, lt))))
                    (λ x lo out. old x lo out ∙ f.view.same x lo) size'
                    record {
                      kind = ap (λ (x : Dinode). x.kind) inode ∙ dir.kind;
                      size = ground (arith, size, dir.size, room, e);
                      whole = ground (arith, size', f.aligned, dir.whole, kept_size);
                      has = λ o lt.
                          has o (ground (arith, lt, size, dir.size, room, e))
                            (elim (Bool-cases (ltb o off)) [
                              | inl low ↦ inl (dir.has o (ground (arith, low, f.within, kept_size)))
                              | inr high ↦ elim (Bool-cases (ltb o (off + 16))) [
                                | inl this ↦ inr (ground (arith, high), ground (arith, this, e))
                                | inr later ↦
                                    inl (dir.has o (ground (arith, later, lt, size', kept_size)))
                              ]
                            ]);
                      sound = sound;
                      owns = owns;
                    })
          ]
        where
          number :
              (ip1 : Dinode) (disk1 : Disk)
              → ((i : ℕ) → i < 16 → file_byte ip1.addrs disk1.blocks (off + i) ≡ fill (de + i))
              → number_at ip1.addrs disk1.blocks off ≡ inum % 65536
          number ip1 disk1 at =
              let p0 : de + 0 ≡ de = omega arith in
              let q0 : off ≡ off + 0 = omega arith in
              let b0 = ap (file_byte ip1.addrs disk1.blocks) q0 ∙ at 0 (omega arith) ∙ ap fill p0 in
              let b1 = at 1 (omega arith) in rw (b0, b1) (fill_number sb de name inum m apart)

  -- After the lookup: a name that is there is not linked again.
  absent-Linked :
      (self inum : ℕ) (disk : Disk) (r : LookedUp)
      → IsSmall sb
      → (name + 14 ≤ de) ⊎ (de + 16 ≤ name)
      → Searched sb de name ip0 d0 m0 0 r
      → Returns (Linked inum) (link_absent sb de name self inum disk r)
  absent-Linked self inum disk (t, ip, d, m) small apart s = linked_or_not t s.answer
    where
      linked_or_not :
          (t : Option (ℕ × ℕ))
          → Answer sb de name ip0 d0 m0 0 t
          → Returns (Linked inum) (link_absent sb de name self inum disk (t, ip, d, m))
      linked_or_not _ (found o lo hi al entry before) =
          returns (present o hi al entry s.view.directory s.view.same)
      linked_or_not _ (absent nowhere) =
          bind
            (free_loop-Freed sb de name ip0 d0 m0 ip.size 0 ip d m small refl (omega arith)
              (ground (arith, ap (λ (x : Dinode). x.size) s.view.rest)) s.view)
            (λ r f.
              write_entry-Linked self inum disk r small apart
                (λ o hi al. nowhere o (omega arith) hi al) f)

pub dirlink-Linked :
    (sb : Superblock) (de name self inum : ℕ) (ip : Dinode) (disk : Disk) (m : ℕ → ℕ)
    → IsSmall sb
    → IsDirectory sb ip disk.blocks
    → ((x : ℕ) → m x < 256)
    → (name + 14 ≤ de) ⊎ (de + 16 ≤ name)
    → Returns (Linked sb de name ip disk.blocks m inum) (dirlink sb de name self inum ip disk m)
unfolding dirlink
dirlink-Linked sb de name self inum ip disk m small dir bytes apart =
    bind (dirlookup-Searched sb de name ip disk.blocks m small dir bytes apart)
      (λ r s. absent-Linked sb de name ip disk.blocks m self inum disk r small apart s)
