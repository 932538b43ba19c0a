-- ===== src/Fs/Namei/Looking.antt =====
-- kernel/fs.c: the lookup of a name in a round of `namex`.
use os_prioritypipes.Prelude.{
  ℕ, ◌+◌, ◌%◌, ◌≤◌, ◌<◌, ◌≡◌, ◌≢◌, refl, sym, ap, ◌∙◌, fun_ext, ◌⊎◌, inl, inr, Option, none, some,
  List, length, ◌==◌, Bool-cases, arith,
}
use os_prioritypipes.Prelude.Maps.{update}
use os_prioritypipes.Prelude.Results.{ok, ◌>>=◌, Returns, returns, bind}
use os_prioritypipes.Fs.{Superblock, Blocks}
use os_prioritypipes.Fs.Inodes.{Dinode}
use os_prioritypipes.Fs.Inodes.Adding.{IsSmall}
use os_prioritypipes.Fs.Contents.{Disk}
use os_prioritypipes.Fs.Directories.{dirlookup}
use os_prioritypipes.Fs.Directories.Entries.{number_at}
use os_prioritypipes.Fs.Directories.Searching.{Answer, absent, found, Searched}
use os_prioritypipes.Fs.Directories.Unmoved.{dirlookup-Kept}
use os_prioritypipes.Fs.Paths.Skipping.{AreChars}
use os_prioritypipes.Fs.Itable.{Table, Inodes, iget}
use os_prioritypipes.Fs.Namei.{store_name, found_at}
use os_prioritypipes.Fs.Namei.Names.{Named-NamedBy, NamedBy-Named, store_name_small}
use os_prioritypipes.Fs.Namei.Holding.{Consistent, Holds, one}
use os_prioritypipes.Fs.Namei.Referring.{iget-Referred}
use os_prioritypipes.Fs.Namei.Tree.{Names}

same_inodes :
    (s : Inodes) (i : ℕ) (info : Dinode) (d : Blocks)
    → info ≡ (s.table i).info
    → d ≡ s.disk.blocks
    → record s {
      table = update s.table i (record (s.table i) { info = info });
      disk = record s.disk { blocks = d };
    }
      ≡ s
same_inodes s i info d e b =
    rw (e, b)
      (ap (λ (t : Table). record s { table = t })
        (fun_ext λ j. elim (Bool-cases (j == i)) [
          | inl this ↦ let same : j ≡ i = ground (arith, this) in rw this (ap s.table (sym same))
          | inr other ↦ rw other refl
        ]))

-- What the lookup of a name in the directory with the number `n` leaves: a reference to the entry of the
-- inode that was found, or nothing.
pub data Looked (s0 : Inodes) (n : ℕ) (cs : List ℕ) (i : ℕ)
    : Option ℕ × Inodes × (ℕ → ℕ) → Type 0 where
  nowhere :
      {s : Inodes} {m : ℕ → ℕ}
      → Holds s0 (one i) s
      → ((o : ℕ) → o < (s0.disk.inodes n).size → o % 16 ≡ 0 → ¬ Names cs s0.disk n o)
      → Looked s0 n cs i (none, s, m)
  entered :
      {s : Inodes} {m : ℕ → ℕ} (k o : ℕ)
      → Holds s0 (λ j. one i j + one k j) s
      → (s.table k).inum ≡ number_at (s0.disk.inodes n).addrs s0.disk.blocks o
      → o < (s0.disk.inodes n).size
      → o % 16 ≡ 0
      → Names cs s0.disk n o
      → ((o' : ℕ) → o' < o → o' % 16 ≡ 0 → ¬ Names cs s0.disk n o')
      → ((x : ℕ) → m x < 256)
      → Looked s0 n cs i (some k, s, m)

-- Two entries of the table are not in use.
pub record Room (s0 : Inodes) : Type 0 where
  pub first : ℕ
  pub second : ℕ
  pub apart : first ≢ second
  pub first_lt : first < 50
  pub second_lt : second < 50
  pub first_free : (s0.table first).ref ≡ 0
  pub second_free : (s0.table second).ref ≡ 0

-- While there is one reference more, an entry is not in use.
free_entry :
    (s0 : Inodes) (i : ℕ) (s : Inodes)
    → Room s0
    → Holds s0 (one i) s
    → (e : ℕ) × (e < 50) × ((s.table e).ref ≡ 0)
free_entry s0 i s room h = elim (Bool-cases (room.first == i)) [
  | inr other ↦
      (room.first, room.first_lt, ground (arith, h.refs room.first, room.first_free, other))
  | inl this ↦ (
    room.second,
    room.second_lt,
    ground (arith, h.refs room.second, room.second_free, this, room.apart),
  )
]

module _ (sb : Superblock) (de name : ℕ) (s0 : Inodes) (c : Consistent sb s0.disk) (room : Room s0)
    (i n : ℕ) (cs : List ℕ) (short : length cs ≤ 14) (m0 : ℕ → ℕ) (s : Inodes)
    (h : Holds s0 (one i) s) (is_dir : (s0.disk.inodes n).kind ≡ 1) where
  got_inode :
      (o : ℕ) (m : ℕ → ℕ) (s1 : Inodes)
      → s1 ≡ s
      → o < (s0.disk.inodes n).size
      → o % 16 ≡ 0
      → Names cs s0.disk n o
      → ((o' : ℕ) → o' < o → o' % 16 ≡ 0 → ¬ Names cs s0.disk n o')
      → ((x : ℕ) → m x < 256)
      → Returns (Looked s0 n cs i) (
          iget (s.table i).dev (number_at (s0.disk.inodes n).addrs s0.disk.blocks o) s1.table
          >>= λ (r : ℕ × Table). ok (some r.0, record s1 { table = r.1 }, m))
  got_inode o m s1 e lo al named before small =
      let used : 0 < (s.table i).ref = ground (arith, h.refs i) in
      let number = number_at (s0.disk.inodes n).addrs s0.disk.blocks o in
      let (free, lt, unused) = free_entry s0 i s room h in
      rw (e, h.coherent.device i used)
        (bind
          (iget-Referred sb s0 c (one i) s h number free (c.entries n o is_dir lo al named.0) lt
            unused)
          (λ r q. returns (entered r.0 o q.holds q.inum lo al named before small)))

  found_at-Looked :
      (t : Option (ℕ × ℕ)) (info : Dinode) (d : Blocks) (m : ℕ → ℕ)
      → info ≡ (s.table i).info
      → d ≡ s.disk.blocks
      → Answer sb de name (s0.disk.inodes n) s0.disk.blocks (store_name name cs m0) 0 t
      → ((x : ℕ) → m x < 256)
      → Returns (Looked s0 n cs i) (found_at i s (t, info, d, m))
  found_at-Looked _ info d m e b (absent missing) small = rw (same_inodes s i info d e b) (
      returns (
        nowhere h (λ o lo al named. missing o (omega arith) lo al (
          named.0,
          NamedBy-Named name cs m0 short (s0.disk.inodes n).addrs s0.disk.blocks o named.1,
        ))))
  found_at-Looked _ info d m e b (found o from lo al entry before) small =
      got_inode o m _ (same_inodes s i info d e b) lo al
        (entry.0, Named-NamedBy name cs m0 short (s0.disk.inodes n).addrs s0.disk.blocks o entry.1)
        (λ o' lt al' named. before o' (omega arith) lt al' (
          named.0,
          NamedBy-Named name cs m0 short (s0.disk.inodes n).addrs s0.disk.blocks o' named.1,
        ))
        small

  pub look-Looked :
      IsSmall sb
      → (name + 14 ≤ de) ⊎ (de + 16 ≤ name)
      → AreChars cs
      → ((x : ℕ) → m0 x < 256)
      → (s.table i).info ≡ s0.disk.inodes n
      → Returns (Looked s0 n cs i) (
          dirlookup sb de name (s.table i).info s.disk.blocks (store_name name cs m0)
          >>= found_at i s)
  look-Looked small apart chars bytes info =
      let d : s.disk.blocks ≡ s0.disk.blocks = ap (λ (x : Disk). x.blocks) h.disk in
      bind looked (λ l (q, e, b).
        found_at-Looked l.0 l.1 l.2 l.3 (e ∙ sym info) (b ∙ sym d) q.answer q.view.small)
    where
      looked :
          Returns
            (λ l.
              Searched sb de name (s0.disk.inodes n) s0.disk.blocks (store_name name cs m0) 0 l
              × (l.1 ≡ s0.disk.inodes n)
              × (l.2 ≡ s0.disk.blocks))
            (dirlookup sb de name (s.table i).info s.disk.blocks (store_name name cs m0))
      looked =
          rw (info, ap (λ (x : Disk). x.blocks) h.disk)
            (dirlookup-Kept sb de name (s0.disk.inodes n) s0.disk.blocks (c.directory n is_dir)
              (store_name name cs m0) small (store_name_small name cs m0 chars bytes) apart)
