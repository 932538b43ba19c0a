-- ===== src/Fs/Namei/Holding.antt =====
-- kernel/fs.c: the table of inodes while references are taken and given up.
use os_prioritypipes.Prelude.{
  ℕ, ◌+◌, ◌-◌, ◌%◌, ◌<◌, ◌≡◌, ◌≢◌, refl, sym, ap, subst, ◌∙◌, fun_ext, inl, inr, true, false, ltb,
  ◌==◌, if◌then◌else◌, Bool-cases, arith,
}
use os_prioritypipes.Prelude.Maps.{update}
use os_prioritypipes.Prelude.Results.{Returns, returns}
use os_prioritypipes.Fs.{Superblock}
use os_prioritypipes.Fs.Inodes.{Dinode}
use os_prioritypipes.Fs.Contents.{Disk}
use os_prioritypipes.Fs.Directories.Entries.{number_at, IsDirectory}
use os_prioritypipes.Fs.Itable.{Inode, Table, Inodes, idup, ilock, iput}
use os_prioritypipes.Fs.Itable.Getting.{Unique}
use os_prioritypipes.Fs.Itable.Putting.{is_last}
use os_prioritypipes.Fs.Namei.{iunlockput}

-- The inodes on the disk: each directory is one, each entry in use is of an inode in use, and each inode
-- in use has a link.
pub record Consistent (sb : Superblock) (disk : Disk) : Type 0 where
  pub directory : (n : ℕ) → (disk.inodes n).kind ≡ 1 → IsDirectory sb (disk.inodes n) disk.blocks
  pub linked : (n : ℕ) → (disk.inodes n).kind ≢ 0 → (disk.inodes n).nlink ≢ 0
  pub entries :
      (n o : ℕ)
      → (disk.inodes n).kind ≡ 1
      → o < (disk.inodes n).size
      → o % 16 ≡ 0
      → number_at (disk.inodes n).addrs disk.blocks o ≢ 0
      → (disk.inodes (number_at (disk.inodes n).addrs disk.blocks o)).kind ≢ 0
  pub root : (disk.inodes 1).kind ≢ 0

-- An entry in use is of an inode in use on device 1, and what has been read of it is what the disk has.
pub record Coherent (s : Inodes) : Type 0 where
  pub device : (j : ℕ) → 0 < (s.table j).ref → (s.table j).dev ≡ 1
  pub in_use : (j : ℕ) → 0 < (s.table j).ref → (s.disk.inodes (s.table j).inum).kind ≢ 0
  pub read :
      (j : ℕ)
      → 0 < (s.table j).ref
      → (s.table j).valid ≡ true
      → (s.table j).info ≡ s.disk.inodes (s.table j).inum

-- `s` is `s0` with `more j` further references to each entry `j`.
pub record Holds (s0 : Inodes) (more : ℕ → ℕ) (s : Inodes) : Type 0 where
  pub disk : s.disk ≡ s0.disk
  pub refs : (j : ℕ) → (s.table j).ref ≡ (s0.table j).ref + more j
  pub same :
      (j : ℕ)
      → 0 < (s0.table j).ref
      → ((s.table j).dev ≡ (s0.table j).dev) × ((s.table j).inum ≡ (s0.table j).inum)
  pub unique : Unique s.table
  pub coherent : Coherent s

-- One reference to the entry `i`.
abbrev pub one : ℕ → ℕ → ℕ
one i j = if j == i then 1 else 0

pub Holds-ext :
    (s0 : Inodes) (f g : ℕ → ℕ) (s : Inodes) → ((j : ℕ) → f j ≡ g j) → Holds s0 f s → Holds s0 g s
Holds-ext s0 f g s e h = subst (λ x. Holds s0 x s) (fun_ext e) h

-- The entry `i` has become `ip`, of the same inode.
module _ (s0 : Inodes) (f : ℕ → ℕ) (s : Inodes) (h : Holds s0 f s) (i : ℕ) (ip : Inode) where
  pub changed-Holds :
      (g : ℕ → ℕ)
      → 0 < (s.table i).ref
      → (ip.dev ≡ (s.table i).dev)
      → (ip.inum ≡ (s.table i).inum)
      → (ip.ref ≡ (s0.table i).ref + g i)
      → (ip.valid ≡ true → ip.info ≡ s.disk.inodes (s.table i).inum)
      → ((j : ℕ) → j ≢ i → g j ≡ f j)
      → Holds s0 g (record s { table = update s.table i ip })
  changed-Holds g pos dev inum count read others = record {
    disk = h.disk;
    refs = λ j. elim (Bool-cases (j == i)) [
      | inl this ↦
          let e : j ≡ i = ground (arith, this) in
          rw this (subst (λ x. ip.ref ≡ (s0.table x).ref + g x) (sym e) count)
      | inr other ↦
          rw other
            (h.refs j ∙ ap (λ x. (s0.table j).ref + x) (sym (others j (ground (arith, other)))))
    ];
    same = λ j used. let (d, n) = h.same j used in (dev_kept j ∙ d, inum_kept j ∙ n);
    unique = λ j k lj lk rj rk ed ei.
        h.unique j k lj lk (used_before j rj) (used_before k rk)
          (sym (dev_kept j) ∙ ed ∙ dev_kept k) (sym (inum_kept j) ∙ ei ∙ inum_kept k);
    coherent = record {
      device = λ j r. dev_kept j ∙ h.coherent.device j (used_before j r);
      in_use = λ j r.
          subst (λ x. (s.disk.inodes x).kind ≢ 0) (sym (inum_kept j))
            (h.coherent.in_use j (used_before j r));
      read = λ j r v. elim (Bool-cases (j == i)) [
        | inl this ↦ rw (this, inum) (read (ground (arith, v, this)))
        | inr other ↦ rw other (h.coherent.read j (used_before j r) (ground (arith, v, other)))
      ];
    };
  }
    where
      t' : Table
      t' = update s.table i ip

      at_i : (P : Inode → Type 0) (j : ℕ) → (j == i) ≡ true → P (s.table i) → P (s.table j)
      at_i P j this p = let e : j ≡ i = ground (arith, this) in subst (λ x. P (s.table x)) (sym e) p

      used_before : (j : ℕ) → 0 < (t' j).ref → 0 < (s.table j).ref
      used_before j r = elim (Bool-cases (j == i)) [
        | inl this ↦ at_i (λ x. 0 < x.ref) j this pos
        | inr other ↦ ground (arith, other, r)
      ]

      dev_kept : (j : ℕ) → (t' j).dev ≡ (s.table j).dev
      dev_kept j = elim (Bool-cases (j == i)) [
        | inl this ↦ rw this (at_i (λ x. ip.dev ≡ x.dev) j this dev)
        | inr other ↦ rw other refl
      ]

      inum_kept : (j : ℕ) → (t' j).inum ≡ (s.table j).inum
      inum_kept j = elim (Bool-cases (j == i)) [
        | inl this ↦ rw this (at_i (λ x. ip.inum ≡ x.inum) j this inum)
        | inr other ↦ rw other refl
      ]

module _ (sb : Superblock) (s0 : Inodes) (c : Consistent sb s0.disk) (f : ℕ → ℕ) (s : Inodes)
    (h : Holds s0 f s) where
  -- A reference to the entry `i` given up; the entries stay those of the same inodes.
  pub record Given (i : ℕ) (s1 : Inodes) : Type 0 where
    pub holds : Holds s0 (λ j. f j - one i j) s1
    pub inums : (j : ℕ) → (s1.table j).inum ≡ (s.table j).inum

  pub iput-Given : (i : ℕ) → 0 < f i → Returns (Given i) (iput sb i s)
  unfolding iput
  iput-Given i pos =
      let used : 0 < (s.table i).ref = ground (arith, h.refs i, pos) in
      rw (not_last used) (
        returns record {
          holds =
              changed-Holds s0 f s h i (record (s.table i) { ref = (s.table i).ref - 1 })
                (λ j. f j - one i j) used refl refl (ground (arith, h.refs i, pos))
                (h.coherent.read i used) (λ j ne. ground (arith, ne));
          inums = λ j. elim (Bool-cases (j == i)) [
            | inl this ↦
                let e : j ≡ i = ground (arith, this) in rw this (ap (λ x. (s.table x).inum) (sym e))
            | inr other ↦ rw other refl
          ];
        })
    where
      not_last : 0 < (s.table i).ref → is_last (s.table i) ≡ false
      not_last used = elim (Bool-cases (s.table i).valid) [
        | inr unread ↦ ground (arith, unread)
        | inl valid ↦
            let linked = c.linked (s.table i).inum (
              subst (λ d. (d.inodes (s.table i).inum).kind ≢ 0) h.disk
                (h.coherent.in_use i used)) in
            let info =
              h.coherent.read i used valid ∙ ap (λ (d : Disk). d.inodes (s.table i).inum) h.disk in
            let nlink = ap (λ (x : Dinode). x.nlink) info in ground (arith, linked, nlink)
      ]

  pub iunlockput-Given : (de name i : ℕ) → 0 < f i → Returns (Given i) (iunlockput sb de name i s)
  iunlockput-Given de name i pos =
      let locked : ltb (s.table i).ref 1 ≡ false = ground (arith, h.refs i, pos) in
      rw locked (iput-Given i pos)

  pub idup-Holds :
      (i : ℕ)
      → 0 < (s.table i).ref
      → Holds s0 (λ j. f j + one i j) (record s { table = idup i s.table })
  unfolding idup
  idup-Holds i used =
      changed-Holds s0 f s h i (record (s.table i) { ref = (s.table i).ref + 1 })
        (λ j. f j + one i j) used refl refl (ground (arith, h.refs i)) (h.coherent.read i used)
        (λ j ne. ground (arith, ne))

  -- The inode has been read.
  pub record Locked (i : ℕ) (s1 : Inodes) : Type 0 where
    pub holds : Holds s0 f s1
    pub info : (s1.table i).info ≡ s0.disk.inodes (s.table i).inum
    pub inum : (s1.table i).inum ≡ (s.table i).inum

  pub ilock-Locked : (i : ℕ) → 0 < f i → Returns (Locked i) (ilock i s)
  unfolding ilock
  ilock-Locked i pos =
      let used : 0 < (s.table i).ref = ground (arith, h.refs i, pos) in
      let held : ltb (s.table i).ref 1 ≡ false = ground (arith, used) in
      let on_disk = ap (λ (d : Disk). d.inodes (s.table i).inum) h.disk in
      elim (Bool-cases (s.table i).valid) [
        | inl valid ↦
            rw (held, valid)
              (returns
                record { holds = h; info = h.coherent.read i used valid ∙ on_disk; inum = refl })
        | inr unread ↦
            let there : ((s.disk.inodes (s.table i).inum).kind == 0) ≡ false =
              ground (arith, h.coherent.in_use i used) in
            let self : (i == i) ≡ true = ground arith in
            rw (held, unread, there)
              (returns record {
                holds =
                    changed-Holds s0 f s h i
                      (record (s.table i) { info = s.disk.inodes (s.table i).inum; valid = true }) f
                      used refl refl (h.refs i) (λ v. refl) (λ j ne. refl);
                info = rw self on_disk;
                inum = rw self refl;
              })
      ]
