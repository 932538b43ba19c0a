-- ===== src/Fs/Namei/Referring.antt =====
-- kernel/fs.c: `iget` as a reference more.
use os_prioritypipes.Prelude.{
  ℕ, ◌+◌, ◌<◌, ◌≡◌, ◌≢◌, refl, sym, ap, subst, ◌∙◌, fun_ext, inl, inr, true, false, ◌==◌,
  Bool-cases, arith,
}
use os_prioritypipes.Prelude.Maps.{update}
use os_prioritypipes.Prelude.Results.{Result, Returns, returns}
use os_prioritypipes.Fs.{Superblock}
use os_prioritypipes.Fs.Itable.{Inode, Table, Inodes, iget}
use os_prioritypipes.Fs.Itable.Getting.{Unique, Got, got, full, iget-Got}
use os_prioritypipes.Fs.Namei.Holding.{Consistent, Holds, one, changed-Holds}

module _ (sb : Superblock) (s0 : Inodes) (c : Consistent sb s0.disk) (f : ℕ → ℕ) (s : Inodes)
    (h : Holds s0 f s) where
  -- One reference more, to an entry of the inode with a number.
  pub record Referred (n : ℕ) (r : ℕ × Table) : Type 0 where
    pub inum : (r.1 r.0).inum ≡ n
    pub holds : Holds s0 (λ j. f j + one r.0 j) (record s { table = r.1 })

  -- An entry that was not in use.
  recycled-Holds :
      (n i : ℕ) (t' : Table)
      → (s0.disk.inodes n).kind ≢ 0
      → (t' i).ref ≡ (s.table i).ref + 1
      → (t' i).dev ≡ 1
      → (t' i).inum ≡ n
      → (s.table i).ref ≡ 0
      → (t' i).valid ≡ false
      → ((j : ℕ) → j ≢ i → t' j ≡ s.table j)
      → Unique t'
      → Holds s0 (λ j. f j + one i j) (record s { table = t' })
  recycled-Holds n i t' kind ref dev inum unused unread others unique = record {
    disk = h.disk;
    refs = λ j. elim (Bool-cases (j == i)) [
      | inl here ↦
          let e : j ≡ i = ground (arith, here) in
          subst (λ x. (t' x).ref ≡ (s0.table x).ref + (f x + one i x)) (sym e)
            (ground (arith, ref, h.refs i))
      | inr other ↦
          let e = ap (λ (x : Inode). x.ref) (others j (ground (arith, other))) in
          ground (arith, e, h.refs j, other)
    ];
    same = λ j used. elim (Bool-cases (j == i)) [
      | inl here ↦
          let e : j ≡ i = ground (arith, here) in
          let used' : 0 < (s0.table i).ref = subst (λ x. 0 < (s0.table x).ref) e used in
          absurd (ground (arith, used', unused, h.refs i))
      | inr other ↦
          subst (λ (x : Inode). (x.dev ≡ (s0.table j).dev) × (x.inum ≡ (s0.table j).inum))
            (sym (others j (ground (arith, other)))) (h.same j used)
    ];
    unique = unique;
    coherent = record {
      device = λ j r. elim (Bool-cases (j == i)) [
        | inl here ↦ let e : j ≡ i = ground (arith, here) in subst (λ x. (t' x).dev ≡ 1) (sym e) dev
        | inr other ↦
            let e = others j (ground (arith, other)) in
            ap (λ (x : Inode). x.dev) e ∙ h.coherent.device j (subst (λ (x : Inode). 0 < x.ref) e r)
      ];
      in_use = λ j r. elim (Bool-cases (j == i)) [
        | inl here ↦
            let e : j ≡ i = ground (arith, here) in
            subst (λ x. (s.disk.inodes (t' x).inum).kind ≢ 0) (sym e)
              (subst (λ x. (s.disk.inodes x).kind ≢ 0) (sym inum)
                (subst (λ d. (d.inodes n).kind ≢ 0) (sym h.disk) kind))
        | inr other ↦
            let e = others j (ground (arith, other)) in
            subst (λ (x : Inode). (s.disk.inodes x.inum).kind ≢ 0) (sym e)
              (h.coherent.in_use j (subst (λ (x : Inode). 0 < x.ref) e r))
      ];
      read = λ j r v. elim (Bool-cases (j == i)) [
        | inl here ↦
            let e : j ≡ i = ground (arith, here) in
            let v' : (t' i).valid ≡ true = subst (λ x. (t' x).valid ≡ true) e v in
            absurd (ground (arith, v', unread))
        | inr other ↦
            let e = others j (ground (arith, other)) in
            subst (λ (x : Inode). x.info ≡ s.disk.inodes x.inum) (sym e)
              (h.coherent.read j (subst (λ (x : Inode). 0 < x.ref) e r)
                (subst (λ (x : Inode). x.valid ≡ true) e v))
      ];
    };
  }

  pub iget-Referred :
      (n e : ℕ)
      → (s0.disk.inodes n).kind ≢ 0
      → e < 50
      → (s.table e).ref ≡ 0
      → Returns (Referred n) (iget 1 n s.table)
  iget-Referred n e kind lt free = referred (iget 1 n s.table) (iget-Got 1 n s.table h.unique)
    where
      referred : (r : Result (ℕ × Table)) → Got 1 n s.table r → Returns (Referred n) r
      referred _ (full used) = absurd (ground (arith, used e lt, free))
      referred _ (got {t'} i li ref (dev, inum) (inl (this, same)) others unique) =
          let table : t' ≡ update s.table i (record (s.table i) { ref = (s.table i).ref + 1 }) =
            fun_ext λ j. elim (Bool-cases (j == i)) [
              | inl here ↦ let e : j ≡ i = ground (arith, here) in rw here (ap t' e ∙ same)
              | inr other ↦ rw other (others j (ground (arith, other)))
            ] in
          let used : 0 < (s.table i).ref = ground (arith, this) in
          returns record {
            inum = inum;
            holds =
                subst (λ x. Holds s0 (λ j. f j + one i j) (record s { table = x })) (sym table)
                  (changed-Holds s0 f s h i (record (s.table i) { ref = (s.table i).ref + 1 })
                    (λ j. f j + one i j) used refl refl (ground (arith, h.refs i))
                    (h.coherent.read i used) (λ j ne. ground (arith, ne)));
          }
      referred _ (got {t'} i li ref (dev, inum) (inr (unused, unread)) others unique) =
          returns record {
            inum = inum;
            holds = recycled-Holds n i t' kind ref dev inum unused unread others unique;
          }
