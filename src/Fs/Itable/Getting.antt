-- ===== src/Fs/Itable/Getting.antt =====
-- kernel/fs.c: `iget`, and that the table has one entry for an inode.
use os_prioritypipes.Prelude.{
  ℕ, zero, suc, ◌+◌, ◌<◌, ◌≡◌, ◌≢◌, refl, sym, ap, subst, ◌∙◌, ◌⊎◌, inl, inr, true, false, Option,
  none, some, ◌==◌, Bool-cases, arith,
}
use os_prioritypipes.Prelude.Maps.{update}
use os_prioritypipes.Prelude.Results.{Result, ok, panic}
use os_prioritypipes.Fs.Itable.{Table, is_entry_of, remember, recycle, iget_from, iget}

-- No two entries in use are of the same inode.
abbrev pub Unique : Table → Type 0
Unique t =
    (i j : ℕ)
    → i < 50
    → j < 50
    → 0 < (t i).ref
    → 0 < (t j).ref
    → (t i).dev ≡ (t j).dev
    → (t i).inum ≡ (t j).inum
    → i ≡ j

-- What `iget` comes to: one more reference to the entry of the inode, which if there was none is an
-- entry that was not in use; or a panic, as all are in use for other inodes.
pub data Got (dev inum : ℕ) (t : Table) : Result (ℕ × Table) → Type 0 where
  got :
      {t' : Table} (i : ℕ)
      → i < 50
      → ((t' i).ref ≡ (t i).ref + 1)
      → ((t' i).dev ≡ dev) × ((t' i).inum ≡ inum)
      → ((is_entry_of dev inum (t i) ≡ true) × (t' i ≡ record (t i) { ref = (t i).ref + 1 }))
        ⊎ (((t i).ref ≡ 0) × ((t' i).valid ≡ false))
      → ((j : ℕ) → j ≢ i → t' j ≡ t j)
      → Unique t'
      → Got dev inum t (ok (i, t'))
  full :
      ((j : ℕ) → j < 50 → (0 < (t j).ref) × (is_entry_of dev inum (t j) ≡ false))
      → Got dev inum t panic

-- What is known after the entries below `i`.
abbrev Remembered : Table → ℕ → Option ℕ → Type 0
Remembered t i none = (j : ℕ) → j < i → 0 < (t j).ref
Remembered t i (some e) = (e < i) × ((t e).ref ≡ 0)

remember-Remembered :
    (t : Table) (i : ℕ) (empty : Option ℕ)
    → Remembered t i empty
    → Remembered t (i + 1) (remember empty i (t i))
remember-Remembered t i (some e) (lt, free) = (omega (arith, lt), free)
remember-Remembered t i none used = elim (Bool-cases ((t i).ref == 0)) [
  | inl free ↦ rw free (omega arith, ground (arith, free))
  | inr in_use ↦ rw in_use (λ j lt. elim (Bool-cases (j == i)) [
    | inl this ↦
        let e : j ≡ i = ground (arith, this) in
        subst (λ x. 0 < (t x).ref) (sym e) (ground (arith, in_use))
    | inr before ↦ used j (ground (arith, before, lt))
  ])
]

module _ (dev inum : ℕ) (t : Table) (unique : Unique t) where
  shared-Got :
      (i : ℕ)
      → i < 50
      → is_entry_of dev inum (t i) ≡ true
      → Got dev inum t (ok (i, update t i (record (t i) { ref = (t i).ref + 1 })))
  shared-Got i lt this =
      got i lt (ground arith) (ground (arith, this), ground (arith, this)) (inl (this, self i))
        (λ j ne. ground (arith, ne))
        (λ j k lj lk rj rk ed ei.
          unique j k lj lk (before j rj) (before k rk) (sym (dev_kept j) ∙ ed ∙ dev_kept k)
            (sym (inum_kept j) ∙ ei ∙ inum_kept k))
    where
      t' : Table
      t' = update t i (record (t i) { ref = (t i).ref + 1 })

      self :
          (i : ℕ)
          → update t i (record (t i) { ref = (t i).ref + 1 }) i
            ≡ record (t i) { ref = (t i).ref + 1 }
      self i = let e : (i == i) ≡ true = ground arith in rw e refl

      before : (j : ℕ) → 0 < (t' j).ref → 0 < (t j).ref
      before j r = elim (Bool-cases (j == i)) [
        | inl here ↦
            let e : j ≡ i = ground (arith, here) in
            subst (λ x. 0 < (t x).ref) (sym e) (ground (arith, this))
        | inr other ↦ ground (arith, other, r)
      ]

      dev_kept : (j : ℕ) → (t' j).dev ≡ (t j).dev
      dev_kept j = elim (Bool-cases (j == i)) [
        | inl here ↦ let e : j ≡ i = ground (arith, here) in rw here (ap (λ x. (t x).dev) (sym e))
        | inr other ↦ rw other refl
      ]

      inum_kept : (j : ℕ) → (t' j).inum ≡ (t j).inum
      inum_kept j = elim (Bool-cases (j == i)) [
        | inl here ↦ let e : j ≡ i = ground (arith, here) in rw here (ap (λ x. (t x).inum) (sym e))
        | inr other ↦ rw other refl
      ]

  recycle-Got :
      (empty : Option ℕ)
      → Remembered t 50 empty
      → ((j : ℕ) → j < 50 → is_entry_of dev inum (t j) ≡ false)
      → Got dev inum t (recycle dev inum empty t)
  recycle-Got none used missing = full (λ j lt. (used j lt, missing j lt))
  recycle-Got (some e) (lt, free) missing =
      got e lt (ground (arith, free)) (ground arith, ground arith) (inr (free, ground arith))
        (λ j ne. ground (arith, ne)) only
    where
      t' : Table
      t' = update t e (record (t e) { dev = dev; inum = inum; ref = 1; valid = false })

      only : Unique t'
      only j k lj lk rj rk ed ei = elim (Bool-cases (j == e)) [
        | inl jj ↦ elim (Bool-cases (k == e)) [
          | inl kk ↦ ground (arith, jj, kk)
          | inr kk ↦ absurd (ground (arith, jj, kk, rk, ed, ei, missing k lk))
        ]
        | inr jj ↦ elim (Bool-cases (k == e)) [
          | inl kk ↦ absurd (ground (arith, jj, kk, rj, ed, ei, missing j lj))
          | inr kk ↦
              unique j k lj lk (ground (arith, jj, rj)) (ground (arith, kk, rk))
                (ground (arith, jj, kk, ed)) (ground (arith, jj, kk, ei))
        ]
      ]

  iget_from-Got :
      (rounds i : ℕ) (empty : Option ℕ)
      → i + rounds ≡ 50
      → Remembered t i empty
      → ((j : ℕ) → j < i → is_entry_of dev inum (t j) ≡ false)
      → Got dev inum t (iget_from rounds i empty dev inum t)
  unfolding iget_from
  iget_from-Got zero i empty end known missing =
      let e : i ≡ 50 = omega (arith, end) in
      recycle-Got empty (subst (λ x. Remembered t x empty) e known)
        (λ j lt. missing j (omega (arith, lt, e)))
  iget_from-Got (suc rounds) i empty end known missing =
      elim (Bool-cases (is_entry_of dev inum (t i))) [
        | inl this ↦ rw this (shared-Got i (omega (arith, end)) this)
        | inr other ↦ rw other (
            iget_from-Got rounds (i + 1) (remember empty i (t i)) (omega (arith, end))
              (remember-Remembered t i empty known)
              (λ j lt. elim (Bool-cases (j == i)) [
                | inl here ↦
                    let e : j ≡ i = ground (arith, here) in
                    subst (λ x. is_entry_of dev inum (t x) ≡ false) (sym e) other
                | inr before ↦ missing j (ground (arith, before, lt))
              ]))
      ]

-- In a table where no two entries in use are of the same inode, `iget` returns the entry of the
-- inode with one reference more, or makes an entry that was not in use its entry, to be read
-- from the disk yet; no other entry changes, and again no two entries in use are of the same
-- inode. It panics only if all entries are in use for other inodes.
pub iget-Got : (dev inum : ℕ) (t : Table) → Unique t → Got dev inum t (iget dev inum t)
unfolding iget
iget-Got dev inum t unique =
    iget_from-Got dev inum t unique 50 0 none refl (λ j lt. absurd (omega (arith, lt)))
      (λ j lt. absurd (omega (arith, lt)))
