-- ===== src/Fs/Itable/Allocating.antt =====
-- kernel/fs.c: `ialloc`, which finds an inode that is free on the disk.
use os_prioritypipes.Prelude.{
  ℕ, zero, suc, ◌+◌, ◌≤◌, ◌<◌, ◌≡◌, ◌≢◌, refl, sym, subst, inl, inr, Option, none, some, ltb, ◌==◌,
  Bool-cases, arith,
}
use os_prioritypipes.Prelude.Maps.{update}
use os_prioritypipes.Prelude.Results.{Result, ok, panic, ◌>>=◌}
use os_prioritypipes.Fs.{Superblock}
use os_prioritypipes.Fs.Itable.{Table, Inodes, new_dinode, iget, ialloc_from, ialloc}
use os_prioritypipes.Fs.Itable.Getting.{Unique, Got, iget-Got}

-- What `ialloc` comes to, from a number on: the first inode that is free on the disk, which has the type
-- there now, and a reference to it; nothing if none is free; a panic if the table is full.
pub data Taken (sb : Superblock) (from dev kind : ℕ) (s : Inodes)
    : Result (Option ℕ × Inodes) → Type 0 where
  nothing :
      ((n : ℕ) → from ≤ n → n < sb.ninodes → (s.disk.inodes n).kind ≢ 0)
      → Taken sb from dev kind s (ok (none, s))
  taken :
      {s' : Inodes} (n i : ℕ)
      → from ≤ n
      → n < sb.ninodes
      → ((s.disk.inodes n).kind ≡ 0)
      → ((k : ℕ) → from ≤ k → k < n → (s.disk.inodes k).kind ≢ 0)
      → (s'.disk ≡ record s.disk { inodes = update s.disk.inodes n (new_dinode kind) })
      → Got dev n s.table (ok (i, s'.table))
      → Taken sb from dev kind s (ok (some i, s'))
  table_full :
      (n : ℕ)
      → ((s.disk.inodes n).kind ≡ 0)
      → Got dev n s.table panic
      → Taken sb from dev kind s panic

module _ (sb : Superblock) (dev kind : ℕ) (s : Inodes) (unique : Unique s.table) where
  this-Taken :
      (n : ℕ) (r : Result (ℕ × Table))
      → n < sb.ninodes
      → (s.disk.inodes n).kind ≡ 0
      → Got dev n s.table r
      → Taken sb n dev kind s (
          r >>= λ (q : ℕ × Table). ok (
            some q.0,
            record {
              table = q.1;
              disk = record s.disk { inodes = update s.disk.inodes n (new_dinode kind) };
            },
          ))
  this-Taken n panic lt free g = table_full n free g
  this-Taken n (ok (i, t1)) lt free g =
      taken n i (omega arith) lt free (λ k lo hi. absurd (omega (arith, lo, hi))) refl g

  later-Taken :
      (n : ℕ) (r : Result (Option ℕ × Inodes))
      → (s.disk.inodes n).kind ≢ 0
      → Taken sb (n + 1) dev kind s r
      → Taken sb n dev kind s r
  later-Taken n r in_use t = more r t
    where
      passed :
          (k : ℕ) → n ≤ k → ((n + 1 ≤ k) → (s.disk.inodes k).kind ≢ 0) → (s.disk.inodes k).kind ≢ 0
      passed k lo later = elim (Bool-cases (k == n)) [
        | inl here ↦
            let e : k ≡ n = ground (arith, here) in
            subst (λ x. (s.disk.inodes x).kind ≢ 0) (sym e) in_use
        | inr other ↦ later (ground (arith, lo, other))
      ]

      more :
          (r : Result (Option ℕ × Inodes)) → Taken sb (n + 1) dev kind s r → Taken sb n dev kind s r
      more _ (nothing all) = nothing (λ k lo hi. passed k lo (λ lo1. all k lo1 hi))
      more _ (taken k i lo hi free before disk g) =
          taken k i (omega (arith, lo)) hi free
            (λ x lo' hi'. passed x lo' (λ lo1. before x lo1 hi')) disk g
      more _ (table_full k free g) = table_full k free g

  ialloc_from-Taken :
      (rounds n : ℕ)
      → sb.ninodes ≤ n + rounds
      → Taken sb n dev kind s (ialloc_from sb rounds n dev kind s)
  unfolding ialloc_from
  ialloc_from-Taken zero n enough = nothing (λ k lo hi. absurd (omega (arith, lo, hi, enough)))
  ialloc_from-Taken (suc rounds) n enough = elim (Bool-cases (ltb n sb.ninodes)) [
    | inr over ↦ rw over (nothing (λ k lo hi. absurd (ground (arith, over, lo, hi))))
    | inl within ↦ elim (Bool-cases ((s.disk.inodes n).kind == 0)) [
      | inl free ↦
          rw (within, free)
            (this-Taken n (iget dev n s.table) (ground (arith, within)) (ground (arith, free))
              (iget-Got dev n s.table unique))
      | inr in_use ↦
          rw (within, in_use)
            (later-Taken n (ialloc_from sb rounds (n + 1) dev kind s) (ground (arith, in_use))
              (ialloc_from-Taken rounds (n + 1) (omega (arith, enough))))
    ]
  ]

-- `ialloc` takes the first inode from number 1 on that is free on the disk: it gets the type there, and
-- nothing else, and one entry of the table has a reference to it. It returns nothing only if
-- none is free, and then nothing has changed, and panics only if the table is full.
pub ialloc-Taken :
    (sb : Superblock) (dev kind : ℕ) (s : Inodes)
    → Unique s.table
    → Taken sb 1 dev kind s (ialloc sb dev kind s)
unfolding ialloc
ialloc-Taken sb dev kind s unique =
    ialloc_from-Taken sb dev kind s unique sb.ninodes 1 (omega arith)
