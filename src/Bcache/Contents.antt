-- ===== src/Bcache/Contents.antt =====
-- kernel/bio.c: the contents of the buffers against the disk.
use os_prioritypipes.Prelude.{
  ℕ, ◌≤◌, ◌≡◌, ◌≢◌, refl, ◌⊎◌, inl, inr, true, false, none, some, List, length, arith, Bool-cases,
  ==_self,
}
use os_prioritypipes.Prelude.Maps.{update}
use os_prioritypipes.Prelude.Sets.{◌∈◌}
use os_prioritypipes.Prelude.Results.{Result, ok, panic, Returns, returns}
use os_prioritypipes.Sleeplock.{acquiresleep_cases, holdingsleep}
use os_prioritypipes.Bcache.{nbuf, Bcache, bget, bread_locked, bwrite}
use os_prioritypipes.Bcache.Ring.{Ring}
use os_prioritypipes.Bcache.Lookup.{Got, hit, recycled, no_buffers, bget-Got, member}

module _ {ℓ} (A : Type ℓ) where
  -- Each block of the device has one buffer at most, and a valid buffer of the device holds what
  -- the disk does.
  pub record Coherent (dev : ℕ) (c : Bcache A) (xs : List ℕ) : Type ℓ where
    pub one_each :
        (i j : ℕ)
        → i ∈ xs
        → j ∈ xs
        → i ≢ j
        → c.dev i ≡ dev
        → c.dev j ≡ dev
        → c.blockno i ≢ c.blockno j
    pub fresh :
        (i : ℕ)
        → i ∈ xs
        → c.dev i ≡ dev
        → c.valid i ≡ true
        → c.contents i ≡ c.disk dev (c.blockno i)

  Got-Coherent :
      (dev blockno : ℕ) (c : Bcache A) (xs : List ℕ) (r : Result (ℕ × Bcache A))
      → Got A dev blockno c xs r
      → Coherent dev c xs
      → (r ≡ panic)
        ⊎ ((b : ℕ) × (c' : Bcache A) × (r ≡ ok (b, c'))
            × (b ∈ xs)
            × (c'.dev b ≡ dev)
            × (c'.blockno b ≡ blockno)
            × Coherent dev c' xs)
  Got-Coherent dev blockno c xs _ (hit b mem test) h = inr (
    b,
    _,
    refl,
    mem,
    ground arith,
    ground arith,
    record { one_each = h.one_each; fresh = h.fresh },
  )
  Got-Coherent dev blockno c xs _ (recycled before b after place free older absent) h = inr (
    b,
    _,
    refl,
    member A xs before after b place,
    rw (==_self b) refl,
    rw (==_self b) refl,
    record {
      one_each = λ i j mi mj. ground (arith, absent i, absent j, h.one_each i j);
      fresh = λ i mi. ground (arith, h.fresh i);
    },
  )
  Got-Coherent dev blockno c xs _ (no_buffers absent all) h = inl refl

  -- A coherent cache stays so under `bget`, which gives a buffer of the block if it gives one.
  pub bget-Coherent :
      (dev blockno : ℕ) (c : Bcache A) (xs : List ℕ)
      → Ring c.links xs
      → length xs ≤ nbuf
      → Coherent dev c xs
      → (bget A dev blockno c ≡ panic)
        ⊎ ((b : ℕ) × (c' : Bcache A) × (bget A dev blockno c ≡ ok (b, c'))
            × (b ∈ xs)
            × (c'.dev b ≡ dev)
            × (c'.blockno b ≡ blockno)
            × Coherent dev c' xs)
  bget-Coherent dev blockno c xs r few h =
      Got-Coherent dev blockno c xs (bget A dev blockno c) (bget-Got A dev blockno c xs r few) h

  -- Once it has the lock, `bread` gives the block's contents on the disk.
  pub bread_locked-Coherent :
      (pid dev b : ℕ) (c : Bcache A) (xs : List ℕ)
      → b ∈ xs
      → c.dev b ≡ dev
      → Coherent dev c xs
      → (((c.lock b).locked ≡ true) × (bread_locked A pid b c ≡ none))
        ⊎ (((c.lock b).locked ≡ false)
            × ((c' : Bcache A) × (bread_locked A pid b c ≡ some c')
                × (holdingsleep pid (c'.lock b) ≡ true)
                × (c'.contents b ≡ c.disk dev (c.blockno b))
                × Coherent dev c' xs))
  unfolding bread_locked
  bread_locked-Coherent pid dev b c xs mem e h = elim (acquiresleep_cases pid (c.lock b)) [
    | inl (taken, sleeps) ↦ inl (taken, rw (bread_locked, sleeps) refl)
    | inr (free, mine, got, held) ↦ inr (
      free,
      elim (Bool-cases (c.valid b)) [
        | inl valid ↦ (
          record c { lock = update c.lock b mine },
          rw (bread_locked, got, valid) refl,
          rw (==_self b) held,
          ground (arith, h.fresh b),
          record { one_each = h.one_each; fresh = h.fresh },
        )
        | inr stale ↦ (
          record c {
            lock = update c.lock b mine;
            contents = update c.contents b (c.disk (c.dev b) (c.blockno b));
            valid = update c.valid b true;
          },
          rw (bread_locked, got, stale) refl,
          rw (==_self b) held,
          rw (==_self b, e) refl,
          record { one_each = h.one_each; fresh = λ i mi. ground (arith, h.fresh i) },
        )
      ],
    )
  ]

  -- If the holder of a buffer's lock changes its contents and calls `bwrite`, the block is on the
  -- disk, and the cache stays coherent: no other buffer holds the block. Without the lock,
  -- `bwrite` panics.
  pub bwrite-Coherent :
      (pid dev b : ℕ) (x : A) (c : Bcache A) (xs : List ℕ)
      → b ∈ xs
      → c.dev b ≡ dev
      → Coherent dev c xs
      → ((holdingsleep pid (c.lock b) ≡ false)
          × (bwrite A pid b (record c { contents = update c.contents b x }) ≡ panic))
        ⊎ ((holdingsleep pid (c.lock b) ≡ true)
            × Returns
                (λ c'. (c'.disk dev (c.blockno b) ≡ x) × Coherent dev c' xs)
                (bwrite A pid b (record c { contents = update c.contents b x })))
  unfolding bwrite
  bwrite-Coherent pid dev b x c xs mem e h = elim (Bool-cases (holdingsleep pid (c.lock b))) [
    | inr other ↦ inl (other, rw other refl)
    | inl own ↦ inr (
      own,
      rw own (
          returns (
            ground (arith, e),
            record {
              one_each = h.one_each;
              fresh = λ i mi. ground (arith, e, h.fresh i, h.one_each i b);
            },
          )),
    )
  ]
