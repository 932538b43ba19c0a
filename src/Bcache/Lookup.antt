-- ===== src/Bcache/Lookup.antt =====
-- kernel/bio.c: which buffer `bget` returns, and the list of buffers under every operation.
use os_prioritypipes.Prelude.{
  ℕ, zero, suc, ◌+◌, ◌-◌, ◌≤◌, ◌<◌, ◌≡◌, ◌≢◌, refl, sym, subst, ap, ◌∙◌, ◌⊎◌, inl, inr, Bool, true,
  false, ◌&&◌, not, List, [], ◌∷◌, ◌++◌, length, arith, ==_self, ◌==◌, if◌then◌else◌, Bool-cases,
  append_assoc,
}
use os_prioritypipes.Prelude.Loops.{rounds_keep}
use os_prioritypipes.Prelude.Maps.{update}
use os_prioritypipes.Prelude.Sets.{◌∈◌, ◌∉◌, has-append, ne_of_not-mem}
use os_prioritypipes.Prelude.Results.{Result, ok, panic, Returns, returns}
use os_prioritypipes.Sleeplock.{unlocked, holdingsleep, releasesleep}
use os_prioritypipes.Bcache.{nbuf, Links, link_first, unlink, Bcache, binit, bget, brelse}
use os_prioritypipes.Bcache.Ring.{Ring, link_first-Ring, unlink-Ring, Distinct-fresh}
use os_prioritypipes.Bcache.Scan.{
  reverse, Found, nowhere, at, scan-first, Segment-reverse, length-reverse, has-reverse,
  reverse-append, reverse-reverse, first-Found,
}

-- the buffers 1 to `k`, the last first
abbrev pub down_from : ℕ → List ℕ
down_from zero = []
down_from (suc k) = suc k ∷ down_from k

down_from-fresh : (k b : ℕ) → k < b → b ∉ 0 ∷ down_from k
down_from-fresh zero b lt = ground arith
down_from-fresh (suc k) b lt = ground (arith, down_from-fresh k b)

module _ {ℓ} (A : Type ℓ) where
  -- `binit` links the NBUF buffers, the last one first.
  pub binit-Ring : (c : Bcache A) → Ring (binit A c).links (down_from nbuf)
  unfolding binit
  binit-Ring c =
      (rounds_keep (λ b l. link_first b l) (λ k l. (1 ≤ k) × Ring l (down_from (k - 1)))
        (λ k l h. (omega arith, again k l h)) nbuf 1 31
        (record { next = update c.links.next 0 0; prev = update c.links.prev 0 0 })
        (omega arith, record { linked = ground arith; distinct = ground arith }) refl).1
    where
      again :
          (k : ℕ) (l : Links)
          → (1 ≤ k) × Ring l (down_from (k - 1))
          → Ring (link_first k l) (down_from (k + 1 - 1))
      again zero l h = absurd (omega (arith, h.0))
      again (suc k) l h =
          let up : suc k ≡ suc k + 1 - 1 = omega arith in
          let down : suc k - 1 ≡ k = omega arith in
          subst (λ m. Ring (link_first (suc k) l) (down_from m)) up
            (link_first-Ring (suc k) l (down_from k) (down_from-fresh k (suc k) (omega arith))
              (subst (λ m. Ring l (down_from m)) down h.1))

  abbrev pub is_block : Bcache A → ℕ → ℕ → ℕ → Bool
  is_block c dev blockno b = (c.dev b == dev) && (c.blockno b == blockno)

  -- `bget` in each of its three cases.
  pub data Got (dev blockno : ℕ) (c : Bcache A) (xs : List ℕ) : Result (ℕ × Bcache A) → Type ℓ where
    hit :
        (b : ℕ)
        → b ∈ xs
        → is_block c dev blockno b ≡ true
        → Got dev blockno c xs (ok (b, record c { refcnt = update c.refcnt b (c.refcnt b + 1) }))
    recycled :
        (before : List ℕ) (b : ℕ) (after : List ℕ)
        → xs ≡ before ++ b ∷ after
        → c.refcnt b ≡ 0
        → ((a : ℕ) → a ∈ after → c.refcnt a ≢ 0)
        → ((a : ℕ) → a ∈ xs → is_block c dev blockno a ≡ false)
        → Got dev blockno c xs (
            ok (
              b,
              record c {
                dev = update c.dev b dev;
                blockno = update c.blockno b blockno;
                valid = update c.valid b false;
                refcnt = update c.refcnt b 1;
              },
            ))
    no_buffers :
        ((a : ℕ) → a ∈ xs → is_block c dev blockno a ≡ false)
        → ((a : ℕ) → a ∈ xs → c.refcnt a ≢ 0)
        → Got dev blockno c xs panic

  abbrev choose : ℕ → ℕ → Bcache A → ℕ → ℕ → Result (ℕ × Bcache A)
  choose dev blockno c cached unused =
      if not (cached == 0)
      then ok (cached, record c { refcnt = update c.refcnt cached (c.refcnt cached + 1) })
      else if not (unused == 0)
      then ok (
        unused,
        record c {
          dev = update c.dev unused dev;
          blockno = update c.blockno unused blockno;
          valid = update c.valid unused false;
          refcnt = update c.refcnt unused 1;
        },
      )
      else panic

  pub member : (xs before after : List ℕ) (b : ℕ) → xs ≡ before ++ b ∷ after → b ∈ xs
  member xs before after b e = rw e (ground (arith, has-append b before (b ∷ after)))

  nonzero : (b : ℕ) (xs : List ℕ) → b ∈ xs → 0 ∉ xs → not (b == 0) ≡ true
  nonzero b xs mem z = ground (arith, ne_of_not-mem b 0 xs mem z)

  unreversed :
      (xs before after : List ℕ) (b : ℕ)
      → reverse xs ≡ before ++ b ∷ after
      → xs ≡ reverse after ++ b ∷ reverse before
  unreversed xs before after b e =
      sym (reverse-reverse xs)
      ∙ ap reverse e
      ∙ reverse-append before (b ∷ after)
      ∙ append_assoc (reverse after) (b ∷ []) (reverse before)

  chosen :
      (dev blockno : ℕ) (c : Bcache A) (xs : List ℕ) (cached unused : ℕ)
      → 0 ∉ xs
      → Found (is_block c dev blockno) xs cached
      → Found (λ b. c.refcnt b == 0) (reverse xs) unused
      → Got dev blockno c xs (choose dev blockno c cached unused)
  chosen dev blockno c xs _ unused z (at before b after e test none) g =
      let mem = member xs before after b e in rw (nonzero b xs mem z) (hit b mem test)
  chosen dev blockno c xs _ _ z (nowhere none) (at before b after e test unfree) =
      let place = unreversed xs before after b e in
      let mem = member xs (reverse after) (reverse before) b place in
      rw (nonzero b xs mem z) (
        recycled (reverse after) b (reverse before) place (ground (arith, test))
          (λ a h. ground (arith, unfree a, has-reverse a before)) none)
  chosen dev blockno c xs _ _ z (nowhere none) (nowhere unfree) =
      no_buffers none (λ a h. ground (arith, unfree a, has-reverse a xs))

  -- `bget` takes another reference to the buffer that holds the block, if there is one; else it
  -- recycles the least recently used buffer without references; it panics only if all buffers
  -- are referenced.
  pub bget-Got :
      (dev blockno : ℕ) (c : Bcache A) (xs : List ℕ)
      → Ring c.links xs
      → length xs ≤ nbuf
      → Got dev blockno c xs (bget A dev blockno c)
  unfolding bget
  bget-Got dev blockno c xs r few =
      rw
        (
          scan-first c.links.next c.links.prev (is_block c dev blockno) (nbuf + 1) 0 xs r.linked
              r.distinct.0 (omega arith),
          scan-first c.links.prev c.links.next (λ b. c.refcnt b == 0) (nbuf + 1) 0 (reverse xs)
              (Segment-reverse c.links.next c.links.prev 0 xs 0 r.linked)
              (has-reverse 0 xs ∙ r.distinct.0) (omega (arith, length-reverse xs)),
        )
        (chosen dev blockno c xs _ _ r.distinct.0 (first-Found (is_block c dev blockno) xs)
          (first-Found (λ b. c.refcnt b == 0) (reverse xs)))

  -- `brelse` panics unless the caller holds the buffer's lock. Else it frees the lock and drops a
  -- reference, and without a further one the buffer becomes the most recently used.
  pub brelse-Ring :
      (pid : ℕ) (c : Bcache A) (before : List ℕ) (b : ℕ) (after : List ℕ)
      → Ring c.links (before ++ b ∷ after)
      → ((holdingsleep pid (c.lock b) ≡ false) × (brelse A pid b c ≡ panic))
        ⊎ ((holdingsleep pid (c.lock b) ≡ true)
            × Returns
                (λ c'.
                  Ring c'.links
                    (if c.refcnt b - 1 == 0 then b ∷ before ++ after else before ++ b ∷ after)
                  × (c'.lock ≡ update c.lock b unlocked)
                  × (c'.refcnt ≡ update c.refcnt b (c.refcnt b - 1)))
                (brelse A pid b c))
  unfolding brelse releasesleep
  brelse-Ring pid c before b after r = elim (Bool-cases (holdingsleep pid (c.lock b))) [
    | inr other ↦ inl (other, rw other refl)
    | inl own ↦ inr (
      own,
      rw own (elim (Bool-cases (c.refcnt b - 1 == 0)) [
        | inl last ↦
            rw (==_self b, last)
              (returns (
                link_first-Ring b (unlink b c.links) (before ++ after)
                    (Distinct-fresh (0 ∷ before) b after r.distinct)
                    (unlink-Ring b c.links before after r),
                refl,
                refl,
              ))
        | inr more ↦ rw (==_self b, more) (returns (r, refl, refl))
      ]),
    )
  ]
