-- ===== src/Fs/Inodes/Truncating.antt =====
-- kernel/fs.c: `itrunc`, which frees the blocks of a file.
use os_prioritypipes.Prelude.{
  ℕ, zero, suc, ◌+◌, ◌-◌, ◌≤◌, ◌<◌, ◌≡◌, ◌≢◌, refl, sym, ap, subst, ◌∙◌, inl, inr, Bool, true,
  false, ◌||◌, ltb, ◌==◌, Bool-cases, arith,
}
use os_prioritypipes.Prelude.Maps.{update}
use os_prioritypipes.Prelude.Results.{Returns, returns, bind}
use os_prioritypipes.Fs.{Superblock, Blocks}
use os_prioritypipes.Fs.Words.{word}
use os_prioritypipes.Fs.Bitmap.{Sound}
use os_prioritypipes.Fs.Inodes.{Dinode, free_indirect, itrunc}
use os_prioritypipes.Fs.Inodes.Slots.{slot, Used, Owns}
use os_prioritypipes.Fs.Inodes.Freeing.{
  holds, owns_block, holds-ext, Frees, Frees-trans, bfree-Frees, Distinct, free_words-Frees,
}
use os_prioritypipes.Fs.Inodes.Clearing.{Cleared, free_direct-Cleared}

module _ (sb : Superblock) where
  -- The file has no block any more, and its blocks are the ones that have become free.
  pub record Truncated (ip : Dinode) (d : Blocks) (r : Dinode × Blocks) : Type 0 where
    pub frees : Frees sb d (owns_block ip.addrs d) r.1
    pub empty : (j : ℕ) → j < 13 → r.0.addrs j ≡ 0
    pub rest : r.0 ≡ record ip { addrs = r.0.addrs; size = 0 }

  -- A block in use that the test does not pass stays in use.
  kept-Used :
      (d d1 : Blocks) (p : ℕ → Bool) (x : ℕ)
      → Frees sb d p d1
      → Used sb d x
      → p x ≡ false
      → Used sb d1 x
  kept-Used d d1 p x f u miss =
      let above = u.above in
      record {
        fits = u.fits;
        taken = ground (arith, f.marks x above, u.taken, miss);
        above = above;
      }

  slot_low : (a : ℕ → ℕ) (d : Blocks) (j : ℕ) → j < 13 → slot a d j ≡ a j
  slot_low a d j lt = ground (arith, lt)

  slot_high : (a : ℕ → ℕ) (d : Blocks) (j : ℕ) → a 12 ≢ 0 → slot a d (j + 13) ≡ word (d (a 12)) j
  slot_high a d j ne =
      let low : ltb (j + 13) 13 ≡ false = ground arith in
      let there : (a 12 == 0) ≡ false = ground (arith, ne) in
      let place : j + 13 - 13 ≡ j = omega arith in rw (low, there, place) refl

  direct-Distinct : (ip : Dinode) (d : Blocks) → Owns sb ip.addrs d → Distinct sb ip.addrs 12 0 d
  direct-Distinct ip d w = record {
    used = λ j lo hi ne.
        let e = slot_low ip.addrs d j (omega (arith, hi)) in
        subst (Used sb d) e (w.used j (omega (arith, hi)) (λ z. ne (sym e ∙ z)));
    apart = λ j k lo lt hi ne e.
        let ej = slot_low ip.addrs d j (omega (arith, lt, hi)) in
        let ek = slot_low ip.addrs d k (omega (arith, hi)) in
        let same =
          w.apart j k (omega (arith, lt, hi)) (omega (arith, hi)) (λ z. ne (sym ej ∙ z))
            (ej ∙ e ∙ sym ek) in
        omega (arith, same, lt);
  }

  -- What no place of the inode but `i` holds is among no numbers but those at `i`.
  holds_not :
      (f : ℕ → ℕ) (rounds i c : ℕ)
      → ((j : ℕ) → i ≤ j → j < i + rounds → f j ≢ c)
      → holds f rounds i c ≡ false
  unfolding holds
  holds_not f zero i c h = refl
  holds_not f (suc rounds) i c h = ground (
    arith,
    h i,
    holds_not f rounds (i + 1) c (λ j lo hi. h j (omega (arith, lo)) (omega (arith, hi))),
  )

  module _ (ip : Dinode) (d : Blocks) (w : Owns sb ip.addrs d) (ne : ip.addrs 12 ≢ 0) where
    -- The first 12 numbers are not that of the indirect block, nor one in it.
    direct_not :
        (k : ℕ)
        → 12 ≤ k
        → k < 269
        → slot ip.addrs d k ≢ 0
        → holds ip.addrs 12 0 (slot ip.addrs d k) ≡ false
    direct_not k lo hi nk = holds_not ip.addrs 12 0 (slot ip.addrs d k) (λ j lj hj e.
        let ej = slot_low ip.addrs d j (omega (arith, hj)) in
        let same = w.apart k j hi (omega (arith, hj)) nk (sym e ∙ sym ej) in
        omega (arith, same, hj, lo))

    words-Distinct :
        (d1 : Blocks)
        → Frees sb d (holds ip.addrs 12 0) d1
        → Distinct sb (word (d1 (ip.addrs 12))) 256 0 d1
    words-Distinct d1 f = record {
      used = λ j lo hi nj.
          let e = at j in
          let nk : slot ip.addrs d (j + 13) ≢ 0 = λ z. nj (sym e ∙ z) in
          subst (Used sb d1) e (
            kept-Used d d1 _ (slot ip.addrs d (j + 13)) f (w.used (j + 13) (omega (arith, hi)) nk)
              (direct_not (j + 13) (omega arith) (omega (arith, hi)) nk));
      apart = λ j k lo lt hi nj e.
          let ej = at j in
          let ek = at k in
          let same =
            w.apart (j + 13) (k + 13) (omega (arith, lt, hi)) (omega (arith, hi))
              (λ z. nj (sym ej ∙ z)) (ej ∙ e ∙ sym ek) in
          omega (arith, same, lt);
    }
      where
        at : (j : ℕ) → slot ip.addrs d (j + 13) ≡ word (d1 (ip.addrs 12)) j
        at j =
            slot_high ip.addrs d j ne
            ∙ ap (λ t. word t j) (sym (f.bytes (ip.addrs 12) (w.used 12 (omega arith) ne).above))

    words_not :
        (d1 : Blocks)
        → Frees sb d (holds ip.addrs 12 0) d1
        → holds (word (d1 (ip.addrs 12))) 256 0 (ip.addrs 12) ≡ false
    words_not d1 f = holds_not _ 256 0 (ip.addrs 12) (λ j lo hi e.
        let kept = ap (λ t. word t j) (f.bytes (ip.addrs 12) (w.used 12 (omega arith) ne).above) in
        let same =
          w.apart 12 (j + 13) (omega arith) (omega (arith, hi)) ne
            (sym e ∙ kept ∙ sym (slot_high ip.addrs d j ne)) in
        omega (arith, same))

  record Emptied (ip : Dinode) (d : Blocks) (r : Dinode × Blocks) : Type 0 where
    frees : Frees sb d (owns_block ip.addrs d) r.1
    empty : (j : ℕ) → j < 13 → r.0.addrs j ≡ 0
    rest : r.0 ≡ record ip { addrs = r.0.addrs }

  indirect-Emptied :
      (ip : Dinode) (d : Blocks) (r : Dinode × Blocks)
      → Owns sb ip.addrs d
      → Cleared sb 12 0 ip d r
      → Returns (Emptied ip d) (free_indirect sb r)
  indirect-Emptied ip d (ip1, d1) w f = elim (Bool-cases (ip.addrs 12 == 0)) [
    | inl absent ↦
        let test : (ip1.addrs 12 == 0) ≡ true = rw e absent in
        rw test (
          returns record {
            frees = record {
              sound = f.frees.sound;
              marks = λ c above. rw absent (f.frees.marks c above ∙ ground arith);
              bytes = f.frees.bytes;
            };
            empty = λ j lt. elim (Bool-cases (j == 12)) [
              | inl last ↦
                  let here : j ≡ 12 = ground (arith, last) in
                  ap ip1.addrs here ∙ e ∙ ground (arith, absent)
              | inr before ↦ f.zeros j (omega arith) (ground (arith, lt, before))
            ];
            rest = f.rest;
          })
    | inr there ↦
        let ne : ip.addrs 12 ≢ 0 = ground (arith, there) in
        let table = w.used 12 (omega arith) ne in
        let table1 =
          kept-Used d d1 _ (ip.addrs 12) f.frees table
            (direct_not ip d w ne 12 (omega arith) (omega arith) ne) in
        rw (e, there)
          (bind
            (free_words-Frees sb 256 (ip.addrs 12) 0 d1 table.above f.frees.sound
              (words-Distinct ip d w ne d1 f.frees))
            (λ d2 g.
              bind
                (bfree-Frees sb (ip.addrs 12) d2
                  (kept-Used d1 d2 _ (ip.addrs 12) g table1 (words_not ip d w ne d1 f.frees))
                  g.sound)
                (λ d3 k. returns record {
                  frees =
                      Frees-trans sb d d1 d3 _ _ _ f.frees
                        (Frees-trans sb d1 d2 d3 _ _
                          (λ c. holds (word (d1 (ip.addrs 12))) 256 0 c || (ip.addrs 12 == c)) g k
                          (λ c behind. refl))
                        (λ c behind.
                          let same =
                            holds-ext (word (d (ip.addrs 12))) (word (d1 (ip.addrs 12))) 256 0 c
                              (λ j lo.
                                ap (λ t. word t j)
                                  (sym (f.frees.bytes (ip.addrs 12) table.above))) in
                          rw (there, same) refl);
                  empty = λ j lt. elim (Bool-cases (j == 12)) [
                    | inl last ↦ ground (arith, last)
                    | inr before ↦
                        let zero_there = f.zeros j (omega arith) (ground (arith, lt, before)) in
                        ground (arith, before, zero_there)
                  ];
                  rest =
                      let clear : Dinode → Dinode =
                        λ x. record x { addrs = update ip1.addrs 12 0 } in
                      ap clear f.rest;
                })))
  ]
    where
      e : ip1.addrs 12 ≡ ip.addrs 12
      e = f.keeps 12 (inr (omega arith))

  -- Where the bitmap is sound and the numbers in the inode are those of distinct blocks in use,
  -- `itrunc` does not panic: each block of the file becomes free, no other block does, and none
  -- changes; the file has no block and no byte after it.
  pub itrunc-Truncated :
      (ip : Dinode) (d : Blocks)
      → Sound sb d
      → Owns sb ip.addrs d
      → Returns (Truncated ip d) (itrunc sb ip d)
  unfolding itrunc
  itrunc-Truncated ip d h w =
      bind
        (bind (free_direct-Cleared sb 12 0 ip d h (direct-Distinct ip d w))
          (λ r f. indirect-Emptied ip d r w f))
        (λ r t. returns record {
          frees = t.frees;
          empty = t.empty;
          rest = let set_size : Dinode → Dinode = λ x. record x { size = 0 } in ap set_size t.rest;
        })
