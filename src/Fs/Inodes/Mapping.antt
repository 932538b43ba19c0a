-- ===== src/Fs/Inodes/Mapping.antt =====
-- kernel/fs.c: `bmap`, which finds a block of a file or adds it.
use os_prioritypipes.Prelude.{
  ℕ, ◌+◌, ◌-◌, ◌≤◌, ◌<◌, ◌≡◌, ◌≢◌, refl, sym, subst, ◌∙◌, inl, inr, true, false, ltb, ◌==◌,
  if◌then◌else◌, Bool-cases, arith,
}
use os_prioritypipes.Prelude.Maps.{update}
use os_prioritypipes.Prelude.Results.{panic, Returns, returns}
use os_prioritypipes.Fs.{Superblock, Blocks, balloc}
use os_prioritypipes.Fs.Words.{word, put_word, word-put_word, put_word_byte}
use os_prioritypipes.Fs.Bitmap.{Sound, Allocated, full, got, balloc-Allocated}
use os_prioritypipes.Fs.Inodes.{Dinode, bmap_addr, take_word, bmap_word, bmap_indirect, bmap}
use os_prioritypipes.Fs.Inodes.Slots.{
  slot, place_of, Used, Owns, Grows-refl, Grows-trans, Grows-one,
}
use os_prioritypipes.Fs.Inodes.Adding.{
  IsSmall, is_free-update, update-Sound, Mapped, not_free, bmap_addr-Mapped,
}

module _ (sb : Superblock) where
  slot_put :
      (a : ℕ → ℕ) (d d' : Blocks) (bn b j : ℕ)
      → a 12 ≢ 0
      → d' (a 12) ≡ d (a 12)
      → b < 4294967296
      → slot a (update d' (a 12) (put_word (d' (a 12)) bn b)) j
        ≡ (if j == bn + 13 then b else slot a d j)
  slot_put a d d' bn b j ne same small = elim (Bool-cases (ltb j 13)) [
    | inl low ↦ ground (arith, low)
    | inr high ↦
        let there : (a 12 == 0) ≡ false = ground (arith, ne) in
        let e : (j - 13 == bn) ≡ (j == bn + 13) = ground (arith, high) in
        let self : (a 12 == a 12) ≡ true = ground arith in
        rw (high, there, self, same) (word-put_word (d (a 12)) bn (j - 13) b small ∙ rw e refl)
  ]

  pub bmap_word-Mapped :
      (bn : ℕ) (ip : Dinode) (d : Blocks)
      → bn < 256
      → IsSmall sb
      → ip.addrs 12 ≢ 0
      → Sound sb d
      → Owns sb ip.addrs d
      → Mapped sb
          (bn + 13)
          ip
          d
          ((bmap_word sb (ip.addrs 12) bn d).0, ip, (bmap_word sb (ip.addrs 12) bn d).1)
  unfolding bmap_word
  bmap_word-Mapped bn ip d lt fit ne h o = elim (Bool-cases (word (d table) bn == 0)) [
    | inr there ↦
        let ne1 : word (d table) bn ≢ 0 = ground (arith, there) in
        rw there record {
          grows = Grows-refl sb ip.addrs d h o;
          here = is_word;
          out = λ z. absurd (ne1 z);
          rest = refl;
        }
    | inl none_yet ↦
        let z : word (d table) bn ≡ 0 = ground (arith, none_yet) in
        rw none_yet (added (balloc sb d) z (balloc-Allocated sb d h))
  ]
    where
      table : ℕ
      table = ip.addrs 12

      use_of : Used sb d (ip.addrs 12)
      use_of = o.used 12 (omega arith) ne

      is_word : slot ip.addrs d (bn + 13) ≡ word (d table) bn
      is_word =
          let low : ltb (bn + 13) 13 ≡ false = ground arith in
          let there : (ip.addrs 12 == 0) ≡ false = ground (arith, ne) in
          let place : bn + 13 - 13 ≡ bn = omega arith in rw (low, there, place) refl

      Goal : ℕ × Blocks → Type 0
      Goal r =
          Mapped sb (bn + 13) ip d ((take_word sb table bn r).0, ip, (take_word sb table bn r).1)

      added : (r : ℕ × Blocks) → word (d table) bn ≡ 0 → Allocated sb d r → Goal r
      added _ z (full none_free) = record {
        grows = Grows-refl sb ip.addrs d h o;
        here = is_word ∙ z;
        out = λ e. none_free;
        rest = refl;
      }
      added (_, d') z (got b fits free before marks zeros others sound) =
          let above = h.free_data b fits free in
          let nonzero : (b == 0) ≡ false = ground (arith, above) in
          let keeps = λ (c : ℕ) (u : Used sb d c). others c (not_free sb d b c u free) u.above in
          let d2 = update d' table (put_word (d' table) bn b) in
          let above1 = use_of.above in
          let not_table : b ≢ table = λ e. not_free sb d b table use_of free (sym e) in
          let slots = λ (j : ℕ).
            slot_put ip.addrs d d' bn b j ne (keeps table use_of) (omega (arith, fits, fit)) in
          rw nonzero record {
            grows =
                Grows-one sb ip.addrs d ip.addrs d2 (bn + 13) b
                  (update-Sound sb d' table _ above1
                    (λ i. put_word_byte (d' table) bn b i (sound.bytes table i)) sound)
                  o (is_word ∙ z) fits free above
                  (λ c fc. is_free-update sb d' table c _ above1 fc ∙ marks c fc) (λ j lj. slots j)
                  (λ k. ground (arith, not_table, zeros k))
                  (λ c u far. ground (arith, far, keeps c u));
            here = slots (bn + 13) ∙ ground arith;
            out = λ e. absurd (ground (arith, e, nonzero));
            rest = refl;
          }

  indirect-Mapped :
      (bn : ℕ) (ip : Dinode) (d : Blocks) (r : ℕ × Dinode × Blocks)
      → bn < 256
      → IsSmall sb
      → Mapped sb 12 ip d r
      → Mapped sb (bn + 13) ip d (bmap_indirect sb bn r)
  indirect-Mapped bn ip d (table, ip1, d1) lt fit m = elim (Bool-cases (table == 0)) [
    | inl none_free ↦
        let z : table ≡ 0 = ground (arith, none_free) in
        let z12 : (ip1.addrs 12 == 0) ≡ true = ground (arith, m.here, z) in
        let low : ltb (bn + 13) 13 ≡ false = ground arith in
        rw none_free
          record { grows = m.grows; here = rw (low, z12) refl; out = λ e. m.out z; rest = m.rest }
    | inr found ↦
        let ne : ip1.addrs 12 ≢ 0 = ground (arith, found, m.here) in
        let w = bmap_word-Mapped bn ip1 d1 lt fit ne m.grows.sound m.grows.owns in
        let w' =
          subst
            (λ t.
              Mapped sb (bn + 13) ip1 d1 ((bmap_word sb t bn d1).0, ip1, (bmap_word sb t bn d1).1))
            m.here w in
        rw found record {
          grows = Grows-trans sb ip.addrs d ip1.addrs d1 ip1.addrs _ m.grows w'.grows;
          here = w'.here;
          out = w'.out;
          rest = m.rest;
        }
  ]

  -- Where the bitmap is sound and the numbers in the inode are those of distinct blocks in use,
  -- of a disk of at most 2^32 blocks, `bmap` of one of the 268 blocks of a file returns its
  -- number, if need be after adding the block and the indirect block. What there was stays, what
  -- is new was free and holds zeros, both conditions hold again, and the number is 0 only when
  -- no block is free.
  pub bmap-Mapped :
      (bn : ℕ) (ip : Dinode) (d : Blocks)
      → bn < 268
      → IsSmall sb
      → Sound sb d
      → Owns sb ip.addrs d
      → Returns (Mapped sb (place_of bn) ip d) (bmap sb bn ip d)
  unfolding bmap
  bmap-Mapped bn ip d lt fit h o = elim (Bool-cases (ltb bn 12)) [
    | inl low ↦ rw low (returns (bmap_addr-Mapped sb bn ip d (ground (arith, low)) h o))
    | inr high ↦
        let within : ltb (bn - 12) 256 ≡ true = ground (arith, lt) in
        let place : bn - 12 + 13 ≡ bn + 1 = ground (arith, high) in
        rw (high, within)
          (returns (
            subst (λ x. Mapped sb x ip d (bmap_indirect sb (bn - 12) (bmap_addr sb 12 ip d))) place
              (indirect-Mapped (bn - 12) ip d (bmap_addr sb 12 ip d) (omega (arith, lt)) fit
                (bmap_addr-Mapped sb 12 ip d (omega arith) h o))))
  ]

  pub bmap-panic : (bn : ℕ) (ip : Dinode) (d : Blocks) → 268 ≤ bn → bmap sb bn ip d ≡ panic
  unfolding bmap
  bmap-panic bn ip d far =
      let e1 : ltb bn 12 ≡ false = ground (arith, far) in
      let e2 : ltb (bn - 12) 256 ≡ false = ground (arith, far) in rw (e1, e2) refl
