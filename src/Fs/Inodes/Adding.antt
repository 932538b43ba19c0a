-- ===== src/Fs/Inodes/Adding.antt =====
-- kernel/fs.c: how `bmap` adds a block to the 13 numbers of an inode.
use os_prioritypipes.Prelude.{
  ℕ, ◌-◌, ◌≤◌, ◌<◌, ◌≡◌, ◌≢◌, refl, sym, subst, ◌∙◌, inl, inr, Bool, true, false, ltb, ◌==◌,
  if◌then◌else◌, Bool-cases, arith,
}
use os_prioritypipes.Prelude.Maps.{update}
use os_prioritypipes.Fs.{Superblock, Blocks, bitmap_block, is_free, balloc}
use os_prioritypipes.Fs.Words.{word_zero}
use os_prioritypipes.Fs.Bitmap.{Sound, last_bitmap_block, Allocated, full, got, balloc-Allocated}
use os_prioritypipes.Fs.Inodes.{Dinode, bmap_addr, take_addr}
use os_prioritypipes.Fs.Inodes.Slots.{slot, Used, Owns, Grows, Grows-refl, Grows-one}

-- A block number is a `uint`.
abbrev pub IsSmall : Superblock → Type 0
IsSmall sb = sb.size ≤ 4294967296

module _ (sb : Superblock) where
  -- New bytes in a block behind the bitmap leave the bitmap as it is.
  pub is_free-update :
      (d : Blocks) (c x : ℕ) (bytes : ℕ → ℕ)
      → last_bitmap_block sb < c
      → x < sb.size
      → is_free sb (update d c bytes) x ≡ is_free sb d x
  is_free-update d c x bytes above fits =
      let miss : (bitmap_block sb x == c) ≡ false = ground (arith, above, fits) in rw miss refl

  pub update-Sound :
      (d : Blocks) (c : ℕ) (bytes : ℕ → ℕ)
      → last_bitmap_block sb < c
      → ((i : ℕ) → bytes i < 256)
      → Sound sb d
      → Sound sb (update d c bytes)
  update-Sound d c bytes above small h = record {
    bytes = λ x i. ground (arith, small i, h.bytes x i);
    free_data = λ x lt e. h.free_data x lt (sym (is_free-update d c x bytes above lt) ∙ e);
  }

  -- The block at place `i` of the inode has been found or added, or no block was free.
  pub record Mapped (i : ℕ) (ip : Dinode) (d : Blocks) (r : ℕ × Dinode × Blocks) : Type 0 where
    pub grows : Grows sb ip.addrs d r.1.addrs r.2
    pub here : slot r.1.addrs r.2 i ≡ r.0
    pub out : r.0 ≡ 0 → (c : ℕ) → c < sb.size → is_free sb r.2 c ≡ false
    pub rest : r.1 ≡ record ip { addrs = r.1.addrs }

  pub not_free : (d : Blocks) (b c : ℕ) → Used sb d c → is_free sb d b ≡ true → c ≢ b
  not_free d b c u free e =
      let taken = subst (λ x. is_free sb d x ≡ false) e u.taken in clash (is_free sb d b) free taken
    where
      clash : (t : Bool) → t ≡ true → t ≡ false → ⊥
      clash t e0 e1 = cc

  slot-update :
      (a : ℕ → ℕ) (d d' : Blocks) (i b j : ℕ)
      → i < 13
      → a i ≡ 0
      → ((k : ℕ) → d' b k ≡ 0)
      → (a 12 ≢ 0 → d' (a 12) ≡ d (a 12))
      → slot (update a i b) d' j ≡ (if j == i then b else slot a d j)
  slot-update a d d' i b j lt z zeros same = elim (Bool-cases (ltb j 13)) [
    | inl low ↦ ground (arith, low)
    | inr high ↦
        let other : (j == i) ≡ false = ground (arith, high, lt) in
        elim (Bool-cases (i == 12)) [
          | inl last ↦
              let e : i ≡ 12 = ground (arith, last) in
              let z12 : (a 12 == 0) ≡ true = ground (arith, subst (λ x. a x ≡ 0) e z) in
              let w = word_zero (d' b) (j - 13) zeros in rw (other, high, e, z12, w) (ground arith)
          | inr early ↦
              let e : (12 == i) ≡ false = ground (arith, early) in
              elim (Bool-cases (a 12 == 0)) [
                | inl none_yet ↦ rw (other, high, e, none_yet) refl
                | inr there ↦
                    let bytes = same (λ x. ground (arith, there, x)) in
                    rw (other, high, e, there, bytes) refl
              ]
        ]
  ]

  pub bmap_addr-Mapped :
      (i : ℕ) (ip : Dinode) (d : Blocks)
      → i < 13
      → Sound sb d
      → Owns sb ip.addrs d
      → Mapped i ip d (bmap_addr sb i ip d)
  unfolding bmap_addr
  bmap_addr-Mapped i ip d lt h o = elim (Bool-cases (ip.addrs i == 0)) [
    | inr there ↦
        let ne : ip.addrs i ≢ 0 = ground (arith, there) in
        rw there record {
          grows = Grows-refl sb ip.addrs d h o;
          here = ground (arith, lt);
          out = λ z. absurd (ne z);
          rest = refl;
        }
    | inl none_yet ↦
        let z : ip.addrs i ≡ 0 = ground (arith, none_yet) in
        rw none_yet (added (balloc sb d) z (balloc-Allocated sb d h))
  ]
    where
      Goal : ℕ × Blocks → Type 0
      Goal r = Mapped i ip d (take_addr sb i ip r)

      added : (r : ℕ × Blocks) → ip.addrs i ≡ 0 → Allocated sb d r → Goal r
      added _ z (full none_free) = record {
        grows = Grows-refl sb ip.addrs d h o;
        here = ground (arith, lt, z);
        out = λ e. none_free;
        rest = refl;
      }
      added (_, d') z (got b fits free before marks zeros others sound) =
          let above = h.free_data b fits free in
          let nonzero : (b == 0) ≡ false = ground (arith, above) in
          let keeps = λ (c : ℕ) (u : Used sb d c). others c (not_free d b c u free) u.above in
          rw nonzero record {
            grows =
                Grows-one sb ip.addrs d (update ip.addrs i b) d' i b sound o (ground (arith, z, lt))
                  fits free above marks
                  (λ j lj.
                    slot-update ip.addrs d d' i b j lt z zeros
                      (λ ne. keeps (ip.addrs 12) (o.used 12 (omega arith) ne)))
                  zeros (λ c u ne. keeps c u);
            here = ground (arith, lt);
            out = λ e. absurd (ground (arith, e, nonzero));
            rest = refl;
          }
