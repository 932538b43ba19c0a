-- ===== src/Fs/Bitmap.antt =====
-- kernel/fs.c: `balloc` and `bfree` as changes of the set of free blocks.
use os_prioritypipes.Prelude.{
  ℕ, zero, suc, ◌+◌, ◌*◌, ◌/◌, ◌%◌, ◌≤◌, ◌<◌, ◌≡◌, ◌≢◌, refl, sym, subst, ◌∙◌, ◌⊎◌, inl, inr, Bool,
  true, false, ◌&&◌, none, some, ltb, ◌==◌, if◌then◌else◌, Bool-cases, arith,
}
use os_prioritypipes.Prelude.Maps.{update}
use os_prioritypipes.Prelude.Results.{Returns, returns}
use os_prioritypipes.Fs.{
  Superblock, Blocks, bzero, bitmap_block, is_free, change_bit, find_bit, balloc_from, balloc,
  bfree,
}
use os_prioritypipes.Fs.Bits.{is_clear, set_bit, clear_bit, is_clear-set_bit, is_clear-clear_bit}

abbrev pub AreBytes : Blocks → Type 0
AreBytes d = (b i : ℕ) → d b i < 256

-- The change of one bit of a byte, to `value`.
abbrev pub Changes : (ℕ → ℕ → ℕ) → Bool → Type 0
Changes change value =
    (byte r q : ℕ)
    → byte < 256
    → r < 8
    → q < 8
    → (is_clear (change byte r) q ≡ (if q == r then value else is_clear byte q))
      × (change byte r < 256)

bit_of_block :
    (change : ℕ → ℕ → ℕ) (value : Bool) (d : Blocks) (b i r c j q : ℕ)
    → Changes change value
    → d b i < 256
    → r < 8
    → q < 8
    → is_clear (update d b (update (d b) i (change (d b i) r)) c j) q
      ≡ (if (c == b) && (j == i) && (q == r) then value else is_clear (d c j) q)
bit_of_block change value d b i r c j q law byte lr lq = elim (Bool-cases (c == b)) [
  | inr other ↦ rw other refl
  | inl block ↦ elim (Bool-cases (j == i)) [
    | inr other ↦ let same : c ≡ b = ground (arith, block) in rw (block, other, same) refl
    | inl place ↦
        let same : c ≡ b = ground (arith, block) in
        let same' : j ≡ i = ground (arith, place) in
        rw (block, place, same, same') ((law (d b i) r q byte lr lq).0)
  ]
]

module _ (sb : Superblock) where
  abbrev pub last_bitmap_block : ℕ
  last_bitmap_block = sb.size / 8192 + sb.bmapstart

  same_bit :
      (b c : ℕ)
      → ((bitmap_block sb c == bitmap_block sb b)
          && (c % 8192 / 8 == b % 8192 / 8)
          && (c % 8192 % 8 == b % 8192 % 8))
        ≡ (c == b)
  same_bit b c = ground arith

  -- Setting or clearing the bit of a block changes whether this one is free.
  pub is_free-change_bit :
      (change : ℕ → ℕ → ℕ) (value : Bool) (b c : ℕ) (d : Blocks)
      → Changes change value
      → AreBytes d
      → is_free sb (change_bit sb change b d) c ≡ (if c == b then value else is_free sb d c)
  is_free-change_bit change value b c d law h =
      bit_of_block change value d (bitmap_block sb b) (b % 8192 / 8) (b % 8192 % 8)
        (bitmap_block sb c) (c % 8192 / 8) (c % 8192 % 8) law (h _ _) (omega arith) (omega arith)
      ∙ rw (same_bit b c) refl

  pub change_bit-AreBytes :
      (change : ℕ → ℕ → ℕ) (value : Bool) (b : ℕ) (d : Blocks)
      → Changes change value
      → AreBytes d
      → AreBytes (change_bit sb change b d)
  change_bit-AreBytes change value b d law h c i = ground (
    arith,
    h c i,
    (law (d (bitmap_block sb b) (b % 8192 / 8)) (b % 8192 % 8) 0 (h _ _) (omega arith)
        (omega arith)).1,
  )

  -- A block that is not of the bitmap keeps its bytes.
  pub change_bit_other :
      (change : ℕ → ℕ → ℕ) (b c : ℕ) (d : Blocks)
      → c ≢ bitmap_block sb b
      → change_bit sb change b d c ≡ d c
  change_bit_other change b c d ne = ground (arith, ne)

  -- The bitmap's own blocks and those before them are in use.
  pub record Sound (d : Blocks) : Type 0 where
    pub bytes : AreBytes d
    pub free_data : (c : ℕ) → c < sb.size → is_free sb d c ≡ true → last_bitmap_block < c

  -- What the search of a bitmap block for a bit that is clear comes to.
  find_bit-first :
      (rounds b bi : ℕ) (d : Blocks)
      → b % 8192 ≡ 0
      → 8192 ≤ rounds + bi
      → ((find_bit sb rounds b bi d ≡ none)
          × ((c : ℕ) → b + bi ≤ c → c < b + 8192 → c < sb.size → is_free sb d c ≡ false))
        ⊎ ((k : ℕ) × (find_bit sb rounds b bi d ≡ some k)
            × (bi ≤ k)
            × (k < 8192)
            × (b + k < sb.size)
            × (is_free sb d (b + k) ≡ true)
            × ((c : ℕ) → b + bi ≤ c → c < b + k → is_free sb d c ≡ false))
  unfolding find_bit
  find_bit-first zero b bi d al enough = inl (refl, λ c lo hi lt. absurd (omega arith))
  find_bit-first (suc rounds) b bi d al enough =
      elim (Bool-cases (ltb bi 8192 && ltb (b + bi) sb.size)) [
        | inr over ↦ inl (rw over refl, λ c lo hi lt. absurd (ground (arith, over)))
        | inl within ↦
            let e1 : bitmap_block sb (b + bi) ≡ bitmap_block sb b = ground (arith, within, al) in
            let e2 : (b + bi) % 8192 ≡ bi = ground (arith, within, al) in
            let here : is_free sb d (b + bi) ≡ is_clear (d (bitmap_block sb b) (bi / 8)) (bi % 8) =
              rw (e1, e2) refl in
            elim (Bool-cases (is_clear (d (bitmap_block sb b) (bi / 8)) (bi % 8))) [
              | inl clear ↦ inr (
                bi,
                rw (within, clear) refl,
                omega arith,
                ground (arith, within),
                ground (arith, within),
                here ∙ clear,
                λ c lo hi. absurd (omega arith),
              )
              | inr taken ↦ elim (find_bit-first rounds b (bi + 1) d al (omega (arith, enough))) [
                | inl (e, nothing) ↦ inl (
                  rw (within, taken) e,
                  λ c lo hi lt. elim (Bool-cases (c == b + bi)) [
                    | inl this ↦
                        let same : c ≡ b + bi = ground (arith, this) in
                        subst (λ x. is_free sb d x ≡ false) (sym same) (here ∙ taken)
                    | inr later ↦ nothing c (ground (arith, later, lo)) hi lt
                  ],
                )
                | inr (k, e, lo', hi', fits, clear, before) ↦ inr (
                  k,
                  rw (within, taken) e,
                  omega (arith, lo'),
                  hi',
                  fits,
                  clear,
                  λ c lo hi. elim (Bool-cases (c == b + bi)) [
                    | inl this ↦
                        let same : c ≡ b + bi = ground (arith, this) in
                        subst (λ x. is_free sb d x ≡ false) (sym same) (here ∙ taken)
                    | inr later ↦ before c (ground (arith, later, lo)) hi
                  ],
                )
              ]
            ]
      ]

  -- What `balloc` comes to: the first free block, zeroed and in use from now on, or 0.
  pub data Allocated (d : Blocks) : ℕ × Blocks → Type 0 where
    full : ((c : ℕ) → c < sb.size → is_free sb d c ≡ false) → Allocated d (0, d)
    got :
        {d' : Blocks} (b : ℕ)
        → b < sb.size
        → is_free sb d b ≡ true
        → ((c : ℕ) → c < b → is_free sb d c ≡ false)
        → ((c : ℕ) → c < sb.size → is_free sb d' c ≡ (if c == b then false else is_free sb d c))
        → ((i : ℕ) → d' b i ≡ 0)
        → ((c : ℕ) → c ≢ b → last_bitmap_block < c → d' c ≡ d c)
        → Sound d'
        → Allocated d (b, d')

  -- A block is marked and zeroed.
  marked-Allocated :
      (b : ℕ) (d : Blocks)
      → b < sb.size
      → is_free sb d b ≡ true
      → ((c : ℕ) → c < b → is_free sb d c ≡ false)
      → Sound d
      → Allocated d (b, bzero b (change_bit sb set_bit b d))
  marked-Allocated b d fits clear before h =
      let d1 = change_bit sb set_bit b d in
      let law = is_clear-set_bit in
      let above : last_bitmap_block < b = h.free_data b fits clear in
      let kept : (c : ℕ)
          → c < sb.size
          → is_free sb (bzero b d1) c ≡ (if c == b then false else is_free sb d c) =
        λ c lt.
          let miss : (bitmap_block sb c == b) ≡ false = ground (arith, above, lt) in
          rw miss (is_free-change_bit set_bit false b c d law h.bytes) in
      got b fits clear before kept (λ i. ground arith)
        (λ c ne data_block.
          let miss : (c == b) ≡ false = ground (arith, ne) in
          rw miss (change_bit_other set_bit b c d (omega (arith, data_block, fits))))
        record {
          bytes = λ c i. ground (arith, change_bit-AreBytes set_bit false b d law h.bytes c i);
          free_data = λ c lt e. h.free_data c lt (ground (arith, kept c lt, e));
        }

  balloc_from-Allocated :
      (rounds b : ℕ) (d : Blocks)
      → b % 8192 ≡ 0
      → sb.size ≤ b + rounds * 8192
      → ((c : ℕ) → c < b → c < sb.size → is_free sb d c ≡ false)
      → Sound d
      → Allocated d (balloc_from sb rounds b d)
  unfolding balloc_from
  balloc_from-Allocated zero b d al enough before h =
      full (λ c lt. before c (omega (arith, lt, enough)) lt)
  balloc_from-Allocated (suc rounds) b d al enough before h = elim (Bool-cases (ltb b sb.size)) [
    | inr over ↦ rw over (full (λ c lt. before c (ground (arith, over, lt)) lt))
    | inl within ↦ elim (find_bit-first 8192 b 0 d al (omega arith)) [
      | inl (e, nothing) ↦
          rw (within, e)
            (balloc_from-Allocated rounds (b + 8192) d (omega (arith, al)) (omega (arith, enough))
              (λ c lo lt. elim (Bool-cases (ltb c b)) [
                | inl low ↦ before c (ground (arith, low)) lt
                | inr high ↦ nothing c (ground (arith, high)) lo lt
              ])
              h)
      | inr (k, e, lo, hi, fits, clear, none_before) ↦
          let e1 : bitmap_block sb (b + k) ≡ bitmap_block sb b = omega (arith, al, hi) in
          let e2 : (b + k) % 8192 ≡ k = omega (arith, al, hi) in
          let same : change_bit sb set_bit (b + k) d
              ≡ update d (bitmap_block sb b) (
                  update (d (bitmap_block sb b)) (k / 8)
                    (set_bit (d (bitmap_block sb b) (k / 8)) (k % 8))) =
            rw (e1, e2) refl in
          rw (within, e)
            (subst (λ m. Allocated d (b + k, bzero (b + k) m)) same
              (marked-Allocated (b + k) d fits clear
                (λ c lt. elim (Bool-cases (ltb c b)) [
                  | inl low ↦ before c (ground (arith, low)) (omega (arith, lt, fits))
                  | inr high ↦ none_before c (ground (arith, high)) lt
                ])
                h))
    ]
  ]

  -- `balloc` takes the first block that is free, zeroes it and marks it, and changes no other block but
  -- the bitmap; it returns 0 if none is free.
  pub balloc-Allocated : (d : Blocks) → Sound d → Allocated d (balloc sb d)
  unfolding balloc
  balloc-Allocated d h =
      balloc_from-Allocated (sb.size / 8192 + 1) 0 d refl (omega arith)
        (λ c lt. absurd (omega (arith, lt))) h

  -- `bfree` of a block that is in use makes it free, and no other block; of a free block it panics.
  pub bfree_lem :
      (b : ℕ) (d : Blocks)
      → b < sb.size
      → is_free sb d b ≡ false
      → last_bitmap_block < b
      → Sound d
      → Returns
          (λ d'.
            ((c : ℕ) → is_free sb d' c ≡ (if c == b then true else is_free sb d c))
            × ((c : ℕ) → last_bitmap_block < c → d' c ≡ d c)
            × Sound d')
          (bfree sb b d)
  unfolding bfree
  bfree_lem b d fits used data_block h =
      let law = is_clear-clear_bit in
      let kept = λ (c : ℕ). is_free-change_bit clear_bit true b c d law h.bytes in
      rw used (
        returns (
          kept,
          λ c above. change_bit_other clear_bit b c d (omega (arith, above, fits)),
          record {
            bytes = change_bit-AreBytes clear_bit true b d law h.bytes;
            free_data = λ c lt e. ground (arith, kept c, h.free_data c lt, e, data_block);
          },
        ))
