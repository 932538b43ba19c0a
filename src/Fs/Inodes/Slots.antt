-- ===== src/Fs/Inodes/Slots.antt =====
-- kernel/fs.c: the block numbers an inode holds, the 13 of `addrs` and then the words of the indirect
-- block, and how they change while blocks are added to a file.
use os_prioritypipes.Prelude.{
  ℕ, ◌+◌, ◌-◌, ◌<◌, ◌≡◌, ◌≢◌, refl, sym, subst, ap, ◌∙◌, inl, inr, Bool, true, false, ltb, ◌==◌,
  if◌then◌else◌, Bool-cases, arith,
}
use os_prioritypipes.Fs.{Superblock, Blocks, is_free}
use os_prioritypipes.Fs.Words.{word}
use os_prioritypipes.Fs.Bitmap.{Sound, last_bitmap_block}

abbrev pub slot : (ℕ → ℕ) → Blocks → ℕ → ℕ
slot a d i = if ltb i 13 then a i else (if a 12 == 0 then 0 else word (d (a 12)) (i - 13))

-- the place of the block `bn` of a file
abbrev pub place_of : ℕ → ℕ
place_of bn = if ltb bn 12 then bn else bn + 1

module _ (sb : Superblock) where
  -- A block in use, behind the bitmap.
  pub record Used (d : Blocks) (c : ℕ) : Type 0 where
    pub fits : c < sb.size
    pub taken : is_free sb d c ≡ false
    pub above : last_bitmap_block sb < c

  -- Each number is that of a block in use, and no two are the same block's.
  pub record Owns (a : ℕ → ℕ) (d : Blocks) : Type 0 where
    pub used : (i : ℕ) → i < 269 → slot a d i ≢ 0 → Used d (slot a d i)
    pub apart : (i j : ℕ) → i < 269 → j < 269 → slot a d i ≢ 0 → slot a d i ≡ slot a d j → i ≡ j

  -- Blocks have been added: the numbers there were stay, the new ones were free blocks, which hold
  -- zeros, and a block in use keeps its bytes, unless it is the indirect block.
  pub record Grows (a : ℕ → ℕ) (d : Blocks) (a' : ℕ → ℕ) (d' : Blocks) : Type 0 where
    pub sound : Sound sb d'
    pub owns : Owns a' d'
    pub kept : (j : ℕ) → j < 269 → slot a d j ≢ 0 → slot a' d' j ≡ slot a d j
    pub fresh :
        (j : ℕ) → j < 269 → slot a d j ≡ 0 → slot a' d' j ≢ 0 → is_free sb d (slot a' d' j) ≡ true
    pub zeroed :
        (j : ℕ)
        → j < 269
        → j ≢ 12
        → slot a d j ≡ 0
        → slot a' d' j ≢ 0
        → (i : ℕ) → d' (slot a' d' j) i ≡ 0
    pub others : (c : ℕ) → Used d c → c ≢ a 12 → d' c ≡ d c
    pub still : (c : ℕ) → Used d c → Used d' c

  pub Grows-refl : (a : ℕ → ℕ) (d : Blocks) → Sound sb d → Owns a d → Grows a d a d
  Grows-refl a d h o = record {
    sound = h;
    owns = o;
    kept = λ j lt ne. refl;
    fresh = λ j lt e ne. absurd (ne e);
    zeroed = λ j lt far e ne. absurd (ne e);
    others = λ c u ne. refl;
    still = λ c u. u;
  }

  pub Grows-trans :
      (a : ℕ → ℕ) (d : Blocks) (b : ℕ → ℕ) (e : Blocks) (c : ℕ → ℕ) (f : Blocks)
      → Grows a d b e
      → Grows b e c f
      → Grows a d c f
  Grows-trans a d b e c f g h = record {
    sound = h.sound;
    owns = h.owns;
    kept = λ j lt ne. let same = g.kept j lt ne in h.kept j lt (λ z. ne (sym same ∙ z)) ∙ same;
    fresh = λ j lt z ne. elim (Bool-cases (slot b e j == 0)) [
      | inl none_yet ↦
          let z1 : slot b e j ≡ 0 = ground (arith, none_yet) in
          let free = h.fresh j lt z1 ne in
          let fits = (h.owns.used j lt ne).fits in
          let above = (h.owns.used j lt ne).above in
          elim (Bool-cases (is_free sb d (slot c f j))) [
            | inl free0 ↦ free0
            | inr taken ↦
                let u =
                  g.still (slot c f j) (record { fits = fits; taken = taken; above = above }) in
                absurd (clash (is_free sb e (slot c f j)) free u.taken)
          ]
      | inr there ↦
          let ne1 : slot b e j ≢ 0 = ground (arith, there) in
          let same = h.kept j lt ne1 in
          subst (λ x. is_free sb d x ≡ true) (sym same) (g.fresh j lt z ne1)
    ];
    zeroed = λ j lt far z ne i. elim (Bool-cases (slot b e j == 0)) [
      | inl none_yet ↦ h.zeroed j lt far (ground (arith, none_yet)) ne i
      | inr there ↦
          let ne1 : slot b e j ≢ 0 = ground (arith, there) in
          let same = h.kept j lt ne1 in
          let distinct : slot b e j ≢ b 12 =
            λ eq. far (g.owns.apart j 12 lt (omega arith) ne1 eq) in
          let bytes = h.others (slot b e j) (g.owns.used j lt ne1) distinct in
          subst (λ x. f x i ≡ 0) (sym same) (ap (λ m. m i) bytes ∙ g.zeroed j lt far z ne1 i)
    ];
    others = λ x u ne.
        let distinct : x ≢ b 12 = λ eq. elim (Bool-cases (a 12 == 0)) [
          | inl none_yet ↦
              let above = u.above in
              let ne1 : b 12 ≢ 0 = ground (arith, eq, above) in
              let free = g.fresh 12 (omega arith) (ground (arith, none_yet)) ne1 in
              clash (is_free sb d x) (subst (λ y. is_free sb d y ≡ true) (sym eq) free) u.taken
          | inr there ↦ let same = g.kept 12 (omega arith) (ground (arith, there)) in ne (eq ∙ same)
        ] in
        h.others x (g.still x u) distinct ∙ g.others x u ne;
    still = λ x u. h.still x (g.still x u);
  }
    where
      clash : (t : Bool) → t ≡ true → t ≡ false → ⊥
      clash t e0 e1 = cc

  -- One number that was 0 becomes that of a block that was free.
  pub Grows-one :
      (a : ℕ → ℕ) (d : Blocks) (a' : ℕ → ℕ) (d' : Blocks) (i b : ℕ)
      → Sound sb d'
      → Owns a d
      → slot a d i ≡ 0
      → b < sb.size
      → is_free sb d b ≡ true
      → last_bitmap_block sb < b
      → ((c : ℕ) → c < sb.size → is_free sb d' c ≡ (if c == b then false else is_free sb d c))
      → ((j : ℕ) → j < 269 → slot a' d' j ≡ (if j == i then b else slot a d j))
      → ((k : ℕ) → d' b k ≡ 0)
      → ((c : ℕ) → Used d c → c ≢ a 12 → d' c ≡ d c)
      → Grows a d a' d'
  Grows-one a d a' d' i b h o z fits free above marks slots zeros same = record {
    sound = h;
    owns = record {
      used = λ j lt ne. elim (Bool-cases (j == i)) [
        | inl this ↦
            let e : slot a' d' j ≡ b = slots j lt ∙ rw this refl in subst (Used d') (sym e) new
        | inr other ↦
            let e : slot a' d' j ≡ slot a d j = slots j lt ∙ rw other refl in
            subst (Used d') (sym e) (still (slot a d j) (o.used j lt (λ x. ne (e ∙ x))))
      ];
      apart = λ j k lj lk ne e. elim (Bool-cases (j == i)) [
        | inl jj ↦
            let ej : slot a' d' j ≡ b = slots j lj ∙ rw jj refl in
            elim (Bool-cases (k == i)) [
              | inl kk ↦ ground (arith, jj, kk)
              | inr kk ↦
                  let ek : slot a' d' k ≡ slot a d k = slots k lk ∙ rw kk refl in
                  absurd (not_new k lk (sym ek ∙ sym e ∙ ej))
            ]
        | inr jj ↦
            let ej : slot a' d' j ≡ slot a d j = slots j lj ∙ rw jj refl in
            elim (Bool-cases (k == i)) [
              | inl kk ↦
                  let ek : slot a' d' k ≡ b = slots k lk ∙ rw kk refl in
                  absurd (not_new j lj (sym ej ∙ e ∙ ek))
              | inr kk ↦
                  let ek : slot a' d' k ≡ slot a d k = slots k lk ∙ rw kk refl in
                  o.apart j k lj lk (λ x. ne (ej ∙ x)) (sym ej ∙ e ∙ ek)
            ]
      ];
    };
    kept = λ j lt ne. elim (Bool-cases (j == i)) [
      | inl this ↦
          let e : j ≡ i = ground (arith, this) in
          absurd (ne (subst (λ x. slot a d x ≡ 0) (sym e) z))
      | inr other ↦ slots j lt ∙ rw other refl
    ];
    fresh = λ j lt zj ne. elim (Bool-cases (j == i)) [
      | inl this ↦
          let e : slot a' d' j ≡ b = slots j lt ∙ rw this refl in
          subst (λ x. is_free sb d x ≡ true) (sym e) free
      | inr other ↦ absurd (ne (slots j lt ∙ rw other zj))
    ];
    zeroed = λ j lt far zj ne k. elim (Bool-cases (j == i)) [
      | inl this ↦
          let e : slot a' d' j ≡ b = slots j lt ∙ rw this refl in
          subst (λ x. d' x k ≡ 0) (sym e) (zeros k)
      | inr other ↦ absurd (ne (slots j lt ∙ rw other zj))
    ];
    others = same;
    still = still;
  }
    where
      new : Used d' b
      new = record { fits = fits; taken = ground (arith, marks b fits); above = above }

      still : (c : ℕ) → Used d c → Used d' c
      still c u = record {
        fits = u.fits;
        taken = ground (arith, marks c u.fits, u.taken);
        above = u.above;
      }

      not_new : (k : ℕ) → k < 269 → slot a d k ≡ b → ⊥
      not_new k lt e =
          let u = subst (Used d) e (o.used k lt (λ x. ground (arith, sym e ∙ x, above))) in
          let taken = u.taken in cc
