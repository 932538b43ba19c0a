-- ===== src/Fs/Inodes/Freeing.antt =====
-- kernel/fs.c: the blocks that the loops of `itrunc` free.
use os_prioritypipes.Prelude.{
  ℕ, zero, suc, ◌+◌, ◌≤◌, ◌<◌, ◌≡◌, ◌≢◌, refl, sym, ap, subst, ◌∙◌, inl, inr, Bool, false, ◌||◌,
  ◌==◌, if◌then◌else◌, Bool-cases, arith,
}
use os_prioritypipes.Prelude.Results.{Returns, returns, bind, mono}
use os_prioritypipes.Fs.{Superblock, Blocks, is_free, bfree}
use os_prioritypipes.Fs.Words.{word}
use os_prioritypipes.Fs.Bitmap.{Sound, last_bitmap_block, bfree_lem}
use os_prioritypipes.Fs.Inodes.{free_words}
use os_prioritypipes.Fs.Inodes.Slots.{Used}

-- The number `c` is among the `rounds` numbers from place `i` on.
unfoldable pub holds : (ℕ → ℕ) → ℕ → ℕ → ℕ → Bool
holds f zero i c = false
holds f (suc rounds) i c = (f i == c) || holds f rounds (i + 1) c

-- The block `c` is one of the file's.
abbrev pub owns_block : (ℕ → ℕ) → Blocks → ℕ → Bool
owns_block a d c =
    holds a 12 0 c
    || (if a 12 == 0 then false else (holds (word (d (a 12))) 256 0 c || (a 12 == c)))

pub holds-ext :
    (f g : ℕ → ℕ) (rounds i c : ℕ)
    → ((j : ℕ) → i ≤ j → f j ≡ g j)
    → holds f rounds i c ≡ holds g rounds i c
unfolding holds
holds-ext f g zero i c h = refl
holds-ext f g (suc rounds) i c h =
    ground (arith, h i, holds-ext f g rounds (i + 1) c (λ j lo. h j (omega (arith, lo))))

module _ (sb : Superblock) where
  -- The blocks that pass a test have become free, and no other block has changed.
  pub record Frees (d : Blocks) (p : ℕ → Bool) (d' : Blocks) : Type 0 where
    pub sound : Sound sb d'
    pub marks : (c : ℕ) → last_bitmap_block sb < c → is_free sb d' c ≡ (is_free sb d c || p c)
    pub bytes : (c : ℕ) → last_bitmap_block sb < c → d' c ≡ d c

  pub none-Frees : (d : Blocks) → Sound sb d → Frees d (λ c. false) d
  none-Frees d h = record { sound = h; marks = λ c above. ground arith; bytes = λ c above. refl }

  pub Frees-trans :
      (d d1 d2 : Blocks) (p q r : ℕ → Bool)
      → Frees d p d1
      → Frees d1 q d2
      → ((c : ℕ) → last_bitmap_block sb < c → r c ≡ (p c || q c))
      → Frees d r d2
  Frees-trans d d1 d2 p q r f g same = record {
    sound = g.sound;
    marks = λ c above. ground (arith, g.marks c above, f.marks c above, same c above);
    bytes = λ c above. g.bytes c above ∙ f.bytes c above;
  }

  pub bfree-Frees :
      (b : ℕ) (d : Blocks)
      → Used sb d b
      → Sound sb d
      → Returns (Frees d (λ c. b == c)) (bfree sb b d)
  bfree-Frees b d u h =
      mono (bfree_lem sb b d u.fits u.taken u.above h) (λ d1 (marks, bytes, sound). record {
        sound = sound;
        marks = λ c above. ground (arith, marks c);
        bytes = bytes;
      })

  -- A block that is not the one freed stays in use.
  pub still-Used :
      (d d1 : Blocks) (b x : ℕ) → Frees d (λ c. b == c) d1 → Used sb d x → b ≢ x → Used sb d1 x
  still-Used d d1 b x f u ne =
      let above = u.above in
      record { fits = u.fits; taken = ground (arith, f.marks x above, u.taken, ne); above = above }

  -- The numbers from place `i` on, `rounds` of them, are those of blocks in use, none twice.
  pub record Distinct (f : ℕ → ℕ) (rounds i : ℕ) (d : Blocks) : Type 0 where
    pub used : (j : ℕ) → i ≤ j → j < i + rounds → f j ≢ 0 → Used sb d (f j)
    pub apart : (j k : ℕ) → i ≤ j → j < k → k < i + rounds → f j ≢ 0 → f j ≢ f k

  pub next-Distinct :
      (f g : ℕ → ℕ) (rounds i : ℕ) (d d1 : Blocks)
      → f i ≢ 0
      → ((j : ℕ) → i < j → g j ≡ f j)
      → Distinct f (suc rounds) i d
      → Frees d (λ c. f i == c) d1
      → Distinct g rounds (i + 1) d1
  next-Distinct f g rounds i d d1 ne same w fr = record {
    used = λ j lo hi nj.
        let e = same j (omega (arith, lo)) in
        let nf : f j ≢ 0 = λ z. nj (e ∙ z) in
        subst (Used sb d1) (sym e) (
          still-Used d d1 (f i) (f j) fr (w.used j (omega (arith, lo)) (omega (arith, hi)) nf)
            (w.apart i j (omega arith) (omega (arith, lo)) (omega (arith, hi)) ne));
    apart = λ j k lo lt hi nj e.
        let ej = same j (omega (arith, lo)) in
        let ek = same k (omega (arith, lo, lt)) in
        w.apart j k (omega (arith, lo)) lt (omega (arith, hi)) (λ z. nj (ej ∙ z)) (sym ej ∙ e ∙ ek);
  }

  pub skip-Distinct :
      (f : ℕ → ℕ) (rounds i : ℕ) (d : Blocks)
      → Distinct f (suc rounds) i d
      → Distinct f rounds (i + 1) d
  skip-Distinct f rounds i d w = record {
    used = λ j lo hi nj. w.used j (omega (arith, lo)) (omega (arith, hi)) nj;
    apart = λ j k lo lt hi nj. w.apart j k (omega (arith, lo)) lt (omega (arith, hi)) nj;
  }

  pub free_words-Frees :
      (rounds table j : ℕ) (d : Blocks)
      → last_bitmap_block sb < table
      → Sound sb d
      → Distinct (word (d table)) rounds j d
      → Returns (Frees d (holds (word (d table)) rounds j)) (free_words sb rounds table j d)
  unfolding free_words holds
  free_words-Frees zero table j d above h w = returns (none-Frees d h)
  free_words-Frees (suc rounds) table j d above h w = elim (Bool-cases (word (d table) j == 0)) [
    | inl absent ↦
        let z : word (d table) j ≡ 0 = ground (arith, absent) in
        rw absent (
          mono
            (free_words-Frees rounds table (j + 1) d above h
              (skip-Distinct (word (d table)) rounds j d w))
            (λ d2 f.
              Frees-trans d d d2 (λ c. false) _ _ (none-Frees d h) f
                (λ c behind. ground (arith, z, behind))))
    | inr there ↦
        let ne : word (d table) j ≢ 0 = ground (arith, there) in
        rw there (
          bind (bfree-Frees (word (d table) j) d (w.used j (omega arith) (omega arith) ne) h)
            (λ d1 f.
              let kept = f.bytes table above in
              let same = λ (k : ℕ). ap (λ t. word t k) kept in
              mono
                (free_words-Frees rounds table (j + 1) d1 above f.sound (
                  next-Distinct (word (d table)) (word (d1 table)) rounds j d d1 ne (λ k lo. same k)
                    w f))
                (λ d2 g. Frees-trans d d1 d2 _ _ _ f g (λ c behind.
                  ap (λ t. (word (d table) j == c) || t)
                    (holds-ext (word (d table)) (word (d1 table)) rounds (j + 1) c
                      (λ k lo. sym (same k)))))))
  ]
