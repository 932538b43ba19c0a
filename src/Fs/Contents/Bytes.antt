-- ===== src/Fs/Contents/Bytes.antt =====
-- kernel/fs.c: a file as a function from offsets to bytes, and what the change of a block does to it.
use os_prioritypipes.Prelude.{
  ℕ, ◌/◌, ◌%◌, ◌<◌, ◌≡◌, ◌≢◌, refl, sym, ap, subst, ◌∙◌, inl, inr, false, ◌==◌, if◌then◌else◌,
  Bool-cases, arith,
}
use os_prioritypipes.Prelude.Maps.{update}
use os_prioritypipes.Fs.{Superblock, Blocks}
use os_prioritypipes.Fs.Bitmap.{Sound}
use os_prioritypipes.Fs.Inodes.Slots.{slot, place_of, Used, Owns, Grows}
use os_prioritypipes.Fs.Inodes.Adding.{is_free-update, update-Sound}

-- The byte at an offset, 0 where the file has no block.
abbrev pub file_byte : (ℕ → ℕ) → Blocks → ℕ → ℕ
file_byte a d o = let b = slot a d (place_of (o / 1024)) in if b == 0 then 0 else d b (o % 1024)

-- The file has a block for the byte at an offset.
abbrev pub Has : (ℕ → ℕ) → Blocks → ℕ → Type 0
Has a d o = slot a d (place_of (o / 1024)) ≢ 0

place_lt : (bn : ℕ) → bn < 268 → place_of bn < 269
place_lt bn lt = ground (arith, lt)

place_ne : (bn : ℕ) → place_of bn ≢ 12
place_ne bn e = ground (arith, e)

same_place : (x y : ℕ) → place_of x ≡ place_of y → x ≡ y
same_place x y e = ground (arith, e)

module _ (sb : Superblock) where
  -- Adding blocks changes no byte of the file.
  pub Grows-file_byte :
      (a : ℕ → ℕ) (d : Blocks) (a' : ℕ → ℕ) (d' : Blocks) (o : ℕ)
      → o < 274432
      → Owns sb a d
      → Grows sb a d a' d'
      → file_byte a' d' o ≡ file_byte a d o
  Grows-file_byte a d a' d' o lt w g = elim (Bool-cases (slot a d p == 0)) [
    | inl absent ↦ elim (Bool-cases (slot a' d' p == 0)) [
      | inl still ↦ rw (absent, still) refl
      | inr now ↦
          rw (absent, now)
            (g.zeroed p bound (place_ne (o / 1024)) (ground (arith, absent)) (ground (arith, now))
              (o % 1024))
    ]
    | inr there ↦
        let ne : slot a d p ≢ 0 = ground (arith, there) in
        let same = g.kept p bound ne in
        let distinct : slot a d p ≢ a 12 =
          λ e. place_ne (o / 1024) (w.apart p 12 bound (omega arith) ne e) in
        let bytes = g.others (slot a d p) (w.used p bound ne) distinct in
        rw (same, there) (ap (λ m. m (o % 1024)) bytes)
  ]
    where
      p : ℕ
      p = place_of (o / 1024)

      bound : p < 269
      bound = place_lt (o / 1024) (omega (arith, lt))

  pub Grows-Has :
      (a : ℕ → ℕ) (d : Blocks) (a' : ℕ → ℕ) (d' : Blocks) (o : ℕ)
      → o < 274432
      → Grows sb a d a' d'
      → Has a d o
      → Has a' d' o
  Grows-Has a d a' d' o lt g ne z =
      ne (sym (g.kept (place_of (o / 1024)) (place_lt (o / 1024) (omega (arith, lt))) ne) ∙ z)

  slot-update :
      (a : ℕ → ℕ) (d : Blocks) (bn j : ℕ) (bytes : ℕ → ℕ)
      → bn < 268
      → Owns sb a d
      → slot a d (place_of bn) ≢ 0
      → slot a (update d (slot a d (place_of bn)) bytes) j ≡ slot a d j
  slot-update a d bn j bytes lt w ne =
      let distinct : slot a d (place_of bn) ≢ a 12 =
        λ e. place_ne bn (w.apart (place_of bn) 12 (place_lt bn lt) (omega arith) ne e) in
      let miss : (a 12 == slot a d (place_of bn)) ≡ false = ground (arith, distinct) in rw miss refl

  -- New bytes in the block `bn` of a file are its bytes from `bn * 1024` on.
  pub record Stored (a : ℕ → ℕ) (d : Blocks) (bn : ℕ) (bytes : ℕ → ℕ) (d' : Blocks) : Type 0 where
    pub sound : Sound sb d'
    pub owns : Owns sb a d'
    pub has : (o : ℕ) → Has a d o → Has a d' o
    pub new : (o : ℕ) → o / 1024 ≡ bn → file_byte a d' o ≡ bytes (o % 1024)
    pub old : (o : ℕ) → o < 274432 → o / 1024 ≢ bn → file_byte a d' o ≡ file_byte a d o

  pub update-Stored :
      (a : ℕ → ℕ) (d : Blocks) (bn : ℕ) (bytes : ℕ → ℕ)
      → bn < 268
      → slot a d (place_of bn) ≢ 0
      → ((i : ℕ) → bytes i < 256)
      → Sound sb d
      → Owns sb a d
      → Stored a d bn bytes (update d (slot a d (place_of bn)) bytes)
  update-Stored a d bn bytes lt ne small h w =
      let b = slot a d (place_of bn) in
      let d' = update d b bytes in
      let at = w.used (place_of bn) (place_lt bn lt) ne in
      let same = λ (j : ℕ). slot-update a d bn j bytes lt w ne in
      let used' : (c : ℕ) → Used sb d c → Used sb d' c = λ c u. record {
        fits = u.fits;
        taken = is_free-update sb d b c bytes at.above u.fits ∙ u.taken;
        above = u.above;
      } in
      record {
        sound = update-Sound sb d b bytes at.above small h;
        owns = record {
          used = λ j lj nj.
              subst (Used sb d') (sym (same j))
                (used' (slot a d j) (w.used j lj (λ x. nj (same j ∙ x))));
          apart = λ j k lj lk nj e.
              w.apart j k lj lk (λ x. nj (same j ∙ x)) (sym (same j) ∙ e ∙ same k);
        };
        has = λ o ne_o z. ne_o (sym (same (place_of (o / 1024))) ∙ z);
        new = λ o e.
            let there : (slot a d (place_of bn) == 0) ≡ false = ground (arith, ne) in
            rw e (rw (same (place_of bn), there) (ground arith));
        old = λ o lo far.
            let s = same (place_of (o / 1024)) in
            elim (Bool-cases (slot a d (place_of (o / 1024)) == 0)) [
              | inl absent ↦ rw (s, absent) refl
              | inr there ↦
                  let distinct : slot a d (place_of (o / 1024)) ≢ b = λ e. far (
                    same_place (o / 1024) bn (
                      w.apart (place_of (o / 1024)) (place_of bn)
                        (place_lt (o / 1024) (omega (arith, lo))) (place_lt bn lt)
                        (ground (arith, there)) e)) in
                  let miss : (slot a d (place_of (o / 1024)) == b) ≡ false =
                    ground (arith, distinct) in
                  rw (s, there, miss) refl
            ];
      }
