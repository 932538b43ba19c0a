-- ===== src/Fs/Contents/Copying.antt =====
-- kernel/fs.c: the copy of bytes of memory into a block of a file.
use os_prioritypipes.Prelude.{
  ℕ, ◌+◌, ◌-◌, ◌/◌, ◌%◌, ◌≤◌, ◌<◌, ◌≡◌, ◌≢◌, refl, sym, ap, subst, ◌∙◌, ◌⊎◌, inl, inr, false, ◌==◌,
  Bool-cases, arith,
}
use os_prioritypipes.Prelude.Maps.{update}
use os_prioritypipes.Fs.{Superblock, Blocks}
use os_prioritypipes.Fs.Bitmap.{Sound}
use os_prioritypipes.Fs.Inodes.{Dinode}
use os_prioritypipes.Fs.Inodes.Slots.{slot, place_of, Owns, Grows}
use os_prioritypipes.Fs.Inodes.Adding.{Mapped}
use os_prioritypipes.Fs.Contents.{Memory, min, copy}
use os_prioritypipes.Fs.Contents.Bytes.{
  file_byte, Has, Grows-Has, Grows-file_byte, Stored, update-Stored,
}

-- How many of the `left` bytes from an offset on are in the block of the first.
abbrev pub share : ℕ → ℕ → ℕ
share off left = min left (1024 - off % 1024)

-- What the memory holds are bytes, and no more is copied than was asked for.
pub record IsMemory (mem : Memory) : Type 0 where
  pub small : (a : ℕ) → mem.byte a < 256
  pub at_most : (a m : ℕ) → mem.copied a m ≤ m

module _ (sb : Superblock) where
  -- `k` bytes of memory have become the bytes of the file from `off` on.
  pub record Copied (mem : Memory) (off k src : ℕ) (a : ℕ → ℕ) (d : Blocks) (a' : ℕ → ℕ)
      (d' : Blocks) : Type 0 where
    pub sound : Sound sb d'
    pub owns : Owns sb a' d'
    pub has : (o : ℕ) → o < 274432 → Has a d o ⊎ ((off ≤ o) × (o < off + k)) → Has a' d' o
    pub new : (o : ℕ) → off ≤ o → o < off + k → file_byte a' d' o ≡ mem.byte (src + (o - off))
    pub old : (o : ℕ) → o < 274432 → (o < off) ⊎ (off + k ≤ o) → file_byte a' d' o ≡ file_byte a d o

  copy_at :
      (k p src i : ℕ) (to from : ℕ → ℕ)
      → p ≤ i
      → i < p + k
      → copy k to p src from i ≡ from (src + (i - p))
  copy_at k p src i to from lo hi = ground (arith, lo, hi)

  copy_off :
      (k p src i : ℕ) (to from : ℕ → ℕ) → (i < p) ⊎ (p + k ≤ i) → copy k to p src from i ≡ to i
  copy_off k p src i to from (inl lo) = ground (arith, lo)
  copy_off k p src i to from (inr hi) = ground (arith, hi)

  -- One block that `bmap` has returned, after the copy into its buffer.
  pub block-Copied :
      (mem : Memory) (off k src : ℕ) (ip : Dinode) (d : Blocks) (addr : ℕ) (ip1 : Dinode)
      (d1 : Blocks)
      → IsMemory mem
      → off < 274432
      → off % 1024 + k ≤ 1024
      → addr ≢ 0
      → Owns sb ip.addrs d
      → Mapped sb (place_of (off / 1024)) ip d (addr, ip1, d1)
      → Copied mem off k src ip.addrs d ip1.addrs
          (update d1 addr (copy k (d1 addr) (off % 1024) src mem.byte))
  block-Copied mem off k src ip d addr ip1 d1 im lt fits ne w m = record {
    sound = s.sound;
    owns = s.owns;
    has = λ o lo kept. s.has o (there o lo kept);
    new = λ o lo hi.
        let e : o / 1024 ≡ off / 1024 = omega (arith, lo, hi, fits) in
        let at : o % 1024 - off % 1024 ≡ o - off = omega (arith, lo, hi, fits) in
        s.new o e
        ∙ copy_at k (off % 1024) src (o % 1024) (d1 addr) mem.byte (omega (arith, lo, hi, fits))
            (omega (arith, lo, hi, fits))
        ∙ ap (λ x. mem.byte (src + x)) at;
    old = λ o lo out. elim (Bool-cases (o / 1024 == off / 1024)) [
      | inr far ↦
          s.old o lo (ground (arith, far))
          ∙ Grows-file_byte sb ip.addrs d ip1.addrs d1 o lo w m.grows
      | inl this ↦
          let e : o / 1024 ≡ off / 1024 = ground (arith, this) in
          s.new o e
          ∙ copy_off k (off % 1024) src (o % 1024) (d1 addr) mem.byte (beside o e out)
          ∙ sym (here o e)
          ∙ Grows-file_byte sb ip.addrs d ip1.addrs d1 o lo w m.grows
    ];
  }
    where
      bytes : ℕ → ℕ
      bytes = copy k (d1 addr) (off % 1024) src mem.byte

      small : (i : ℕ) → bytes i < 256
      small i = ground (arith, im.small (src + (i - off % 1024)), m.grows.sound.bytes addr i)

      s : Stored sb ip1.addrs d1 (off / 1024) bytes (update d1 addr bytes)
      s =
          subst (λ b. Stored sb ip1.addrs d1 (off / 1024) bytes (update d1 b bytes)) m.here
            (update-Stored sb ip1.addrs d1 (off / 1024) bytes (omega (arith, lt))
              (λ z. ne (sym m.here ∙ z)) small m.grows.sound m.grows.owns)

      here : (o : ℕ) → o / 1024 ≡ off / 1024 → file_byte ip1.addrs d1 o ≡ d1 addr (o % 1024)
      here o e =
          let nonzero : (addr == 0) ≡ false = ground (arith, ne) in
          rw e (rw m.here (rw nonzero refl))

      there :
          (o : ℕ) → o < 274432 → Has ip.addrs d o ⊎ ((off ≤ o) × (o < off + k)) → Has ip1.addrs d1 o
      there o lo (inl before) = Grows-Has sb ip.addrs d ip1.addrs d1 o lo m.grows before
      there o lo (inr (from, to)) =
          let e : o / 1024 ≡ off / 1024 = omega (arith, from, to, fits) in
          λ z. ne (sym m.here ∙ subst (λ x. slot ip1.addrs d1 (place_of x) ≡ 0) e z)

      beside :
          (o : ℕ)
          → o / 1024 ≡ off / 1024
          → (o < off) ⊎ (off + k ≤ o)
          → (o % 1024 < off % 1024) ⊎ (off % 1024 + k ≤ o % 1024)
      beside o e (inl lo) = inl (omega (arith, lo, e))
      beside o e (inr hi) = inr (omega (arith, hi, e))

  -- `bmap` alone copies nothing.
  pub grown-Copied :
      (mem : Memory) (off src : ℕ) (ip : Dinode) (d : Blocks) (ip1 : Dinode) (d1 : Blocks)
      → Owns sb ip.addrs d
      → Grows sb ip.addrs d ip1.addrs d1
      → Copied mem off 0 src ip.addrs d ip1.addrs d1
  grown-Copied mem off src ip d ip1 d1 w g = record {
    sound = g.sound;
    owns = g.owns;
    has = λ o lo kept. there o lo kept;
    new = λ o lo hi. absurd (omega (arith, lo, hi));
    old = λ o lo out. Grows-file_byte sb ip.addrs d ip1.addrs d1 o lo w g;
  }
    where
      there :
          (o : ℕ) → o < 274432 → Has ip.addrs d o ⊎ ((off ≤ o) × (o < off + 0)) → Has ip1.addrs d1 o
      there o lo (inl before) = Grows-Has sb ip.addrs d ip1.addrs d1 o lo g before
      there o lo (inr (from, to)) = absurd (omega (arith, from, to))
