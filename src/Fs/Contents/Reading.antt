-- ===== src/Fs/Contents/Reading.antt =====
-- kernel/fs.c: what `readi` finds in a file.
use os_prioritypipes.Prelude.{
  ℕ, ◌+◌, ◌-◌, ◌%◌, ◌≤◌, ◌<◌, ◌≡◌, refl, sym, ap, subst, ◌∙◌, ◌⊎◌, inl, inr, true, false, ◌&&◌,
  some, ltb, leb, ◌==◌, if◌then◌else◌, Bool-cases, arith,
}
use os_prioritypipes.Prelude.Results.{Returns, returns, mono}
use os_prioritypipes.Fs.{Superblock, Blocks}
use os_prioritypipes.Fs.Bitmap.{Sound}
use os_prioritypipes.Fs.Inodes.{Dinode}
use os_prioritypipes.Fs.Inodes.Slots.{Owns}
use os_prioritypipes.Fs.Inodes.Adding.{IsSmall}
use os_prioritypipes.Fs.Contents.{Memory, BytesRead, readi}
use os_prioritypipes.Fs.Contents.Bytes.{file_byte, Has}
use os_prioritypipes.Fs.Contents.Copying.{IsMemory}
use os_prioritypipes.Fs.Contents.ReadRounds.{Count, read, failed, Read, finished}
use os_prioritypipes.Fs.Contents.Reads.{read_loop-Read}

-- how many bytes `readi` is to read
abbrev pub wanted : ℕ → ℕ → Dinode → ℕ
wanted off n ip =
    if ltb ip.size off then 0 else (if ltb ip.size (off + n) then ip.size - off else n)

module _ (sb : Superblock) where
  -- Where the bitmap is sound and the numbers in the inode are those of distinct blocks in use,
  -- the size is at most the largest, and `off + n` is a `uint`, `readi` does not panic, and what
  -- the file holds stays. It returns the number of the bytes that are in memory then, which are
  -- those of the file from `off` on, or -1 as those of a block cannot all be copied to where they
  -- are to go, and then those before them and those that could be are in memory; the number is what there
  -- is up to the end of the file, `n` at most, unless a block is missing and none is free. No
  -- byte of memory beyond those is touched.
  pub readi-Read :
      (mem : Memory) (dst off n : ℕ) (ip : Dinode) (d : Blocks)
      → IsSmall sb
      → IsMemory mem
      → ip.size ≤ 274432
      → off + n < 4294967296
      → Sound sb d
      → Owns sb ip.addrs d
      → Returns
          (Read sb mem 0 off dst (wanted off n ip) ip d mem.byte)
          (readi sb mem dst off n ip d)
  unfolding readi
  readi-Read mem dst off n ip d small im size lt h w = elim (Bool-cases (ltb ip.size off)) [
    | inl behind ↦ rw behind (
        returns (
          finished sb mem 0 off dst 0 ip d ip d mem.byte (omega arith) h w refl (λ o lo. refl)
            (λ o lo z. z) (inl refl)))
    | inr within ↦
        let inside : ltb ((off + n) % 4294967296) off ≡ false = ground (arith, lt) in
        let all = if ltb ip.size (off + n) then ip.size - off else n in
        rw (within, inside)
          (read_loop-Read sb mem all 0 off dst all ip d mem.byte small im (omega arith)
            (omega arith) (ground (arith, size, within)) h w)
  ]

  -- All bytes are there, and `n` is returned.
  pub record Whole (dst off n : ℕ) (ip : Dinode) (d : Blocks) (to : ℕ → ℕ) (r : BytesRead)
      : Type 0 where
    pub sound : Sound sb r.2
    pub owns : Owns sb r.1.addrs r.2
    pub rest : r.1 ≡ record ip { addrs = r.1.addrs }
    pub same : (o : ℕ) → o < 274432 → file_byte r.1.addrs r.2 o ≡ file_byte ip.addrs d o
    pub has : (o : ℕ) → o < 274432 → Has ip.addrs d o → Has r.1.addrs r.2 o
    pub beyond : (x : ℕ) → (x < dst) ⊎ (dst + n ≤ x) → r.3 x ≡ to x
    pub count : r.0 ≡ some n
    pub bytes : (i : ℕ) → i < n → r.3 (dst + i) ≡ file_byte ip.addrs d (off + i)

  -- Where the file has a block for each byte that is to be read, and each page may be written, all
  -- of them are read.
  pub readi-Whole :
      (mem : Memory) (dst off n : ℕ) (ip : Dinode) (d : Blocks)
      → IsSmall sb
      → IsMemory mem
      → ((a m : ℕ) → mem.copied a m ≡ m)
      → ip.size ≤ 274432
      → off + n ≤ ip.size
      → ((o : ℕ) → off ≤ o → o < off + n → Has ip.addrs d o)
      → Sound sb d
      → Owns sb ip.addrs d
      → Returns (Whole dst off n ip d mem.byte) (readi sb mem dst off n ip d)
  readi-Whole mem dst off n ip d small im all size fits has h w =
      mono (readi-Read mem dst off n ip d small im size (omega (arith, size, fits)) h w) (λ r got.
        let all_wanted : wanted off n ip ≡ n = ground (arith, fits) in
        let (count, bytes) =
          counted r (
            subst (λ x. Count sb mem 0 off dst x ip d r.2 mem.byte r.3 r.0) all_wanted got.count) in
        record {
          sound = got.sound;
          owns = got.owns;
          rest = got.rest;
          same = got.same;
          has = λ o lo there z. there (got.absent o lo z);
          beyond = λ x out.
              got.beyond x
                (subst (λ t. (x < dst) ⊎ (dst + t ≤ x + 0)) (sym all_wanted) (beside x out));
          count = count;
          bytes = bytes;
        })
    where
      beside : (x : ℕ) → (x < dst) ⊎ (dst + n ≤ x) → (x < dst) ⊎ (dst + n ≤ x + 0)
      beside x (inl lo) = inl lo
      beside x (inr hi) = inr (omega (arith, hi))

      counted :
          (r : BytesRead)
          → Count sb mem 0 off dst n ip d r.2 mem.byte r.3 r.0
          → (r.0 ≡ some n) × ((i : ℕ) → i < n → r.3 (dst + i) ≡ file_byte ip.addrs d (off + i))
      counted (_, ip2, d2, to) (failed j b m short at size ne le bytes) = absurd (ne (all b m))
      counted (_, ip2, d2, to) (read j le bytes why) =
          let whole : j ≡ n = elim why [
            | inl end ↦ omega (arith, end)
            | inr (missing, none_free) ↦ elim (Bool-cases (j == n)) [
              | inl end ↦ ground (arith, end)
              | inr short ↦ absurd (has (off + j) (omega arith) (ground (arith, short, le)) missing)
            ]
          ] in
          (
            ap some (omega (arith, whole)),
            λ i lt.
                let within : (leb dst (dst + i) && ltb (dst + i) (dst + j)) ≡ true =
                  ground (arith, lt, whole) in
                let at : dst + i - dst ≡ i = omega arith in bytes (dst + i) ∙ rw (within, at) refl,
          )
