-- ===== src/Fs/Contents/Reads.antt =====
-- kernel/fs.c: the loop of `readi`.
use os_prioritypipes.Prelude.{
  ℕ, zero, suc, ◌+◌, ◌-◌, ◌/◌, ◌%◌, ◌≤◌, ◌<◌, ◌≡◌, ◌≢◌, refl, sym, ap, subst, ◌∙◌, ◌⊎◌, inl, inr,
  false, ◌&&◌, ltb, leb, ◌==◌, if◌then◌else◌, Bool-cases, arith,
}
use os_prioritypipes.Prelude.Results.{Result, Returns, returns, bind, mono}
use os_prioritypipes.Fs.{Superblock, Blocks}
use os_prioritypipes.Fs.Bitmap.{Sound}
use os_prioritypipes.Fs.Inodes.{Dinode}
use os_prioritypipes.Fs.Inodes.Slots.{slot, place_of, Owns}
use os_prioritypipes.Fs.Inodes.Adding.{IsSmall, Mapped}
use os_prioritypipes.Fs.Inodes.Mapping.{bmap-Mapped}
use os_prioritypipes.Fs.Contents.{Memory, BytesRead, copy, min, read_block, read_loop}
use os_prioritypipes.Fs.Contents.Bytes.{file_byte, Grows-Has, Grows-file_byte}
use os_prioritypipes.Fs.Contents.Copying.{IsMemory, share}
use os_prioritypipes.Fs.Contents.ReadRounds.{AreRead, Read, finished, round-Read, failed}

module _ (sb : Superblock) where
  -- A round, when the rounds after it do what they should.
  block-Read :
      (mem : Memory) (more : ℕ → Dinode → Blocks → (ℕ → ℕ) → Result BytesRead) (tot off dst n : ℕ)
      (ip : Dinode) (d : Blocks) (to : ℕ → ℕ) (r : ℕ × Dinode × Blocks)
      → IsMemory mem
      → tot < n
      → off + n ≤ 274432 + tot
      → Owns sb ip.addrs d
      → Mapped sb (place_of (off / 1024)) ip d r
      → ((m : ℕ) (ip1 : Dinode) (d1 : Blocks) (to1 : ℕ → ℕ)
          → 0 < m
          → tot + m ≤ n
          → Sound sb d1
          → Owns sb ip1.addrs d1
          → Returns (Read sb mem (tot + m) (off + m) (dst + m) n ip1 d1 to1) (more m ip1 d1 to1))
      → Returns (Read sb mem tot off dst n ip d to) (read_block sb mem more tot off dst n to r)
  block-Read mem more tot off dst n ip d to (addr, ip1, d1) im lt fits w mapped next =
      elim (Bool-cases (addr == 0)) [
        | inl none_free ↦ rw none_free (
            returns (
              finished sb mem tot off dst n ip d ip1 d1 to (omega (arith, lt)) h1 w1 mapped.rest
                same absent
                (inr (
                  absent off (omega (arith, lt, fits)) (mapped.here ∙ ground (arith, none_free)),
                  mapped.out (ground (arith, none_free)),
                ))))
        | inr found ↦ elim (Bool-cases (mem.copied dst m == m)) [
          | inr short ↦
              rw (found, short)
                (returns record {
                  sound = h1;
                  owns = w1;
                  rest = mapped.rest;
                  same = same;
                  absent = absent;
                  beyond = λ x out. beside (mem.copied dst m) x (im.at_most dst m) out;
                  count =
                      failed 0 dst m (omega (arith, lt)) (omega arith) same_share
                        (ground (arith, short)) (omega (arith, im.at_most dst m, within_n))
                        (subst (λ k. AreRead k dst off ip.addrs d to (to1 (mem.copied dst m)))
                          (sym (none_before (mem.copied dst m)))
                          (λ x.
                            bytes (ground (arith, found)) (mem.copied dst m) x (im.at_most dst m)));
                })
          | inl full ↦
              let e : mem.copied dst m ≡ m = ground (arith, full) in
              rw (found, full)
                (mono
                  (next m ip1 d1 (to1 (mem.copied dst m)) (ground (arith, lt)) (ground (arith, lt))
                    h1 w1)
                  (λ r.
                    round-Read sb mem tot off dst n m ip d ip1 d1 to (to1 (mem.copied dst m)) r
                      (ground (arith, lt)) fits mapped.rest same absent
                      (subst (λ k. AreRead k dst off ip.addrs d to (to1 (mem.copied dst m))) e
                        (λ x.
                          bytes (ground (arith, found)) (mem.copied dst m) x (im.at_most dst m)))))
        ]
      ]
    where
      m : ℕ
      m = min (n - tot) (1024 - off % 1024)

      same_share : m ≡ share (off + 0) (n - (tot + 0))
      same_share = ground arith

      none_before : (k : ℕ) → 0 + k ≡ k
      none_before k = omega arith

      within_n : tot + m ≤ n
      within_n = ground (arith, lt)

      to1 : ℕ → ℕ → ℕ
      to1 k = copy k to dst (off % 1024) (d1 addr)

      h1 : Sound sb d1
      h1 = mapped.grows.sound

      w1 : Owns sb ip1.addrs d1
      w1 = mapped.grows.owns

      same : (o : ℕ) → o < 274432 → file_byte ip1.addrs d1 o ≡ file_byte ip.addrs d o
      same o lo = Grows-file_byte sb ip.addrs d ip1.addrs d1 o lo w mapped.grows

      absent :
          (o : ℕ)
          → o < 274432
          → slot ip1.addrs d1 (place_of (o / 1024)) ≡ 0
          → slot ip.addrs d (place_of (o / 1024)) ≡ 0
      absent o lo z = elim (Bool-cases (slot ip.addrs d (place_of (o / 1024)) == 0)) [
        | inl none_yet ↦ ground (arith, none_yet)
        | inr there ↦
            absurd
              (Grows-Has sb ip.addrs d ip1.addrs d1 o lo mapped.grows (ground (arith, there)) z)
      ]

      beside : (k x : ℕ) → k ≤ m → (x < dst) ⊎ (dst + n ≤ x + tot) → to1 k x ≡ to x
      beside k x le (inl lo) = ground (arith, lo)
      beside k x le (inr hi) = ground (arith, hi, le, lt)

      here :
          addr ≢ 0 → (o : ℕ) → o / 1024 ≡ off / 1024 → file_byte ip1.addrs d1 o ≡ d1 addr (o % 1024)
      here ne o e =
          let nonzero : (addr == 0) ≡ false = ground (arith, ne) in
          rw e (rw mapped.here (rw nonzero refl))

      bytes :
          addr ≢ 0
          → (k x : ℕ) → k ≤ m
          → to1 k x ≡ (
              if leb dst x && ltb x (dst + k) then file_byte ip.addrs d (off + (x - dst)) else to x)
      bytes ne k x le = elim (Bool-cases (leb dst x && ltb x (dst + k))) [
        | inr out ↦ rw out refl
        | inl within ↦
            let e : (off + (x - dst)) / 1024 ≡ off / 1024 = ground (arith, within, le) in
            let at : off % 1024 + (x - dst) ≡ (off + (x - dst)) % 1024 =
              ground (arith, within, le) in
            let lo : off + (x - dst) < 274432 = ground (arith, within, le, lt, fits) in
            rw within
              (ap (d1 addr) at ∙ sym (here ne (off + (x - dst)) e) ∙ same (off + (x - dst)) lo)
      ]

  pub read_loop-Read :
      (mem : Memory) (rounds tot off dst n : ℕ) (ip : Dinode) (d : Blocks) (to : ℕ → ℕ)
      → IsSmall sb
      → IsMemory mem
      → tot ≤ n
      → n ≤ rounds + tot
      → off + n ≤ 274432 + tot
      → Sound sb d
      → Owns sb ip.addrs d
      → Returns (Read sb mem tot off dst n ip d to) (read_loop sb mem rounds tot off dst n ip d to)
  unfolding read_loop
  read_loop-Read mem zero tot off dst n ip d to small im le enough fits h w = returns (
      finished sb mem tot off dst n ip d ip d to le h w refl (λ o lo. refl) (λ o lo z. z)
        (inl (omega (arith, le, enough))))
  read_loop-Read mem (suc rounds) tot off dst n ip d to small im le enough fits h w =
      elim (Bool-cases (ltb tot n)) [
        | inr over ↦ rw over (
            returns (
              finished sb mem tot off dst n ip d ip d to le h w refl (λ o lo. refl) (λ o lo z. z)
                (inl (ground (arith, over, le)))))
        | inl more ↦
            let lt : tot < n = ground (arith, more) in
            rw more (
              bind (bmap-Mapped sb (off / 1024) ip d (omega (arith, lt, fits)) small h w)
                (λ r mapped.
                  block-Read mem (λ m. read_loop sb mem rounds (tot + m) (off + m) (dst + m) n) tot
                    off dst n ip d to r im lt fits w mapped
                    (λ m ip1 d1 to1 pos le1 h1 w1.
                      read_loop-Read mem rounds (tot + m) (off + m) (dst + m) n ip1 d1 to1 small im
                        le1 (omega (arith, enough, pos)) (omega (arith, fits)) h1 w1)))
      ]
