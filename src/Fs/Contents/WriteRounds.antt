-- ===== src/Fs/Contents/WriteRounds.antt =====
-- kernel/fs.c: a round of the loop of `writei`.
use os_prioritypipes.Prelude.{
  ℕ, ◌+◌, ◌-◌, ◌/◌, ◌≤◌, ◌<◌, ◌≡◌, ◌≢◌, refl, ap, subst, ◌∙◌, ◌⊎◌, inl, inr, false, ltb, Bool-cases,
  arith,
}
use os_prioritypipes.Fs.{Superblock, Blocks, is_free}
use os_prioritypipes.Fs.Bitmap.{Sound}
use os_prioritypipes.Fs.Inodes.{Dinode}
use os_prioritypipes.Fs.Inodes.Slots.{slot, place_of, Owns}
use os_prioritypipes.Fs.Contents.{Memory, Written}
use os_prioritypipes.Fs.Contents.Bytes.{file_byte, Has}
use os_prioritypipes.Fs.Contents.Copying.{Copied, share}

module _ (sb : Superblock) where
  -- Why the loop stops after `tot` of the `n` bytes, before the byte at `off`, which is to come from `src`: at
  -- its end; as the file has no block for this byte and none is free; or as what is to go into its block
  -- cannot all be copied from `src`.
  pub data Stop (mem : Memory) (src off tot n : ℕ) (a : ℕ → ℕ) (d : Blocks) : Type 0 where
    done : tot ≡ n → Stop mem src off tot n a d
    no_block :
        tot < n
        → slot a d (place_of (off / 1024)) ≡ 0
        → ((c : ℕ) → c < sb.size → is_free sb d c ≡ false)
        → Stop mem src off tot n a d
    no_page :
        tot < n
        → mem.copied src (share off (n - tot)) ≢ share off (n - tot)
        → Stop mem src off tot n a d

  pub Stop-at :
      (mem : Memory) (src src' off off' tot n : ℕ) (a : ℕ → ℕ) (d : Blocks)
      → src ≡ src'
      → off ≡ off'
      → Stop mem src off tot n a d
      → Stop mem src' off' tot n a d
  Stop-at mem src src' off off' tot n a d e f stop =
      subst (λ x. Stop mem x off' tot n a d) e (subst (λ x. Stop mem src x tot n a d) f stop)

  -- What the loop of `writei` comes to, from a round on.
  pub record Wrote (mem : Memory) (tot off src n : ℕ) (ip : Dinode) (d : Blocks) (r : Written)
      : Type 0 where
    pub sound : Sound sb r.3
    pub owns : Owns sb r.2.addrs r.3
    pub rest : r.2 ≡ record ip { addrs = r.2.addrs }
    pub forward : tot ≤ r.0
    pub most : r.0 ≤ n
    pub moved : r.1 + tot ≡ off + r.0
    pub has :
        (o : ℕ) → o < 274432 → Has ip.addrs d o ⊎ ((off ≤ o) × (o < r.1)) → Has r.2.addrs r.3 o
    pub new : (o : ℕ) → off ≤ o → o < r.1 → file_byte r.2.addrs r.3 o ≡ mem.byte (src + (o - off))
    pub old :
        (o : ℕ)
        → o < 274432
        → (o < off) ⊎ (off + n ≤ o + tot)
        → file_byte r.2.addrs r.3 o ≡ file_byte ip.addrs d o
    pub why : Stop mem (src + (r.0 - tot)) (off + (r.0 - tot)) r.0 n r.2.addrs r.3

  -- A round that copies the `m` bytes it is to copy, and then the rounds after it.
  pub round-Wrote :
      (mem : Memory) (tot off src n m : ℕ) (ip : Dinode) (d : Blocks) (ip1 : Dinode) (d1 : Blocks)
      (r : Written)
      → tot + m ≤ n
      → off + n ≤ 274432 + tot
      → ip1 ≡ record ip { addrs = ip1.addrs }
      → Copied sb mem off m src ip.addrs d ip1.addrs d1
      → Wrote mem (tot + m) (off + m) (src + m) n ip1 d1 r
      → Wrote mem tot off src n ip d r
  round-Wrote mem tot off src n m ip d ip1 d1 r le fits rest c w = record {
    sound = w.sound;
    owns = w.owns;
    rest =
        let set_addrs : Dinode → Dinode = λ x. record x { addrs = r.2.addrs } in
        w.rest ∙ ap set_addrs rest;
    forward = omega (arith, w.forward);
    most = w.most;
    moved = omega (arith, w.moved);
    has = λ o lo kept. w.has o lo (there o lo kept);
    new = λ o lo hi. elim (Bool-cases (ltb o (off + m))) [
      | inl here ↦
          w.old o (omega (arith, hi, w.moved, w.most, fits)) (inl (ground (arith, here)))
          ∙ c.new o lo (ground (arith, here))
      | inr later ↦
          let lo1 : off + m ≤ o = ground (arith, later) in
          let at : src + m + (o - (off + m)) ≡ src + (o - off) = omega (arith, lo1) in
          w.new o lo1 hi ∙ ap mem.byte at
    ];
    old = λ o lo out. w.old o lo (after o out) ∙ c.old o lo (before o out);
    why =
        Stop-at mem _ _ _ _ r.0 n r.2.addrs r.3 (omega (arith, w.forward))
          (omega (arith, w.forward)) w.why;
  }
    where
      there :
          (o : ℕ)
          → o < 274432
          → Has ip.addrs d o ⊎ ((off ≤ o) × (o < r.1))
          → Has ip1.addrs d1 o ⊎ ((off + m ≤ o) × (o < r.1))
      there o lo (inl before) = inl (c.has o lo (inl before))
      there o lo (inr (from, to)) = elim (Bool-cases (ltb o (off + m))) [
        | inl now ↦ inl (c.has o lo (inr (from, ground (arith, now))))
        | inr later ↦ inr (ground (arith, later), to)
      ]

      after :
          (o : ℕ) → (o < off) ⊎ (off + n ≤ o + tot) → (o < off + m) ⊎ (off + m + n ≤ o + (tot + m))
      after o (inl lo) = inl (omega (arith, lo))
      after o (inr hi) = inr (omega (arith, hi))

      before : (o : ℕ) → (o < off) ⊎ (off + n ≤ o + tot) → (o < off) ⊎ (off + m ≤ o)
      before o (inl lo) = inl lo
      before o (inr hi) = inr (omega (arith, hi, le))

  pub finished :
      (mem : Memory) (tot off src n : ℕ) (ip : Dinode) (d : Blocks)
      → Sound sb d
      → Owns sb ip.addrs d
      → tot ≤ n
      → Stop mem src off tot n ip.addrs d
      → Wrote mem tot off src n ip d (tot, off, ip, d)
  finished mem tot off src n ip d h w le why = record {
    sound = h;
    owns = w;
    rest = refl;
    forward = omega arith;
    most = le;
    moved = omega arith;
    has = λ o lo kept. still o kept;
    new = λ o lo hi. absurd (omega (arith, lo, hi));
    old = λ o lo out. refl;
    why = Stop-at mem _ _ _ _ tot n ip.addrs d (omega arith) (omega arith) why;
  }
    where
      still : (o : ℕ) → Has ip.addrs d o ⊎ ((off ≤ o) × (o < off)) → Has ip.addrs d o
      still o (inl before) = before
      still o (inr (from, to)) = absurd (omega (arith, from, to))

  -- A round in which a page may not be used, or no block is free.
  pub stopped :
      (mem : Memory) (tot off src n k : ℕ) (ip : Dinode) (d : Blocks) (ip1 : Dinode) (d1 : Blocks)
      → tot + k ≤ n
      → ip1 ≡ record ip { addrs = ip1.addrs }
      → Copied sb mem off k src ip.addrs d ip1.addrs d1
      → Stop mem src off tot n ip1.addrs d1
      → Wrote mem tot off src n ip d (tot, off, ip1, d1)
  stopped mem tot off src n k ip d ip1 d1 le rest c why = record {
    sound = c.sound;
    owns = c.owns;
    rest = rest;
    forward = omega arith;
    most = omega (arith, le);
    moved = omega arith;
    has = λ o lo kept. c.has o lo (still o kept);
    new = λ o lo hi. absurd (omega (arith, lo, hi));
    old = λ o lo out. c.old o lo (before o out);
    why = Stop-at mem _ _ _ _ tot n ip1.addrs d1 (omega arith) (omega arith) why;
  }
    where
      still :
          (o : ℕ)
          → Has ip.addrs d o ⊎ ((off ≤ o) × (o < off))
          → Has ip.addrs d o ⊎ ((off ≤ o) × (o < off + k))
      still o (inl already) = inl already
      still o (inr (from, to)) = absurd (omega (arith, from, to))

      before : (o : ℕ) → (o < off) ⊎ (off + n ≤ o + tot) → (o < off) ⊎ (off + k ≤ o)
      before o (inl lo) = inl lo
      before o (inr hi) = inr (omega (arith, hi, le))
