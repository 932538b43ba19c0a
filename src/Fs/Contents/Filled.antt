-- ===== src/Fs/Contents/Filled.antt =====
-- kernel/fs.c: `readi` of a file that has all its blocks. It then writes nothing to the disk, so that it may be
-- called outside a transaction.
use os_prioritypipes.Prelude.{
  ℕ, zero, suc, ◌+◌, ◌-◌, ◌/◌, ◌%◌, ◌≤◌, ◌<◌, ◌≡◌, ◌≢◌, refl, ap, ◌∙◌, inl, inr, true, false,
  Option, ltb, ◌==◌, if◌then◌else◌, Bool-cases, arith,
}
use os_prioritypipes.Prelude.Results.{Result, ok}
use os_prioritypipes.Fs.{Superblock, Blocks}
use os_prioritypipes.Fs.Words.{word}
use os_prioritypipes.Fs.Inodes.{Dinode, bmap_addr, bmap_word, bmap_indirect, bmap}
use os_prioritypipes.Fs.Inodes.Slots.{slot, place_of}
use os_prioritypipes.Fs.Contents.{Memory, BytesRead, min, read_block, read_loop, readi, is_outside}
use os_prioritypipes.Fs.Contents.Bytes.{Has}

-- The inode and the disk are what they were, whatever was read.
pub data Unchanged (ip : Dinode) (d : Blocks) : Result BytesRead → Type 0 where
  unchanged : {count : Option ℕ} {to : ℕ → ℕ} → Unchanged ip d (ok (count, ip, d, to))

module _ (sb : Superblock) where
  bmap_addr_there :
      (i : ℕ) (ip : Dinode) (d : Blocks)
      → (ip.addrs i == 0) ≡ false
      → bmap_addr sb i ip d ≡ (ip.addrs i, ip, d)
  unfolding bmap_addr
  bmap_addr_there i ip d there = rw there refl

  bmap_word_there :
      (table bn : ℕ) (d : Blocks)
      → (word (d table) bn == 0) ≡ false
      → bmap_word sb table bn d ≡ (word (d table) bn, d)
  unfolding bmap_word
  bmap_word_there table bn d there = rw there refl

  indirect_there :
      (bn : ℕ) (ip : Dinode) (d : Blocks)
      → (ip.addrs 12 == 0) ≡ false
      → (word (d (ip.addrs 12)) bn == 0) ≡ false
      → bmap_indirect sb bn (bmap_addr sb 12 ip d) ≡ (word (d (ip.addrs 12)) bn, ip, d)
  indirect_there bn ip d table there =
      ap (bmap_indirect sb bn) (bmap_addr_there 12 ip d table)
      ∙ rw (table, bmap_word_there (ip.addrs 12) bn d there) refl

  bmap_there :
      (bn : ℕ) (ip : Dinode) (d : Blocks)
      → bn < 268
      → slot ip.addrs d (place_of bn) ≢ 0
      → bmap sb bn ip d ≡ ok (slot ip.addrs d (place_of bn), ip, d)
  unfolding bmap
  bmap_there bn ip d lt ne = elim (Bool-cases (ltb bn 12)) [
    | inl low ↦
        let early : ltb bn 13 ≡ true = ground (arith, low) in
        let there : (ip.addrs bn == 0) ≡ false = ground (arith, ne, low) in
        rw (low, early) (ap ok (bmap_addr_there bn ip d there))
    | inr high ↦
        let within : ltb (bn - 12) 256 ≡ true = ground (arith, lt) in
        let late : ltb (bn + 1) 13 ≡ false = ground (arith, high) in
        let table : (ip.addrs 12 == 0) ≡ false = ground (arith, ne, high) in
        let place : bn + 1 - 13 ≡ bn - 12 = omega arith in
        let there : (word (d (ip.addrs 12)) (bn - 12) == 0) ≡ false =
          ground (arith, ne, high, late, table, place) in
        rw (high, within, late, table, place) (ap ok (indirect_there (bn - 12) ip d table there))
  ]

  -- A round whose block is there, when the rounds after it change nothing.
  block-Unchanged :
      (mem : Memory) (more : ℕ → Dinode → Blocks → (ℕ → ℕ) → Result BytesRead) (tot off dst n b : ℕ)
      (ip : Dinode) (d : Blocks) (to : ℕ → ℕ)
      → (b == 0) ≡ false
      → tot < n
      → ((m : ℕ) (to1 : ℕ → ℕ) → 0 < m → tot + m ≤ n → Unchanged ip d (more m ip d to1))
      → Unchanged ip d (read_block sb mem more tot off dst n to (b, ip, d))
  block-Unchanged mem more tot off dst n b ip d to there lt next =
      elim (Bool-cases (mem.copied dst m == m)) [
        | inl whole ↦ rw (there, whole) (next m _ (ground (arith, lt)) (ground (arith, lt)))
        | inr short ↦ rw (there, short) unchanged
      ]
    where
      m : ℕ
      m = min (n - tot) (1024 - off % 1024)

  read_loop-Unchanged :
      (mem : Memory) (rounds tot off dst n : ℕ) (ip : Dinode) (d : Blocks) (to : ℕ → ℕ)
      → off + n ≤ 274432 + tot
      → ((o : ℕ) → off ≤ o → o + tot < off + n → Has ip.addrs d o)
      → Unchanged ip d (read_loop sb mem rounds tot off dst n ip d to)
  unfolding read_loop
  read_loop-Unchanged mem zero tot off dst n ip d to fits has = unchanged
  read_loop-Unchanged mem (suc rounds) tot off dst n ip d to fits has =
      elim (Bool-cases (ltb tot n)) [
        | inr over ↦ rw over unchanged
        | inl more ↦
            let lt : tot < n = ground (arith, more) in
            let ne = has off (omega arith) (omega (arith, lt)) in
            let there : (slot ip.addrs d (place_of (off / 1024)) == 0) ≡ false =
              ground (arith, ne) in
            rw (more, bmap_there (off / 1024) ip d (omega (arith, lt, fits)) ne)
              (block-Unchanged mem (λ m. read_loop sb mem rounds (tot + m) (off + m) (dst + m) n)
                tot off dst n _ ip d to there lt
                (λ m to1 pos le.
                  read_loop-Unchanged mem rounds (tot + m) (off + m) (dst + m) n ip d to1
                    (omega (arith, fits))
                    (λ o lo hi. has o (omega (arith, lo)) (omega (arith, hi)))))
      ]

  -- Of a file that has a block for each of its bytes, `readi` changes neither the inode nor the disk: it
  -- adds no block.
  pub readi-Unchanged :
      (mem : Memory) (dst off n : ℕ) (ip : Dinode) (d : Blocks)
      → ip.size ≤ 274432
      → ((o : ℕ) → o < ip.size → Has ip.addrs d o)
      → Unchanged ip d (readi sb mem dst off n ip d)
  unfolding readi
  readi-Unchanged mem dst off n ip d size has = elim (Bool-cases (is_outside off n ip)) [
    | inl outside ↦ rw outside unchanged
    | inr inside ↦
        let all = if ltb ip.size (off + n) then ip.size - off else n in
        rw inside (
          read_loop-Unchanged mem all 0 off dst all ip d mem.byte (ground (arith, inside, size))
            (λ o lo hi. has o (ground (arith, inside, hi))))
  ]
