-- ===== src/Fs/Contents/Writing.antt =====
-- kernel/fs.c: what `writei` does to the bytes of a file.
use os_prioritypipes.Prelude.{
  ℕ, ◌+◌, ◌-◌, ◌≤◌, ◌<◌, ◌≡◌, refl, ap, subst, ◌⊎◌, inl, inr, true, Option, none, some, ltb,
  if◌then◌else◌, Bool-cases, arith,
}
use os_prioritypipes.Prelude.Maps.{update}
use os_prioritypipes.Prelude.Results.{Returns, returns, bind}
use os_prioritypipes.Fs.{Superblock}
use os_prioritypipes.Fs.Bitmap.{Sound}
use os_prioritypipes.Fs.Inodes.{Dinode}
use os_prioritypipes.Fs.Inodes.Slots.{Owns}
use os_prioritypipes.Fs.Inodes.Adding.{IsSmall}
use os_prioritypipes.Fs.Contents.{Memory, Disk, Written, writei, is_outside}
use os_prioritypipes.Fs.Contents.Bytes.{file_byte, Has}
use os_prioritypipes.Fs.Contents.Copying.{IsMemory}
use os_prioritypipes.Fs.Contents.WriteRounds.{Stop, Stop-at, Wrote}
use os_prioritypipes.Fs.Contents.Rounds.{write_loop-Wrote}

module _ (sb : Superblock) where
  -- What `writei` comes to: it writes nothing, or `k` bytes, which are all unless the next byte has no block
  -- and none is free, or it cannot be copied with the rest of its block; then the inode is written to the disk.
  pub data WriteResult (mem : Memory) (inum src off n : ℕ) (ip : Dinode) (disk : Disk)
      : Option ℕ × Dinode × Disk → Type 0 where
    refused :
        (ip.size < off) ⊎ (274432 < off + n)
        → WriteResult mem inum src off n ip disk (none, ip, disk)
    wrote :
        {ip' : Dinode} {disk' : Disk} (k : ℕ)
        → k ≤ n
        → off + n ≤ 274432
        → Sound sb disk'.blocks
        → Owns sb ip'.addrs disk'.blocks
        → (ip' ≡ record ip {
          size = if ltb ip.size (off + k) then off + k else ip.size;
          addrs = ip'.addrs;
        })
        → (disk'.inodes ≡ update disk.inodes inum ip')
        → ((o : ℕ)
            → o < 274432
            → Has ip.addrs disk.blocks o ⊎ ((off ≤ o) × (o < off + k))
            → Has ip'.addrs disk'.blocks o)
        → ((o : ℕ)
            → off ≤ o
            → o < off + k
            → file_byte ip'.addrs disk'.blocks o ≡ mem.byte (src + (o - off)))
        → ((o : ℕ)
            → o < 274432
            → (o < off) ⊎ (off + n ≤ o)
            → file_byte ip'.addrs disk'.blocks o ≡ file_byte ip.addrs disk.blocks o)
        → Stop sb mem (src + k) (off + k) k n ip'.addrs disk'.blocks
        → WriteResult mem inum src off n ip disk (some k, ip', disk')

  loop-WriteResult :
      (mem : Memory) (inum src off n : ℕ) (ip : Dinode) (disk : Disk) (r : Written)
      → off + n ≤ 274432
      → Wrote sb mem 0 off src n ip disk.blocks r
      → WriteResult mem inum src off n ip disk (
        some r.0,
        record r.2 { size = if ltb r.2.size r.1 then r.1 else r.2.size },
        record {
          blocks = r.3;
          inodes =
              update disk.inodes inum
                (record r.2 { size = if ltb r.2.size r.1 then r.1 else r.2.size });
        },
      )
  loop-WriteResult mem inum src off n ip disk (tot, end, ip1, d1) fits w =
      let e : end ≡ off + tot = omega (arith, w.moved) in
      let set_size : Dinode → Dinode =
        λ x. record x { size = if ltb x.size end then end else x.size } in
      let sized = ap set_size w.rest in
      wrote tot w.most fits w.sound w.owns
        (subst
          (λ x.
            set_size ip1
            ≡ record ip { size = if ltb ip.size x then x else ip.size; addrs = ip1.addrs })
          e sized)
        refl (λ o lo kept. w.has o lo (there o kept)) (λ o lo hi. w.new o lo (omega (arith, hi, e)))
        (λ o lo out. w.old o lo (beside o out))
        (Stop-at sb mem _ _ _ _ tot n ip1.addrs d1 (omega arith) (omega arith) w.why)
    where
      there :
          (o : ℕ)
          → Has ip.addrs disk.blocks o ⊎ ((off ≤ o) × (o < off + tot))
          → Has ip.addrs disk.blocks o ⊎ ((off ≤ o) × (o < end))
      there o (inl before) = inl before
      there o (inr (from, to)) = inr (from, omega (arith, to, w.moved))

      beside : (o : ℕ) → (o < off) ⊎ (off + n ≤ o) → (o < off) ⊎ (off + n ≤ o + 0)
      beside o (inl lo) = inl lo
      beside o (inr hi) = inr (omega (arith, hi))

  -- Where the bitmap is sound and the numbers in the inode are those of distinct blocks in use,
  -- the size is at most the largest, and `n` is a `uint`, `writei` does not panic. It refuses a
  -- write that starts behind the end of the file or ends behind the largest size; of any other
  -- it puts `k` bytes of memory into the file, and no byte changes but of those it was to write.
  -- `k` is `n` unless the file has no block for the byte at `off + k` and none is free, or the bytes
  -- from `src + k` on that are to go into its block cannot all be copied. The size is the end of what
  -- was written where that lies behind it, the disk has the inode, and both conditions hold
  -- again.
  pub writei-WriteResult :
      (mem : Memory) (inum src off n : ℕ) (ip : Dinode) (disk : Disk)
      → IsSmall sb
      → IsMemory mem
      → ip.size ≤ 274432
      → n < 4294967296
      → Sound sb disk.blocks
      → Owns sb ip.addrs disk.blocks
      → Returns (WriteResult mem inum src off n ip disk) (writei sb mem inum src off n ip disk)
  unfolding writei
  writei-WriteResult mem inum src off n ip disk small im size lt h w =
      elim (Bool-cases (is_outside off n ip)) [
        | inl outside ↦ rw outside (returns (refused (why_outside outside)))
        | inr inside ↦ elim (Bool-cases (ltb 274432 (off + n))) [
          | inl large ↦ rw (inside, large) (returns (refused (inr (ground (arith, large)))))
          | inr fits ↦
              rw (inside, fits)
                (bind
                  (write_loop-Wrote sb mem n 0 off src n ip disk.blocks small im (omega arith)
                    (omega arith) (ground (arith, fits)) h w)
                  (λ r done_right. returns (
                    loop-WriteResult mem inum src off n ip disk r (ground (arith, fits))
                      done_right)))
        ]
      ]
    where
      why_outside : is_outside off n ip ≡ true → (ip.size < off) ⊎ (274432 < off + n)
      why_outside e = elim (Bool-cases (ltb ip.size off)) [
        | inl behind ↦ inl (ground (arith, behind))
        | inr within ↦ inr (ground (arith, e, within, lt))
      ]
