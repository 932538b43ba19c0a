-- ===== src/Fs/Contents/Rounds.antt =====
-- kernel/fs.c: the loop of `writei`.
use os_prioritypipes.Prelude.{
  ℕ, zero, suc, ◌+◌, ◌-◌, ◌/◌, ◌%◌, ◌≤◌, ◌<◌, ◌≡◌, ◌≢◌, subst, ◌∙◌, inl, inr, ltb, ◌==◌, Bool-cases,
  arith,
}
use os_prioritypipes.Prelude.Maps.{update}
use os_prioritypipes.Prelude.Results.{Result, Returns, returns, bind, mono}
use os_prioritypipes.Fs.{Superblock, Blocks}
use os_prioritypipes.Fs.Bitmap.{Sound}
use os_prioritypipes.Fs.Inodes.{Dinode}
use os_prioritypipes.Fs.Inodes.Slots.{place_of, Owns}
use os_prioritypipes.Fs.Inodes.Adding.{IsSmall, Mapped}
use os_prioritypipes.Fs.Inodes.Mapping.{bmap-Mapped}
use os_prioritypipes.Fs.Contents.{Memory, Written, copy, min, write_block, write_loop}
use os_prioritypipes.Fs.Contents.Copying.{IsMemory, Copied, block-Copied, grown-Copied}
use os_prioritypipes.Fs.Contents.WriteRounds.{
  Wrote, round-Wrote, finished, stopped, done, no_block, no_page,
}

module _ (sb : Superblock) where
  -- A round, when the rounds after it do what they should.
  block-Wrote :
      (mem : Memory) (more : ℕ → Dinode → Blocks → Result Written) (tot off src n : ℕ) (ip : Dinode)
      (d : Blocks) (r : ℕ × Dinode × Blocks)
      → IsMemory mem
      → tot < n
      → off + n ≤ 274432 + tot
      → Owns sb ip.addrs d
      → Mapped sb (place_of (off / 1024)) ip d r
      → ((m : ℕ) (ip1 : Dinode) (d1 : Blocks)
          → 0 < m
          → tot + m ≤ n
          → Sound sb d1
          → Owns sb ip1.addrs d1
          → Returns (Wrote sb mem (tot + m) (off + m) (src + m) n ip1 d1) (more m ip1 d1))
      → Returns (Wrote sb mem tot off src n ip d) (write_block sb mem more tot off src n r)
  block-Wrote mem more tot off src n ip d (addr, ip1, d1) im lt fits w mapped next =
      elim (Bool-cases (addr == 0)) [
        | inl none_free ↦
            let z : addr ≡ 0 = ground (arith, none_free) in
            rw none_free (
              returns (
                stopped sb mem tot off src n 0 ip d ip1 d1 (omega (arith, lt)) mapped.rest
                  (grown-Copied sb mem off src ip d ip1 d1 w mapped.grows)
                  (no_block lt (mapped.here ∙ z) (mapped.out z))))
        | inr found ↦
            let ne : addr ≢ 0 = ground (arith, found) in
            let copied = λ (k : ℕ) (le : k ≤ m).
              block-Copied sb mem off k src ip d addr ip1 d1 im (omega (arith, lt, fits))
                (ground (arith, le)) ne w mapped in
            elim (Bool-cases (mem.copied src m == m)) [
              | inr short ↦
                  rw (found, short)
                    (returns (
                      stopped sb mem tot off src n (mem.copied src m) ip d ip1 _
                        (ground (arith, im.at_most src m)) mapped.rest
                        (copied (mem.copied src m) (im.at_most src m))
                        (no_page lt (ground (arith, short)))))
              | inl full ↦
                  let e : mem.copied src m ≡ m = ground (arith, full) in
                  let c = copied (mem.copied src m) (im.at_most src m) in
                  let c' =
                    subst
                      (λ k. Copied sb mem off k src ip.addrs d ip1.addrs (after (mem.copied src m)))
                      e c in
                  rw (found, full)
                    (mono
                      (next m ip1 (after (mem.copied src m)) (ground (arith, lt))
                        (ground (arith, lt)) c'.sound c'.owns)
                      (λ r.
                        round-Wrote sb mem tot off src n m ip d ip1 (after (mem.copied src m)) r
                          (ground (arith, lt)) fits mapped.rest c'))
            ]
      ]
    where
      m : ℕ
      m = min (n - tot) (1024 - off % 1024)

      after : ℕ → Blocks
      after k = update d1 addr (copy k (d1 addr) (off % 1024) src mem.byte)

  pub write_loop-Wrote :
      (mem : Memory) (rounds tot off src n : ℕ) (ip : Dinode) (d : Blocks)
      → IsSmall sb
      → IsMemory mem
      → tot ≤ n
      → n ≤ rounds + tot
      → off + n ≤ 274432 + tot
      → Sound sb d
      → Owns sb ip.addrs d
      → Returns (Wrote sb mem tot off src n ip d) (write_loop sb mem rounds tot off src n ip d)
  unfolding write_loop
  write_loop-Wrote mem zero tot off src n ip d small im le enough fits h w =
      returns (finished sb mem tot off src n ip d h w le (done (omega (arith, le, enough))))
  write_loop-Wrote mem (suc rounds) tot off src n ip d small im le enough fits h w =
      elim (Bool-cases (ltb tot n)) [
        | inr over ↦
            rw over (
              returns (finished sb mem tot off src n ip d h w le (done (ground (arith, over, le)))))
        | inl more ↦
            let lt : tot < n = ground (arith, more) in
            rw more (
              bind (bmap-Mapped sb (off / 1024) ip d (omega (arith, lt, fits)) small h w)
                (λ r mapped.
                  block-Wrote mem (λ m. write_loop sb mem rounds (tot + m) (off + m) (src + m) n)
                    tot off src n ip d r im lt fits w mapped
                    (λ m ip1 d1 pos le1 h1 w1.
                      write_loop-Wrote mem rounds (tot + m) (off + m) (src + m) n ip1 d1 small im
                        le1 (omega (arith, enough, pos)) (omega (arith, fits)) h1 w1)))
      ]
