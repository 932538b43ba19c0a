-- ===== src/Files/Data/Chunks.antt =====
-- kernel/file.c: what the chunks of `filewrite` come to.
use os_prioritypipes.Prelude.{
  ℕ, zero, suc, ◌+◌, ◌-◌, ◌≤◌, ◌<◌, ◌≡◌, refl, sym, ap, subst, ◌∙◌, ◌⊎◌, inl, inr, true, false,
  Option, none, some, ltb, ◌==◌, Bool-cases, arith,
}
use os_prioritypipes.Prelude.Results.{Result, ok, Returns, returns, bind, mono, Returns-ok}
use os_prioritypipes.Fs.{Superblock}
use os_prioritypipes.Fs.Bitmap.{Sound}
use os_prioritypipes.Fs.Inodes.{Dinode}
use os_prioritypipes.Fs.Inodes.Slots.{Owns}
use os_prioritypipes.Fs.Inodes.Adding.{IsSmall}
use os_prioritypipes.Fs.Contents.{Memory, Disk, min, writei}
use os_prioritypipes.Fs.Contents.Bytes.{file_byte}
use os_prioritypipes.Fs.Contents.Copying.{IsMemory}
use os_prioritypipes.Fs.Contents.WriteRounds.{Stop, Stop-at}
use os_prioritypipes.Fs.Contents.Writing.{WriteResult, refused, wrote, writei-WriteResult}
use os_prioritypipes.Files.Data.{
  max_chunk, Place, next_chunk, write_chunks, chunks_result, appends, write_inode,
}

module _ (sb : Superblock) (mem : Memory) (inum addr n : ℕ) where
  -- `i` bytes have been written from the first offset on, and those before and behind the write stay.
  pub record Grown (p0 : Place) (i : ℕ) (p : Place) : Type 0 where
    pub most : i ≤ n
    pub off : p.off ≡ p0.off + i
    pub size : p.ip.size ≤ 274432
    pub sound : Sound sb p.disk.blocks
    pub owns : Owns sb p.ip.addrs p.disk.blocks
    pub new :
        (o : ℕ)
        → p0.off ≤ o
        → o < p0.off + i
        → file_byte p.ip.addrs p.disk.blocks o ≡ mem.byte (addr + (o - p0.off))
    pub old :
        (o : ℕ)
        → o < 274432
        → (o < p0.off) ⊎ (p0.off + n ≤ o)
        → file_byte p.ip.addrs p.disk.blocks o ≡ file_byte p0.ip.addrs p0.disk.blocks o

  -- The places, with the bytes written, that the rounds of the loop come to from `p0` on: each is where a
  -- call of `writei` has left the one before.
  pub data Reached (p0 : Place) : ℕ → Place → Type 0 where
    begins : Reached p0 0 p0
    goes_on :
        (i k : ℕ) (p : Place) (ip : Dinode) (disk : Disk)
        → Reached p0 i p
        → i < n
        → writei sb mem inum (addr + i) p.off (min (n - i) max_chunk) p.ip p.disk
          ≡ ok (some k, ip, disk)
        → Reached p0 (i + k) record { off = p.off + k; ip = ip; disk = disk }

  -- The loop comes to a place where `writei`, with bytes left to write, returns 0, as the file has no block for
  -- the next byte and none is free, or as what is to go into its block cannot all be copied from memory.
  pub data Stall (p0 : Place) : Type 0 where
    stall :
        (p : Place) (i : ℕ) (ip : Dinode) (disk : Disk)
        → Reached p0 i p
        → i < n
        → writei sb mem inum (addr + i) p.off (min (n - i) max_chunk) p.ip p.disk
          ≡ ok (some 0, ip, disk)
        → Stop sb mem (addr + i) p.off 0 (min (n - i) max_chunk) ip.addrs disk.blocks
        → Stall p0

  -- All is written, or `writei` refuses the rest; or the rounds are used up.
  pub data Chunked (p0 : Place) (rounds from : ℕ) : Option (ℕ × Place) → Type 0 where
    whole : (p : Place) → Reached p0 n p → Grown p0 n p → Chunked p0 rounds from (some (n, p))
    breaks :
        (i : ℕ) (p : Place)
        → Reached p0 i p
        → Grown p0 i p
        → i < n
        → (p.ip.size < p.off) ⊎ (274432 < p.off + min (n - i) max_chunk)
        → Chunked p0 rounds from (some (i, p))
    unfinished : rounds + from ≤ n ⊎ Stall p0 → Chunked p0 rounds from none

  -- What the inode case of `filewrite` comes to, from its first offset on.
  pub data Outcome (writable : ℕ) (p0 : Place) : Option (Option ℕ × Place) → Type 0 where
    read_only : writable ≡ 0 → Outcome writable p0 (some (none, p0))
    all_written :
        (p : Place) → Reached p0 n p → Grown p0 n p → Outcome writable p0 (some (some n, p))
    refuses :
        (i : ℕ) (p : Place)
        → Reached p0 i p
        → Grown p0 i p
        → i < n
        → (p.ip.size < p.off) ⊎ (274432 < p.off + min (n - i) max_chunk)
        → Outcome writable p0 (some (none, p))
    never_ends : Stall p0 → Outcome writable p0 none

  start-Grown :
      (p : Place)
      → p.ip.size ≤ 274432
      → Sound sb p.disk.blocks
      → Owns sb p.ip.addrs p.disk.blocks
      → Grown p 0 p
  start-Grown p size sound owns = record {
    most = omega arith;
    off = omega arith;
    size = size;
    sound = sound;
    owns = owns;
    new = λ o lo hi. absurd (omega (arith, lo, hi));
    old = λ o lt out. refl;
  }

  -- A chunk of which `k` bytes were written.
  wrote-Grown :
      (p0 p : Place) (i k : ℕ) (ip : Dinode) (disk : Disk)
      → i < n
      → Grown p0 i p
      → WriteResult sb mem inum
          (addr + i)
          p.off
          (min (n - i) max_chunk)
          p.ip
          p.disk
          (some k, ip, disk)
      → Grown p0 (i + k) record { off = p.off + k; ip = ip; disk = disk }
  wrote-Grown p0 p i k ip disk lt g (wrote _ le fits sound owns rest inodes has new old stop) =
      record {
        most = ground (arith, le, lt);
        off = omega (arith, g.off);
        size = let e = ap (λ (x : Dinode). x.size) rest in ground (arith, e, le, fits, g.size);
        sound = sound;
        owns = owns;
        new = λ o lo hi. elim (Bool-cases (ltb o (p0.off + i))) [
          | inl before ↦
              old o (ground (arith, before, g.off, fits, le, hi))
                (inl (ground (arith, before, g.off)))
              ∙ g.new o lo (ground (arith, before))
          | inr here ↦
              let place : addr + i + (o - p.off) ≡ addr + (o - p0.off) =
                ground (arith, here, g.off) in
              new o (ground (arith, here, g.off)) (omega (arith, hi, g.off)) ∙ ap mem.byte place
        ];
        old = λ o lo out. old o lo (outside o out) ∙ g.old o lo out;
      }
    where
      outside :
          (o : ℕ)
          → (o < p0.off) ⊎ (p0.off + n ≤ o)
          → (o < p.off) ⊎ (p.off + min (n - i) max_chunk ≤ o)
      outside o (inl low) = inl (omega (arith, low, g.off))
      outside o (inr high) = inr (ground (arith, high, g.off, lt))

  module _ (small : IsSmall sb) (memory : IsMemory mem) (count : n < 4294967296) (p0 : Place) where
    next-Chunked :
        (rounds i : ℕ) (p : Place) (more : ℕ → Place → Result (Option (ℕ × Place)))
        → i < n
        → Reached p0 i p
        → Grown p0 i p
        → ((k : ℕ) (q : Place)
            → Reached p0 (i + k) q
            → Grown p0 (i + k) q
            → Returns (Chunked p0 rounds (i + k)) (more (i + k) q))
        → (r : Option ℕ × Dinode × Disk)
        → writei sb mem inum (addr + i) p.off (min (n - i) max_chunk) p.ip p.disk ≡ ok r
        → WriteResult sb mem inum (addr + i) p.off (min (n - i) max_chunk) p.ip p.disk r
        → Returns (Chunked p0 (suc rounds) i) (next_chunk more i p r)
    next-Chunked rounds i p more lt to_p g later _ e (refused why) =
        returns (breaks i p to_p g lt why)
    next-Chunked rounds i p more lt to_p g later _ e
          (wrote {ip'} {disk'} k le fits sound owns rest inodes has new old stop) =
        mono
          (later k record { off = p.off + k; ip = ip'; disk = disk' }
            (goes_on i k p ip' disk' to_p lt e)
            (wrote-Grown p0 p i k ip' disk' lt g
              (wrote k le fits sound owns rest inodes has new old stop)))
          (again k e stop)
      where
        again :
            (k : ℕ)
            → writei sb mem inum (addr + i) p.off (min (n - i) max_chunk) p.ip p.disk
              ≡ ok (some k, ip', disk')
            → Stop sb mem
                (addr + i + k)
                (p.off + k)
                k
                (min (n - i) max_chunk)
                ip'.addrs
                disk'.blocks
            → (a : Option (ℕ × Place)) → Chunked p0 rounds (i + k) a
            → Chunked p0 (suc rounds) i a
        again k e s _ (whole q to_q h) = whole q to_q h
        again k e s _ (breaks j q to_q h less why) = breaks j q to_q h less why
        again zero e s _ (unfinished why) = unfinished (
            inr (
              stall p i ip' disk' to_p lt e (
                Stop-at sb mem _ _ _ _ 0 (min (n - i) max_chunk) ip'.addrs disk'.blocks
                  (omega arith) (omega arith) s)))
        again (suc k) e s _ (unfinished (inl le)) = unfinished (inl (omega (arith, le)))
        again (suc k) e s _ (unfinished (inr stalls)) = unfinished (inr stalls)

    write_chunks-Chunked :
        (rounds i : ℕ) (p : Place)
        → Reached p0 i p
        → Grown p0 i p
        → Returns (Chunked p0 rounds i) (write_chunks sb mem inum addr n rounds i p)
    unfolding write_chunks
    write_chunks-Chunked zero i p to_p g = returns (unfinished (inl (omega (arith, g.most))))
    write_chunks-Chunked (suc rounds) i p to_p g = elim (Bool-cases (ltb i n)) [
      | inr over ↦
          let all : i ≡ n = ground (arith, over, g.most) in
          rw over (
            returns (
              subst (λ x. Chunked p0 (suc rounds) i (some (x, p))) (sym all)
                (whole p (subst (λ x. Reached p0 x p) all to_p) (subst (λ x. Grown p0 x p) all g))))
      | inl more ↦
          let lt : i < n = ground (arith, more) in
          let (r, e, w) = Returns-ok (
            writei-WriteResult sb mem inum (addr + i) p.off (min (n - i) max_chunk) p.ip p.disk
              small memory g.size (ground (arith, count)) g.sound g.owns) in
          rw (more, e)
            (next-Chunked rounds i p (write_chunks sb mem inum addr n rounds) lt to_p g
              (λ k q to_q h. write_chunks-Chunked rounds (i + k) q to_q h) r e w)
    ]

  chunks-Outcome :
      (writable : ℕ) (p0 : Place) (a : Option (ℕ × Place))
      → Chunked p0 (suc n) 0 a
      → Outcome writable p0 (chunks_result n a)
  chunks-Outcome writable p0 _ (whole p to_p g) =
      let same : (n == n) ≡ true = ground arith in rw same (all_written p to_p g)
  chunks-Outcome writable p0 _ (breaks i p to_p g lt why) =
      let other : (i == n) ≡ false = ground (arith, lt) in rw other (refuses i p to_p g lt why)
  chunks-Outcome writable p0 _ (unfinished (inl le)) = absurd (omega (arith, le))
  chunks-Outcome writable p0 _ (unfinished (inr s)) = never_ends s

-- A `char` never has the bit O_APPEND.
appends_never : (writable : ℕ) → writable < 256 → appends writable ≡ false
appends_never writable lt = ground (arith, lt)

-- On a sound disk, with a file whose blocks are its own, and as `f->writable` is one byte, `filewrite` of `n`
-- bytes to an inode begins at the offset, and never panics; with a round for each byte and one more it comes to
-- one of four ends. It returns -1 with no change, as the file is not open for writing. It returns `n`, and the
-- bytes of memory are those of the file from the offset on; or it returns -1, as `writei` refuses the rest; the
-- bytes before and behind the write stay in both. Or its loop has not ended, and then it has come, by its own
-- calls of `writei`, to one that returns 0 with bytes left to write, as the file has no block for the next byte
-- and none is free, or as what is to go into the block of the next byte cannot all be copied from its place in
-- memory.
pub write_inode-Outcome :
    (sb : Superblock) (mem : Memory) (writable inum addr n : ℕ) (p : Place)
    → IsSmall sb
    → IsMemory mem
    → writable < 256
    → n < 4294967296
    → p.ip.size ≤ 274432
    → Sound sb p.disk.blocks
    → Owns sb p.ip.addrs p.disk.blocks
    → Returns
        (Outcome sb mem inum addr n writable p)
        (write_inode sb mem writable inum addr n (suc n) p)
write_inode-Outcome sb mem writable inum addr n p small memory char count size sound owns =
    elim (Bool-cases (writable == 0)) [
      | inl no_write ↦ rw no_write (returns (read_only (ground (arith, no_write))))
      | inr write ↦
          rw (write, appends_never writable char)
            (bind
              (write_chunks-Chunked sb mem inum addr n small memory count p (suc n) 0 p begins
                (start-Grown sb mem inum addr n p size sound owns))
              (λ a h. returns (chunks-Outcome sb mem inum addr n writable p a h)))
    ]
