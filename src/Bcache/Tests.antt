-- ===== src/Bcache/Tests.antt =====
-- Runs of kernel/bio.c, and its theorems at concrete inputs.
use os_prioritypipes.Prelude.{ℕ, ◌+◌, ◌≡◌, ◌⊎◌, true, false, [], ◌∷◌, arith, ◌==◌, if◌then◌else◌}
use os_prioritypipes.Prelude.Sets.{◌∈◌}
use os_prioritypipes.Prelude.Results.{ok, panic}
use os_prioritypipes.Sleeplock.{unlocked}
use os_prioritypipes.Bcache.{Bcache, bget}
use os_prioritypipes.Bcache.Ring.{Ring}
use os_prioritypipes.Bcache.Contents.{Coherent, bget-Coherent}

-- Before `binit`, with a number for the contents of a block.
abbrev zeroed : Bcache ℕ
zeroed = record {
  links = record { next = λ b. 0; prev = λ b. 0 };
  valid = λ b. false;
  dev = λ b. 0;
  blockno = λ b. 0;
  lock = λ b. unlocked;
  refcnt = λ b. 0;
  contents = λ b. 0;
  disk = λ d n. d + n;
}

-- Two buffers of device 1: number 2 holds block 40 and is locked by process 3, number 1 is free.
abbrev two_bufs : Bcache ℕ
two_bufs = record {
  links = record {
    next = λ b. if b == 0 then 2 else if b == 2 then 1 else 0;
    prev = λ b. if b == 0 then 1 else if b == 1 then 2 else 0;
  };
  valid = λ b. b == 2;
  dev = λ b. 1;
  blockno = λ b. if b == 2 then 40 else 41;
  lock = λ b. if b == 2 then record { locked = true; pid = 3 } else unlocked;
  refcnt = λ b. if b == 2 then 1 else 0;
  contents = λ b. if b == 2 then 41 else 0;
  disk = λ d n. d + n;
}

two_bufs-Ring : Ring two_bufs.links (2 ∷ 1 ∷ [])
two_bufs-Ring = record { linked = omega arith; distinct = ground arith }

two_bufs-Coherent : Coherent ℕ 1 two_bufs (2 ∷ 1 ∷ [])
two_bufs-Coherent = record {
  one_each = λ i j mi mj ne ei ej. ground arith;
  fresh = λ i mi e v. ground arith;
}

bget-Coherent_example :
    (bget ℕ 1 50 two_bufs ≡ panic)
    ⊎ ((b : ℕ) × (c' : Bcache ℕ) × (bget ℕ 1 50 two_bufs ≡ ok (b, c'))
        × (b ∈ 2 ∷ 1 ∷ [])
        × (c'.dev b ≡ 1)
        × (c'.blockno b ≡ 50)
        × Coherent ℕ 1 c' (2 ∷ 1 ∷ []))
bget-Coherent_example =
    bget-Coherent ℕ 1 50 two_bufs (2 ∷ 1 ∷ []) two_bufs-Ring (omega arith) two_bufs-Coherent
