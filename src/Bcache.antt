-- ===== src/Bcache.antt =====
-- kernel/bio.c: the buffer cache. A buffer is a number from 1 to NBUF, and 0 is the list's head;
-- `next` and `prev` link the buffers from the most to the least recently used. `bcache.lock` makes
-- each function one step, but for `bread`, which may sleep until the buffer is unlocked. `A` is the
-- type of the contents of a block, and `disk dev blockno` is what `virtio_disk_rw` transfers.
use os_prioritypipes.Prelude.{
  ℕ, zero, suc, ◌+◌, ◌-◌, ◌*◌, Bool, true, false, ◌&&◌, not, Option, none, some, ◌==◌,
  if◌then◌else◌,
}
use os_prioritypipes.Prelude.Loops.{rounds}
use os_prioritypipes.Prelude.Maps.{update}
use os_prioritypipes.Prelude.Results.{Result, ok, panic, ◌>>=◌, ◌>>◌, panic_if}
use os_prioritypipes.Sleeplock.{Sleeplock, unlocked, acquiresleep, releasesleep, holdingsleep}
use os_prioritypipes.Log.{max_op_blocks}
pub mod Ring
pub mod Scan
pub mod Lookup
pub mod Contents
mod Tests

-- NBUF
abbrev pub nbuf : ℕ
nbuf = max_op_blocks * 3

-- The links of `struct buf`, for every buffer and the head.
pub record Links : Type 0 where
  pub next : ℕ → ℕ
  pub prev : ℕ → ℕ

-- `b->next = bcache.head.next; b->prev = &bcache.head;` and the links back to `b`
unfoldable pub link_first : ℕ → Links → Links
link_first b l =
    let l1 : Links = record { next = update l.next b (l.next 0); prev = update l.prev b 0 } in
    let l2 : Links = record { next = l1.next; prev = update l1.prev (l1.next 0) b } in
    record { next = update l2.next 0 b; prev = l2.prev }

-- `b->next->prev = b->prev; b->prev->next = b->next;`
unfoldable pub unlink : ℕ → Links → Links
unlink b l =
    let l1 : Links = record { next = l.next; prev = update l.prev (l.next b) (l.prev b) } in
    record { next = update l1.next (l1.prev b) (l1.next b); prev = l1.prev }

-- `for(b = from; b != &bcache.head; b = step b) if(test b) return b;`, and 0 if there is none. The
-- list has NBUF buffers, and the loop runs on fuel.
unfoldable pub scan : (ℕ → ℕ) → (ℕ → Bool) → ℕ → ℕ → ℕ
scan step test zero b = 0
scan step test (suc k) b =
    let later = scan step test k (step b) in if b == 0 then 0 else if test b then b else later

module _ {ℓ} (A : Type ℓ) where
  -- `bcache`, with the fields of the buffers, and the disk.
  pub record Bcache : Type ℓ where
    pub links : Links
    pub valid : ℕ → Bool
    pub dev : ℕ → ℕ
    pub blockno : ℕ → ℕ
    pub lock : ℕ → Sleeplock
    pub refcnt : ℕ → ℕ
    pub contents : ℕ → A
    pub disk : ℕ → ℕ → A

  -- `bcache` is a zeroed static variable.
  unfoldable pub binit : Bcache → Bcache
  binit c = record c {
    links =
        rounds (λ b l. link_first b l) nbuf 1
          (record { next = update c.links.next 0 0; prev = update c.links.prev 0 0 });
    lock = λ b. unlocked;
  }

  -- `bget` up to its `acquiresleep`
  unfoldable pub bget : ℕ → ℕ → Bcache → Result (ℕ × Bcache)
  bget dev blockno c =
      let cached =
        scan c.links.next (λ b. (c.dev b == dev) && (c.blockno b == blockno)) (nbuf + 1)
          (c.links.next 0) in
      let unused = scan c.links.prev (λ b. c.refcnt b == 0) (nbuf + 1) (c.links.prev 0) in
      if not (cached == 0)
      then ok (cached, record c { refcnt = update c.refcnt cached (c.refcnt cached + 1) })
      else if not (unused == 0)
      then ok (
        unused,
        record c {
          dev = update c.dev unused dev;
          blockno = update c.blockno unused blockno;
          valid = update c.valid unused false;
          refcnt = update c.refcnt unused 1;
        },
      )
      else panic

  -- `bread` from its `acquiresleep` on: none if it sleeps, to try again.
  unfoldable pub bread_locked : ℕ → ℕ → Bcache → Option Bcache
  bread_locked pid b c = elim (acquiresleep pid (c.lock b)) [
    | none ↦ none
    | some lk ↦
        let c1 : Bcache = record c { lock = update c.lock b lk } in
        some (
          if c1.valid b then c1 else record c1 {
            contents = update c1.contents b (c1.disk (c1.dev b) (c1.blockno b));
            valid = update c1.valid b true;
          })
  ]

  unfoldable pub bwrite : ℕ → ℕ → Bcache → Result Bcache
  bwrite pid b c = do
    panic_if (not (holdingsleep pid (c.lock b)))
    ok (record c {
      disk = update c.disk (c.dev b) (update (c.disk (c.dev b)) (c.blockno b) (c.contents b));
    })

  -- A `refcnt` of 0 would wrap around; no caller releases a buffer twice.
  unfoldable pub brelse : ℕ → ℕ → Bcache → Result Bcache
  brelse pid b c = do
    panic_if (not (holdingsleep pid (c.lock b)))
    let c1 : Bcache = record c {
      lock = update c.lock b (releasesleep (c.lock b));
      refcnt = update c.refcnt b (c.refcnt b - 1);
    }
    ok (if c1.refcnt b == 0 then record c1 { links = link_first b (unlink b c1.links) } else c1)

  unfoldable pub bpin : ℕ → Bcache → Bcache
  bpin b c = record c { refcnt = update c.refcnt b (c.refcnt b + 1) }

  unfoldable pub bunpin : ℕ → Bcache → Bcache
  bunpin b c = record c { refcnt = update c.refcnt b (c.refcnt b - 1) }
