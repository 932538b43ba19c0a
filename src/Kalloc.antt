-- ===== src/Kalloc.antt =====
-- kernel/kalloc.c: the allocator of 4096-byte physical pages. The free list is threaded through
-- the free pages themselves: `next p` is the first word of the page at `p`, the field of
-- `struct run`. `kend` is the linker's symbol `end`. The lock `kmem.lock` makes each of `kalloc`
-- and `kfree` one step.
use os_prioritypipes.Prelude.{
  ℕ, zero, suc, ◌+◌, ◌-◌, ◌*◌, ◌/◌, ◌%◌, Bool, true, false, ◌||◌, not, ltb, leb, ◌==◌,
  if◌then◌else◌,
}
use os_prioritypipes.Prelude.Results.{Result, ok, panic, ◌>>=◌, ◌>>◌, panic_if}
pub mod FreeList
pub mod Init
pub mod Owners
pub mod Interface
pub mod Tests

-- PGSIZE
abbrev pub pgsize : ℕ
pgsize = 4096

-- PHYSTOP: KERNBASE + 128 MB
abbrev pub phystop : ℕ
phystop = 0x88000000

-- PGROUNDUP
abbrev pub pg_round_up : ℕ → ℕ
pg_round_up sz = (sz + pgsize - 1) / pgsize * pgsize

-- A pointer is an address, and the null pointer is 0.
pub record Kmem : Type 0 where
  pub freelist : ℕ
  pub next : ℕ → ℕ

abbrev pub store_next : ℕ → ℕ → Kmem → Kmem
store_next p v m = record m { next = λ q. if q == p then v else m.next q }

-- The first word of a page after `memset(pa, c, PGSIZE)`.
abbrev pub junk : ℕ → ℕ
junk c = c * 0x0101010101010101

-- the guard of `kfree`
abbrev pub bad_page : ℕ → ℕ → Bool
bad_page kend pa = not (pa % pgsize == 0) || ltb pa kend || leb phystop pa

unfoldable pub kfree : ℕ → ℕ → Kmem → Result Kmem
kfree kend pa m = do
  panic_if (bad_page kend pa)
  let m1 = store_next pa (junk 1) m
  let m2 = store_next pa m1.freelist m1
  ok (record m2 { freelist = pa })

unfoldable pub kalloc : Kmem → ℕ × Kmem
kalloc m =
    if m.freelist == 0
    then (0, m)
    else (m.freelist, store_next m.freelist (junk 5) (record m { freelist = m.next m.freelist }))

-- The loop of `freerange` from the address `p` on, one unit of fuel for a round.
unfoldable pub freerange_loop : ℕ → ℕ → ℕ → ℕ → Kmem → Result Kmem
freerange_loop zero kend p pa_end m = panic
freerange_loop (suc k) kend p pa_end m =
    let rest = kfree kend p m >>= freerange_loop k kend (p + pgsize) pa_end in
    if leb (p + pgsize) pa_end then rest else ok m

unfoldable pub freerange : ℕ → ℕ → ℕ → Kmem → Result Kmem
unfolding freerange_loop
freerange kend pa_start pa_end m =
    freerange_loop (pa_end / pgsize + 1) kend (pg_round_up pa_start) pa_end m

-- `kmem` is a zeroed static variable when `kinit` runs.
unfoldable pub kinit : ℕ → (ℕ → ℕ) → Result Kmem
unfolding freerange
kinit kend memory = freerange kend kend phystop (record { freelist = 0; next = memory })
