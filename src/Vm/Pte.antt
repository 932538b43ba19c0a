-- ===== src/Vm/Pte.antt =====
-- kernel/riscv.h: addresses and page-table entries as numbers.
use os_prioritypipes.Prelude.{ℕ, ◌+◌, ◌-◌, ◌*◌, ◌/◌, ◌%◌, ◌^◌, ◌<◌, ◌≡◌, Bool, ◌==◌, arith}

abbrev pub pgsize : ℕ
pgsize = 4096

abbrev pub maxva : ℕ
maxva = 2 ^ 38

-- `PGROUNDUP` and `PGROUNDDOWN`, below 2^64 - PGSIZE
abbrev pub pg_round_up : ℕ → ℕ
pg_round_up sz = (sz + 4095) / 4096 * 4096

abbrev pub pg_round_down : ℕ → ℕ
pg_round_down a = a / 4096 * 4096

-- the bits PTE_V, PTE_R, PTE_W, PTE_X and PTE_U
abbrev pub pte_v : ℕ → Bool
pte_v pte = pte % 2 == 1

abbrev pub pte_r : ℕ → Bool
pte_r pte = pte / 2 % 2 == 1

abbrev pub pte_w : ℕ → Bool
pte_w pte = pte / 4 % 2 == 1

abbrev pub pte_x : ℕ → Bool
pte_x pte = pte / 8 % 2 == 1

abbrev pub pte_u : ℕ → Bool
pte_u pte = pte / 16 % 2 == 1

-- `PA2PTE` without the bits that leave the 64
abbrev pub pa2pte : ℕ → ℕ
pa2pte pa = pa / 2 ^ 12 * 2 ^ 10

abbrev pub pte2pa : ℕ → ℕ
pte2pa pte = pte / 2 ^ 10 * 2 ^ 12

abbrev pub pte_flags : ℕ → ℕ
pte_flags pte = pte % 1024

-- `PA2PTE(pa) | perm | PTE_V` for flags `perm` below 1024, whose bits `PA2PTE` leaves 0
abbrev pub make_pte : ℕ → ℕ → ℕ
make_pte pa perm = pa2pte pa + (perm + (1 - perm % 2))

-- `PX(level, va)`
abbrev pub px : ℕ → ℕ → ℕ
px level va = va / 2 ^ (12 + 9 * level) % 512

-- An entry made for an aligned address gives back the address and the flags, and is valid.
pub pte2pa-make_pte :
    (pa perm : ℕ)
    → pa % 4096 ≡ 0
    → perm < 1024
    → (pte2pa (make_pte pa perm) ≡ pa)
      × (pte_flags (make_pte pa perm) ≡ perm + (1 - perm % 2))
      × (make_pte pa perm % 2 ≡ 1)
pte2pa-make_pte pa perm aligned flags =
    (omega (arith, aligned, flags), omega (arith, aligned, flags), omega (arith, aligned, flags))

-- The three indices of an address tell its page.
pub px_page : (va : ℕ) → va < maxva → va / 4096 ≡ px 2 va * 2 ^ 18 + px 1 va * 2 ^ 9 + px 0 va
px_page va lt = omega (arith, lt)
