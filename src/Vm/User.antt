-- ===== src/Vm/User.antt =====
-- kernel/vm.c: `copyin`, `copyinstr` and `copyout`. `bytes` is the physical memory outside the page
-- tables. A kernel buffer is the list of bytes that is written to it, or read from it.
use os_prioritypipes.Prelude.{
  ℕ, zero, suc, ◌+◌, ◌-◌, Bool, true, false, ◌&&◌, Option, none, some, List, [], ◌∷◌, ◌++◌, length,
  take, drop, leb, ◌==◌, if◌then◌else◌, min,
}
use os_prioritypipes.Prelude.Maps.{update}
use os_prioritypipes.Prelude.Results.{Result, ok, panic, ◌>>=◌}
use os_prioritypipes.Kalloc.Interface.{Allocator}
use os_prioritypipes.Vm.{Vm, walk, walkaddr}
use os_prioritypipes.Vm.Pte.{pgsize, maxva, pg_round_down, pte_v, pte_u, pte_w, pte2pa}

-- `memmove` of `n` bytes from `p`, and to `p`
abbrev pub read : (ℕ → ℕ) → ℕ → ℕ → List ℕ
read bytes p zero = []
read bytes p (suc n) = bytes p ∷ read bytes (p + 1) n

abbrev pub write : List ℕ → ℕ → (ℕ → ℕ) → ℕ → ℕ
write [] p bytes = bytes
write (b ∷ bs) p bytes = write bs (p + 1) (update bytes p b)

-- The inner loop of `copyinstr`: whether it met the null byte, and what it copied.
abbrev pub read_string : (ℕ → ℕ) → ℕ → ℕ → Bool × List ℕ
read_string bytes p zero = (false, [])
read_string bytes p (suc n) =
    let (ended, rest) = read_string bytes (p + 1) n in
    if bytes p == 0 then (true, 0 ∷ []) else (ended, bytes p ∷ rest)

module _ (pages : Allocator) where
  -- the loop of `copyin`, at most so many rounds, and `copyin`, with whether it returns 0
  unfoldable pub copyin_from : ℕ → ℕ → ℕ → ℕ → (ℕ → ℕ) → Vm pages → Result (Bool × List ℕ)
  copyin_from zero pagetable srcva len bytes s = panic
  copyin_from (suc rounds) pagetable srcva len bytes s =
      let va0 = pg_round_down srcva in
      let n = min (pgsize - (srcva - va0)) len in
      let rest = copyin_from rounds pagetable (va0 + pgsize) (len - n) bytes s in
      let round =
        (walkaddr pages pagetable va0 s >>= λ pa0.
        if pa0 == 0
        then ok (false, [])
        else (rest >>= λ r. ok (r.0, read bytes (pa0 + (srcva - va0)) n ++ r.1))) in
      if len == 0 then ok (true, []) else round

  unfoldable pub copyin : ℕ → ℕ → ℕ → (ℕ → ℕ) → Vm pages → Result (Bool × List ℕ)
  copyin pagetable srcva len bytes s = copyin_from (len + 1) pagetable srcva len bytes s

  -- the loop of `copyinstr`, at most so many rounds, and `copyinstr`
  unfoldable pub copyinstr_from : ℕ → ℕ → ℕ → ℕ → (ℕ → ℕ) → Vm pages → Result (Bool × List ℕ)
  copyinstr_from zero pagetable srcva max bytes s = panic
  copyinstr_from (suc rounds) pagetable srcva max bytes s =
      let va0 = pg_round_down srcva in
      let n = min (pgsize - (srcva - va0)) max in
      let rest = copyinstr_from rounds pagetable (va0 + pgsize) (max - n) bytes s in
      let round =
        (walkaddr pages pagetable va0 s >>= λ pa0.
        let (got_null, copied) = read_string bytes (pa0 + (srcva - va0)) n in
        if pa0 == 0
        then ok (false, [])
        else if got_null
        then ok (true, copied)
        else (rest >>= λ r. ok (r.0, copied ++ r.1))) in
      if max == 0 then ok (false, []) else round

  unfoldable pub copyinstr : ℕ → ℕ → ℕ → (ℕ → ℕ) → Vm pages → Result (Bool × List ℕ)
  copyinstr pagetable srcva max bytes s = copyinstr_from (max + 1) pagetable srcva max bytes s

  -- The physical page that `copyout` may write to at a page address, or none.
  abbrev pub writable_page : Vm pages → Option (ℕ × ℕ) → Option ℕ
  writable_page s none = none
  writable_page s (some (page, i)) =
      let pte = s.entries page i in
      if pte_v pte && pte_u pte && pte_w pte then some (pte2pa pte) else none

  -- the rest of a round of `copyout`: the bytes for the page, and the rounds after it
  abbrev pub write_page :
      ℕ
      → List ℕ
      → ((ℕ → ℕ) → Result (Bool × (ℕ → ℕ)))
      → (ℕ → ℕ)
      → Option ℕ
      → Result (Bool × (ℕ → ℕ))
  write_page offset src rest bytes none = ok (false, bytes)
  write_page offset src rest bytes (some pa0) = rest (write src (pa0 + offset) bytes)

  -- the loop of `copyout`, at most so many rounds, and `copyout`, with the physical memory
  unfoldable pub copyout_from : ℕ → ℕ → ℕ → List ℕ → (ℕ → ℕ) → Vm pages → Result (Bool × (ℕ → ℕ))
  copyout_from zero pagetable dstva src bytes s = panic
  copyout_from (suc rounds) pagetable dstva src bytes s =
      let va0 = pg_round_down dstva in
      let n = min (pgsize - (dstva - va0)) (length src) in
      let rest = λ (m : ℕ → ℕ). copyout_from rounds pagetable (va0 + pgsize) (drop n src) m s in
      let round =
        (walk pages pagetable va0 false s >>= λ r.
        write_page (dstva - va0) (take n src) rest bytes (writable_page s r.0)) in
      if length src == 0
      then ok (true, bytes)
      else if leb maxva va0
      then ok (false, bytes)
      else round

  unfoldable pub copyout : ℕ → ℕ → List ℕ → (ℕ → ℕ) → Vm pages → Result (Bool × (ℕ → ℕ))
  copyout pagetable dstva src bytes s = copyout_from (length src + 1) pagetable dstva src bytes s
