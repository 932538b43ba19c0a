-- ===== src/Vm.antt =====
-- kernel/vm.c: page tables of three levels, on the pages of an allocator. A page-table page is its
-- address; a pointer to an entry is a page and an index.
use os_prioritypipes.Prelude.{
  ℕ, zero, suc, ◌+◌, ◌-◌, ◌*◌, ◌/◌, ◌%◌, Bool, true, false, ◌&&◌, ◌||◌, not, Option, none, some,
  ltb, leb, ◌==◌, if◌then◌else◌, min,
}
use os_prioritypipes.Prelude.Maps.{update}
use os_prioritypipes.Prelude.Results.{Result, ok, panic, ◌>>=◌, ◌>>◌, panic_if}
use os_prioritypipes.Kalloc.Interface.{Allocator}
pub mod Pte
pub mod Tree
pub mod Leaf
pub mod Walk
pub mod Entry
pub mod Mapping
pub mod Lookup
pub mod User
pub mod Copy
pub mod CopyOut
mod Tests
use Pte.{
  pgsize, maxva, pg_round_up, pg_round_down, pte_v, pte_r, pte_w, pte_x, pte_u, pte2pa, pte_flags,
  make_pte, px,
}

module _ (pages : Allocator) where
  -- the allocator, and the entries of the page-table pages
  pub record Vm : Type 0 where
    pub memory : pages.State
    pub entries : ℕ → ℕ → ℕ

  abbrev pub store : ℕ → ℕ → ℕ → Vm → Vm
  store page i pte s = record s { entries = update s.entries page (update (s.entries page) i pte) }

  -- `kalloc` and `memset` of a page of entries, or 0
  abbrev pub new_page : Vm → ℕ × Vm
  new_page s =
      let (page, memory1) = pages.alloc s.memory in
      if page == 0
      then (0, record s { memory = memory1 })
      else (page, record s { memory = memory1; entries = update s.entries page (λ i. 0) })

  -- The body of the loop of `walk` at an entry: the page of the next level, if it goes on.
  unfoldable pub walk_level : Bool → ℕ → ℕ → Vm → Option ℕ × Vm
  walk_level alloc page i s =
      let pte = s.entries page i in
      let (next, s1) = new_page s in
      if pte_v pte
      then (some (pte2pa pte), s)
      else if alloc
      then (if next == 0 then (none, s1) else (some next, store page i (make_pte next 0) s1))
      else (none, s)

  -- `walk`, which returns a pointer to an entry, or null: after the loop, and after its first round
  abbrev pub walk_end : ℕ → Option ℕ × Vm → Option (ℕ × ℕ) × Vm
  walk_end va (none, s) = (none, s)
  walk_end va (some page, s) = (some (page, px 0 va), s)

  abbrev pub walk_on : ℕ → Bool → Option ℕ × Vm → Option (ℕ × ℕ) × Vm
  walk_on va alloc (none, s) = (none, s)
  walk_on va alloc (some page, s) = walk_end va (walk_level alloc page (px 1 va) s)

  unfoldable pub walk : ℕ → ℕ → Bool → Vm → Result (Option (ℕ × ℕ) × Vm)
  walk pagetable va alloc s =
      if leb maxva va then panic else ok (walk_on va alloc (walk_level alloc pagetable (px 2 va) s))

  -- `walkaddr`: the physical address, or 0
  abbrev pub user_address : Vm → Option (ℕ × ℕ) → ℕ
  user_address s none = 0
  user_address s (some (page, i)) =
      let pte = s.entries page i in
      if not (pte_v pte) then 0 else if not (pte_u pte) then 0 else pte2pa pte

  unfoldable pub walkaddr : ℕ → ℕ → Vm → Result ℕ
  walkaddr pagetable va s =
      if leb maxva va then ok 0 else (walk pagetable va false s >>= λ r. ok (user_address r.1 r.0))

  -- The body of the loop of `mappages` at the entry, with whether the loop goes on, and with `walk`.
  abbrev pub set_entry : ℕ → ℕ → Option (ℕ × ℕ) × Vm → Result (Bool × Vm)
  set_entry pa perm (none, s) = ok (false, s)
  set_entry pa perm (some (page, i), s) =
      panic_if (pte_v (s.entries page i)) >> ok (true, store page i (make_pte pa perm) s)

  unfoldable pub map_page : ℕ → ℕ → ℕ → ℕ → Vm → Result (Bool × Vm)
  map_page pagetable a pa perm s = walk pagetable a true s >>= λ r. set_entry pa perm r

  -- The loop from `a` to `last`, at most so many rounds.
  unfoldable pub map_from : ℕ → ℕ → ℕ → ℕ → ℕ → ℕ → Vm → Result (Bool × Vm)
  map_from zero pagetable a last pa perm s = panic
  map_from (suc rounds) pagetable a last pa perm s = map_page pagetable a pa perm s >>= λ r.
      let rest = map_from rounds pagetable (a + pgsize) last (pa + pgsize) perm r.1 in
      if r.0 then (if a == last then ok (true, r.1) else rest) else ok (false, r.1)

  -- `mappages`, with whether it returns 0
  unfoldable pub mappages : ℕ → ℕ → ℕ → ℕ → ℕ → Vm → Result (Bool × Vm)
  mappages pagetable va size pa perm s =
      panic_if (not (va % pgsize == 0))
      >> panic_if (not (size % pgsize == 0))
      >> panic_if (size == 0)
      >> map_from (size / pgsize) pagetable va (va + size - pgsize) pa perm s

  -- `kvmmap`
  unfoldable pub kvmmap : ℕ → ℕ → ℕ → ℕ → ℕ → Vm → Result Vm
  kvmmap kpgtbl va pa sz perm s =
      mappages kpgtbl va sz pa perm s >>= λ r. panic_if (not r.0) >> ok r.1

  -- The body of the loop of `uvmunmap` at the entry, and with `walk`.
  abbrev pub clear_entry : Bool → Option (ℕ × ℕ) × Vm → Result Vm
  clear_entry do_free (none, s) = panic
  clear_entry do_free (some (page, i), s) =
      let pte = s.entries page i in
      let freed =
        if do_free
        then (pages.release (pte2pa pte) s.memory >>= λ m. ok (record s { memory = m }))
        else ok s in
      panic_if (not (pte_v pte))
      >> panic_if (pte_flags pte == 1)
      >> (freed >>= λ s1. ok (store page i 0 s1))

  unfoldable pub unmap_page : ℕ → ℕ → Bool → Vm → Result Vm
  unmap_page pagetable a do_free s = walk pagetable a false s >>= λ r. clear_entry do_free r

  -- the loop of `uvmunmap` and `uvmunmap`
  unfoldable pub unmap_from : ℕ → ℕ → ℕ → Bool → Vm → Result Vm
  unmap_from zero pagetable a do_free s = ok s
  unmap_from (suc npages) pagetable a do_free s =
      unmap_page pagetable a do_free s >>= λ s1. unmap_from npages pagetable (a + pgsize) do_free s1

  unfoldable pub uvmunmap : ℕ → ℕ → ℕ → Bool → Vm → Result Vm
  uvmunmap pagetable va npages do_free s =
      panic_if (not (va % pgsize == 0)) >> unmap_from npages pagetable va do_free s

  -- `uvmcreate`: the page table, or 0
  abbrev pub uvmcreate : Vm → ℕ × Vm
  uvmcreate s = new_page s

  -- `uvmdealloc`, with the new size
  unfoldable pub uvmdealloc : ℕ → ℕ → ℕ → Vm → Result (ℕ × Vm)
  uvmdealloc pagetable oldsz newsz s =
      let npages = (pg_round_up oldsz - pg_round_up newsz) / pgsize in
      if leb oldsz newsz
      then ok (oldsz, s)
      else if ltb (pg_round_up newsz) (pg_round_up oldsz)
      then (uvmunmap pagetable (pg_round_up newsz) npages true s >>= λ s1. ok (newsz, s1))
      else ok (newsz, s)

  -- `uvmclear`
  abbrev pub clear_user : Option (ℕ × ℕ) × Vm → Result Vm
  clear_user (none, s) = panic
  clear_user (some (page, i), s) =
      let pte = s.entries page i in ok (store page i (if pte_u pte then pte - 16 else pte) s)

  unfoldable pub uvmclear : ℕ → ℕ → Vm → Result Vm
  uvmclear pagetable va s = walk pagetable va false s >>= λ r. clear_user r
