-- ===== src/Shm.antt =====
-- proj4/kernel/shm.c: the one page of memory that processes can share. `mapped` lists the processes
-- whose page table has SHM_VA mapped. `room` says whether `mappages` of kernel/vm.c gets the memory
-- for its tables; on an address that is mapped already, `mappages` panics.
use os_prioritypipes.Prelude.{
  ℕ, ◌+◌, ◌-◌, Bool, true, false, ◌&&◌, ◌||◌, not, List, [], ◌∷◌, ◌==◌, if◌then◌else◌,
}
use os_prioritypipes.Prelude.Int.{ℤ, pos, ◌+ℤ◌, ◌-ℤ◌}
use os_prioritypipes.Prelude.Sets.{has, remove}
use os_prioritypipes.Prelude.Results.{Result, ok, panic, ◌>>=◌}
use os_prioritypipes.Kalloc.Interface.{Allocator}
use os_prioritypipes.PipeRt.{is_zero}
pub mod Refs
mod Tests

module _ (pages : Allocator) where
  pub record Shm : Type 0 where
    pub shm_memory : ℕ
    pub shm_refs : ℤ
    pub mapped : List ℕ
    pub memory : pages.State

  -- `mappages` at SHM_VA for the process `p`: whether it returns 0, and the mappings.
  abbrev pub map_shm : Bool → ℕ → List ℕ → Result (Bool × List ℕ)
  map_shm room p mapped =
      if has p mapped then panic else if room then ok (true, p ∷ mapped) else ok (false, mapped)

  -- `sys_shmget` of the process `p`, with whether it returns SHM_VA, and not -1
  unfoldable pub sys_shmget : Bool → ℕ → ℕ → ℕ → Shm → Result (Bool × Shm)
  sys_shmget room key size p s =
      let (new, memory1) = pages.alloc s.memory in
      let s1 : Shm =
        if s.shm_memory == 0 then record s { shm_memory = new; memory = memory1 } else s in
      let mapping = (map_shm room p s1.mapped >>= λ r. ok (r.0, record s1 { mapped = r.1 })) in
      if not (key == 0) || not (size == 4096)
      then ok (false, s)
      else if s1.shm_memory == 0
      then ok (false, s1)
      else mapping

  -- `shmem_fork` from the process `p` to its child `c`, with whether it returns 0
  unfoldable pub shmem_fork : Bool → ℕ → ℕ → Shm → Result (Bool × Shm)
  shmem_fork room p c s =
      let mapping =
        (map_shm room c s.mapped >>= λ r.
        ok (r.0, if r.0 then record s { mapped = r.1; shm_refs = s.shm_refs +ℤ pos 1 } else s)) in
      if has p s.mapped then mapping else ok (true, s)

  unfoldable pub shmem_exit : ℕ → Shm → Result Shm
  shmem_exit p s =
      let s1 : Shm = record s { mapped = remove p s.mapped; shm_refs = s.shm_refs -ℤ pos 1 } in
      let freed =
        (pages.release s1.shm_memory s1.memory >>= λ memory1.
        ok (record s1 { shm_memory = 0; memory = memory1 })) in
      if has p s.mapped
      then (if is_zero s1.shm_refs && not (s1.shm_memory == 0) then freed else ok s1)
      else ok s
