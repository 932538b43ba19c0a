-- ===== src/Shm/Tests.antt =====
-- proj4/kernel/shm.c: its theorem at a parent and a child.
use os_prioritypipes.Prelude.{ℕ, ◌≡◌, ◌≢◌, refl, ◌⊎◌, List, [], ◌∷◌, length, arith}
use os_prioritypipes.Prelude.Int.{pos, ◌-ℤ◌}
use os_prioritypipes.Prelude.Sets.{remove}
use os_prioritypipes.Prelude.Results.{Result, ok, panic, Returns}
use os_prioritypipes.Kalloc.{kfree}
use os_prioritypipes.Kalloc.Tests.{page_a, page_b, page_c, three_free, three_free-FreeList}
use os_prioritypipes.Task.Samples.{pages}
use os_prioritypipes.Shm.{Shm, shmem_exit}
use os_prioritypipes.Shm.Refs.{Uncounted, shmem_exit_dangles}

-- Process 3 called `sys_shmget` and then forked process 4.
abbrev forked : Shm pages
forked = record {
  shm_memory = 0x80030000;
  shm_refs = pos 1;
  mapped = 4 ∷ 3 ∷ [];
  memory = three_free;
}

abbrev left_mapped : Result (Shm pages) → List ℕ
left_mapped (ok s) = s.shm_memory ∷ s.mapped
left_mapped panic = []

-- The child exits: the page is given up, and the parent still has it mapped.
exit_run : left_mapped (shmem_exit pages 4 forked) ≡ 0 ∷ 3 ∷ []
unfolding shmem_exit ◌-ℤ◌ kfree
exit_run = refl

shmem_exit_dangles_example :
    Returns
      (λ s'.
        (s'.mapped ≡ remove 4 forked.mapped)
        × (s'.shm_refs ≡ forked.shm_refs -ℤ pos 1)
        × Uncounted pages 1 s'
        × (((length s'.mapped ≡ 1)
              × (forked.shm_memory ≢ 0)
              × pages.Free s'.memory (forked.shm_memory ∷ page_a ∷ page_b ∷ page_c ∷ [])
              × (s'.shm_memory ≡ 0))
            ⊎ (((length s'.mapped ≢ 1) ⊎ (forked.shm_memory ≡ 0))
                × pages.Free s'.memory (page_a ∷ page_b ∷ page_c ∷ [])
                × (s'.shm_memory ≡ forked.shm_memory))))
      (shmem_exit pages 4 forked)
shmem_exit_dangles_example =
    shmem_exit_dangles pages 1 4 forked (page_a ∷ page_b ∷ page_c ∷ []) refl
      (record { count = refl }) (omega arith) (ground arith) three_free-FreeList
