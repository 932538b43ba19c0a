-- ===== src/Shm/Refs.antt =====
-- proj4/kernel/shm.c: what `shm_refs` counts.
use os_prioritypipes.Prelude.{
  ℕ, suc, ◌+◌, ◌≡◌, ◌≢◌, refl, ◌⊎◌, inl, inr, Bool, true, false, ◌&&◌, ◌||◌, not, List, [], ◌∷◌,
  length, arith, ◌==◌, if◌then◌else◌, Bool-cases,
}
use os_prioritypipes.Prelude.Int.{ℤ, pos, negsuc, pos_part, neg_part, ◌+ℤ◌, ◌-ℤ◌}
use os_prioritypipes.Prelude.Sets.{has, ◌∈◌, ◌∉◌, remove}
use os_prioritypipes.Prelude.Results.{Returns, returns, bind}
use os_prioritypipes.Kalloc.Interface.{Allocator}
use os_prioritypipes.PipeRt.{is_zero}
use os_prioritypipes.Shm.{Shm, sys_shmget, shmem_fork, shmem_exit}

pub length-remove : (p : ℕ) (xs : List ℕ) → p ∈ xs → suc (length (remove p xs)) ≡ length xs
length-remove p [] m = absurd (ground arith)
length-remove p (x ∷ xs) m = ground (arith, length-remove p xs)

-- the parts of an integer that is counted up or down
counted : (r : ℤ) → pos_part (r +ℤ pos 1) + neg_part r ≡ pos_part r + 1 + neg_part (r +ℤ pos 1)
unfolding ◌+ℤ◌
counted r = ground arith

dropped : (r : ℤ) → pos_part (r -ℤ pos 1) + 1 + neg_part r ≡ pos_part r + neg_part (r -ℤ pos 1)
unfolding ◌-ℤ◌
dropped r = ground arith

zero_refs :
    (r : ℤ) (p : ℕ) → (is_zero r && not (p == 0)) ≡ true → (pos_part r ≡ 0) × (neg_part r ≡ 0)
zero_refs (pos n) p h = ground arith
zero_refs (negsuc n) p h = ground arith

nonzero_refs : (r : ℤ) → is_zero r ≡ false → pos_part r ≢ neg_part r
nonzero_refs (pos n) h = ground (arith, h)
nonzero_refs (negsuc n) h = ground (arith, h)

module _ (pages : Allocator) where
  -- `gets` mappings were made by `sys_shmget`: the count leaves them out.
  pub record Uncounted (gets : ℕ) (s : Shm pages) : Type 0 where
    pub count : pos_part s.shm_refs + gets ≡ length s.mapped + neg_part s.shm_refs

  -- A mapping that `sys_shmget` makes is not counted.
  pub sys_shmget-Uncounted :
      (gets : ℕ) (room : Bool) (key size p : ℕ) (s : Shm pages)
      → p ∉ s.mapped
      → Uncounted gets s
      → Returns
          (λ r. Uncounted (if r.0 then suc gets else gets) r.1)
          (sys_shmget pages room key size p s)
  unfolding sys_shmget
  sys_shmget-Uncounted gets room key size p s fresh u =
      elim (Bool-cases (not (key == 0) || not (size == 4096))) [
        | inl bad ↦ rw bad (returns u)
        | inr good ↦ elim (Bool-cases (s.shm_memory == 0)) [
          | inl first ↦ elim (Bool-cases ((pages.alloc s.memory).0 == 0)) [
            | inl empty ↦ rw (good, first, empty) (returns (record { count = u.count }))
            | inr page ↦ elim (Bool-cases room) [
              | inl fits ↦
                  rw (good, first, page, fresh, fits)
                    (returns (record { count = omega (arith, u.count) }))
              | inr full ↦
                  rw (good, first, page, fresh, full) (returns (record { count = u.count }))
            ]
          ]
          | inr again ↦ elim (Bool-cases room) [
            | inl fits ↦
                rw (good, again, again, fresh, fits)
                  (returns (record { count = omega (arith, u.count) }))
            | inr full ↦ rw (good, again, again, fresh, full) (returns (record { count = u.count }))
          ]
        ]
      ]

  -- A mapping that `shmem_fork` makes is.
  pub shmem_fork-Uncounted :
      (gets : ℕ) (room : Bool) (p c : ℕ) (s : Shm pages)
      → c ∉ s.mapped
      → Uncounted gets s
      → Returns (λ r. Uncounted gets r.1) (shmem_fork pages room p c s)
  unfolding shmem_fork
  shmem_fork-Uncounted gets room p c s fresh u = elim (Bool-cases (has p s.mapped)) [
    | inl parent ↦ elim (Bool-cases room) [
      | inl fits ↦
          rw (parent, fresh, fits)
            (returns (record { count = omega (arith, u.count, counted s.shm_refs) }))
      | inr full ↦ rw (parent, fresh, full) (returns u)
    ]
    | inr none ↦ rw none (returns u)
  ]

  -- Where `shm_refs` leaves out `gets` of the mappings, `shmem_exit` of a process with the page
  -- mapped does not panic. It takes the mapping of this process away and counts it down, so that
  -- the count still leaves out `gets`. If exactly `gets` processes still have the page mapped, and
  -- there is a page, it frees the page under them and forgets it; else it frees nothing and
  -- keeps the page.
  pub shmem_exit_dangles :
      (gets p : ℕ) (s : Shm pages) (xs : List ℕ)
      → p ∈ s.mapped
      → Uncounted gets s
      → pages.Valid s.shm_memory
      → s.shm_memory ∉ xs
      → pages.Free s.memory xs
      → Returns
          (λ s'.
            (s'.mapped ≡ remove p s.mapped)
            × (s'.shm_refs ≡ s.shm_refs -ℤ pos 1)
            × Uncounted gets s'
            × (((length s'.mapped ≡ gets)
                  × (s.shm_memory ≢ 0)
                  × pages.Free s'.memory (s.shm_memory ∷ xs)
                  × (s'.shm_memory ≡ 0))
                ⊎ (((length s'.mapped ≢ gets) ⊎ (s.shm_memory ≡ 0))
                    × pages.Free s'.memory xs
                    × (s'.shm_memory ≡ s.shm_memory))))
          (shmem_exit pages p s)
  unfolding shmem_exit
  shmem_exit_dangles gets p s xs mine u valid fresh free =
      let shorter = length-remove p s.mapped mine in
      let count : pos_part (s.shm_refs -ℤ pos 1) + gets
          ≡ length (remove p s.mapped) + neg_part (s.shm_refs -ℤ pos 1) =
        omega (arith, u.count, dropped s.shm_refs, shorter) in
      elim (Bool-cases (is_zero (s.shm_refs -ℤ pos 1) && not (s.shm_memory == 0))) [
        | inl last ↦
            rw (mine, last)
              (bind (pages.release_free s.shm_memory s.memory xs valid fresh free) λ memory1 free1.
                returns (
                  refl,
                  refl,
                  record { count = count },
                  inl (
                    omega (arith, count, zero_refs (s.shm_refs -ℤ pos 1) s.shm_memory last),
                    ground (arith, last),
                    free1,
                    refl,
                  ),
                ))
        | inr more ↦
            rw (mine, more)
              (returns
                (refl, refl, record { count = count }, inr (others_left count more, free, refl)))
      ]
    where
      others_left :
          pos_part (s.shm_refs -ℤ pos 1) + gets
            ≡ length (remove p s.mapped) + neg_part (s.shm_refs -ℤ pos 1)
          → (is_zero (s.shm_refs -ℤ pos 1) && not (s.shm_memory == 0)) ≡ false
          → (length (remove p s.mapped) ≢ gets) ⊎ (s.shm_memory ≡ 0)
      others_left count more = elim (Bool-cases (s.shm_memory == 0)) [
        | inl no_page ↦ inr (ground (arith, no_page))
        | inr page ↦ inl (λ e.
            nonzero_refs (s.shm_refs -ℤ pos 1) (ground (arith, more, page))
              (omega (arith, e, count)))
      ]
