-- ===== src/Kalloc/Init.antt =====
-- kernel/kalloc.c: `freerange` and `kinit` put every page of the range on the free list.
use os_prioritypipes.Prelude.{
  ℕ, zero, suc, ◌+◌, ◌-◌, ◌/◌, ◌%◌, ◌≤◌, ◌<◌, ◌≡◌, refl, List, [], ◌∷◌, arith, All, leb, Bool-cases,
  inl, inr, length,
}
use os_prioritypipes.Prelude.Sets.{◌∉◌}
use os_prioritypipes.Prelude.Results.{Returns, returns, bind}
use os_prioritypipes.Kalloc.{pgsize, phystop, pg_round_up, Kmem, freerange_loop, freerange, kinit}
use os_prioritypipes.Kalloc.FreeList.{FreeList, kfree-FreeList}

-- The `n` pages from `p` on, the last one first, before the pages `xs`: what freeing them in order
-- makes of a free list.
unfoldable pub pages_from : ℕ → ℕ → List ℕ → List ℕ
pages_from zero p xs = xs
pages_from (suc n) p xs = pages_from n (p + pgsize) (p ∷ xs)

-- all below the address `p`
abbrev pub Below : ℕ → List ℕ → Type 0
Below p = All (λ x. x < p)

Below-not-mem : (p : ℕ) (xs : List ℕ) → Below p xs → p ∉ xs
Below-not-mem p [] h = refl
Below-not-mem p (x ∷ xs) h = ground (arith, Below-not-mem p xs h.1)

Below-mono : (p q : ℕ) (xs : List ℕ) → p ≤ q → Below p xs → Below q xs
Below-mono p q [] le h = tt
Below-mono p q (x ∷ xs) le h = (omega arith, Below-mono p q xs le h.1)

pub length-pages_from : (n p : ℕ) (xs : List ℕ) → length (pages_from n p xs) ≡ n + length xs
unfolding pages_from
length-pages_from zero p xs = omega arith
length-pages_from (suc n) p xs = omega (arith, length-pages_from n (p + pgsize) (p ∷ xs))

module _ (kend pa_end : ℕ) (pos : 0 < kend) (top : pa_end ≤ phystop) where
  -- With a round of fuel for each page and one for the last test the loop frees exactly the pages
  -- that fit below `pa_end`.
  freerange_loop-FreeList :
      (k p : ℕ) (m : Kmem) (xs : List ℕ)
      → p % pgsize ≡ 0
      → kend ≤ p
      → Below p xs
      → (pa_end - p) / pgsize < k
      → FreeList kend m xs
      → Returns
          (λ m'. FreeList kend m' (pages_from ((pa_end - p) / pgsize) p xs))
          (freerange_loop k kend p pa_end m)
  unfolding freerange_loop pages_from
  freerange_loop-FreeList zero p m xs al lo below fuel f = absurd (omega arith)
  freerange_loop-FreeList (suc k) p m xs al lo below fuel f =
      elim (Bool-cases (leb (p + pgsize) pa_end)) [
        | inl more ↦
            let n : (pa_end - p) / pgsize ≡ suc ((pa_end - (p + pgsize)) / pgsize) = ground arith in
            rw (more, n)
              (bind
                (kfree-FreeList kend p m xs pos (al, lo, ground arith) (Below-not-mem p xs below) f)
                λ m1 f1.
                  freerange_loop-FreeList k (p + pgsize) m1 (p ∷ xs) (omega arith) (omega arith)
                    (omega arith, Below-mono p (p + pgsize) xs (omega arith) below) (omega arith)
                    f1)
        | inr done ↦ let n : (pa_end - p) / pgsize ≡ 0 = ground arith in rw (done, n) (returns f)
      ]

-- `kinit` does not panic, and leaves on the free list every page of the range from `end`, rounded
-- up to a page, to PHYSTOP, each exactly once, the highest address first.
pub kinit-FreeList :
    (kend : ℕ) (memory : ℕ → ℕ)
    → 0 < kend
    → Returns
        (λ m.
          FreeList kend m
            (pages_from ((phystop - pg_round_up kend) / pgsize) (pg_round_up kend) []))
        (kinit kend memory)
unfolding kinit freerange
kinit-FreeList kend memory pos =
    freerange_loop-FreeList kend phystop pos (omega arith) (phystop / pgsize + 1) (pg_round_up kend)
      (record { freelist = 0; next = memory }) [] (omega arith) (omega arith) tt (omega arith)
      (record { chain = refl; pages = tt; distinct = tt })
