-- ===== src/Kalloc/Tests.antt =====
-- Runs of kernel/kalloc.c, and its theorems at concrete inputs.
use os_prioritypipes.Prelude.{ℕ, ◌≡◌, ◌≢◌, refl, [], ◌∷◌, arith, ◌==◌, if◌then◌else◌}
use os_prioritypipes.Prelude.Sets.{◌∉◌}
use os_prioritypipes.Prelude.Results.{Returns}
use os_prioritypipes.Kalloc.{Kmem, kfree, kalloc}
use os_prioritypipes.Kalloc.FreeList.{IsPage, FreeList, kfree-FreeList, kalloc-cons}
use os_prioritypipes.Kalloc.Owners.{Owners, takes, frees, calls, Split, calls-Split}

abbrev pub kernel_end : ℕ
kernel_end = 0x80022000

abbrev pub page_a : ℕ
page_a = 0x80022000

abbrev pub page_b : ℕ
page_b = 0x80023000

abbrev pub page_c : ℕ
page_c = 0x80024000

-- three free pages
abbrev pub three_free : Kmem
three_free = record {
  freelist = page_a;
  next = λ p. if p == page_a then page_b else if p == page_b then page_c else 0;
}

pub three_free-FreeList : FreeList kernel_end three_free (page_a ∷ page_b ∷ page_c ∷ [])
three_free-FreeList = record { chain = omega arith; pages = omega arith; distinct = ground arith }

abbrev pub none_free : Kmem
none_free = record { freelist = 0; next = λ p. 0 }

pub none_free-FreeList : FreeList kernel_end none_free []
none_free-FreeList = record { chain = refl; pages = tt; distinct = tt }

abbrev one_held : Owners
one_held = record { mem = three_free; held = 0x80030000 ∷ [] }

one_held-Split : Split kernel_end 4 one_held
one_held-Split = record {
  free = page_a ∷ page_b ∷ page_c ∷ [];
  free_list = three_free-FreeList;
  held_distinct = ground arith;
  held_pages = omega arith;
  apart = λ a i. ground arith;
  all_there = refl;
}

kalloc_runs : (kalloc three_free).0 ≡ page_a
unfolding kalloc
kalloc_runs = refl

kfree-FreeList_example :
    Returns
      (λ m. FreeList kernel_end m (0x80030000 ∷ page_a ∷ page_b ∷ page_c ∷ []))
      (kfree kernel_end 0x80030000 three_free)
kfree-FreeList_example =
    kfree-FreeList kernel_end 0x80030000 three_free (page_a ∷ page_b ∷ page_c ∷ []) (omega arith)
      (omega arith) refl three_free-FreeList

kalloc-cons_example :
    ((kalloc three_free).0 ≡ page_a)
    × (page_a ≢ 0)
    × IsPage kernel_end page_a
    × (page_a ∉ page_b ∷ page_c ∷ [])
    × FreeList kernel_end (kalloc three_free).1 (page_b ∷ page_c ∷ [])
kalloc-cons_example =
    kalloc-cons kernel_end three_free page_a (page_b ∷ page_c ∷ []) three_free-FreeList

calls-Split_example :
    Returns
      (Split kernel_end 4)
      (calls kernel_end one_held (takes ∷ frees 0x80030000 ∷ takes ∷ takes ∷ frees page_b ∷ []))
calls-Split_example =
    calls-Split kernel_end 4 (takes ∷ frees 0x80030000 ∷ takes ∷ takes ∷ frees page_b ∷ []) one_held
      (omega arith) one_held-Split
