-- ===== src/Vm/Tests.antt =====
-- kernel/vm.c: its theorems at page tables of one and of three pages.
use os_prioritypipes.Prelude.{ℕ, ◌%◌, ◌≡◌, refl, ◌&&◌, [], ◌∷◌, ◌==◌, if◌then◌else◌, arith}
use os_prioritypipes.Prelude.Results.{ok, Returns}
use os_prioritypipes.Kalloc.Tests.{page_a, page_b, page_c, three_free, three_free-FreeList}
use os_prioritypipes.Task.Samples.{pages}
use os_prioritypipes.Vm.{Vm, mappages}
use os_prioritypipes.Vm.Pte.{make_pte}
use os_prioritypipes.Vm.Walk.{Ready}
use os_prioritypipes.Vm.Mapping.{Mapped, mappages-Mapped}
use os_prioritypipes.Vm.User.{copyin, copyinstr, copyout}
use os_prioritypipes.Vm.CopyOut.{write_at, copyout-write_at}
use os_prioritypipes.Vm.Copy.{bytes_at, string_at, copyin-bytes_at, copyinstr-string_at}

aligned_pages : (p : ℕ) → pages.Valid p → p % 4096 ≡ 0
aligned_pages p v = omega (arith, v)

abbrev root : ℕ
root = 0x80040000

-- no address is mapped
abbrev empty : Vm pages
empty = record { memory = three_free; entries = λ p i. 0 }

empty-Ready : Ready pages aligned_pages root (page_a ∷ page_b ∷ page_c ∷ []) empty
empty-Ready = record {
  tree = record {
    root_used = refl;
    used1 = λ i q k. absurd (ground (arith, k));
    one1 = λ i i' q k k'. absurd (ground (arith, k));
    used0 = λ i q j r k k'. absurd (ground (arith, k));
    levels = λ i q j r i' s k k' k''. absurd (ground (arith, k));
    one0 = λ i q j r i' q' j' k l k' l'. absurd (ground (arith, k));
  };
  free = three_free-FreeList;
}

-- Two pages are mapped from the address 0x1000 on, for the user to read and write.
mappages-Mapped_example :
    Returns
      (Mapped pages aligned_pages root 0x1000 2 0x80050000 22 empty)
      (mappages pages root 0x1000 0x2000 0x80050000 22 empty)
mappages-Mapped_example =
    mappages-Mapped pages aligned_pages 1 root 0x1000 0x80050000 22 (page_a ∷ page_b ∷ page_c ∷ [])
      empty refl (omega arith) empty-Ready (λ u lt lo hi. refl)

-- The page 0 is mapped.
abbrev one_page : Vm pages
one_page = record {
  memory = three_free;
  entries = λ p i.
      if (p == root) && (i == 0)
      then make_pte 0x80041000 0
      else if (p == 0x80041000) && (i == 0)
      then make_pte 0x80042000 0
      else if (p == 0x80042000) && (i == 0)
      then make_pte 0x80050000 22
      else 0;
}

one_page-Ready : Ready pages aligned_pages root (page_a ∷ page_b ∷ page_c ∷ []) one_page
one_page-Ready = record {
  tree = record {
    root_used = refl;
    used1 = λ i q k. ground (arith, k);
    one1 = λ i i' q k k'. ground (arith, k, k');
    used0 = λ i q j r k k'. ground (arith, k, k');
    levels = λ i q j r i' s k k' k''. ground (arith, k, k', k'');
    one0 = λ i q j r i' q' j' k l k' l'. ground (arith, k, l, k', l');
  };
  free = three_free-FreeList;
}

copyin-bytes_at_example :
    copyin pages root 0xff0 32 (λ a. a) one_page
    ≡ ok (bytes_at pages aligned_pages root 0xff0 32 (λ a. a) one_page)
copyin-bytes_at_example = copyin-bytes_at pages aligned_pages root 0xff0 32 (λ a. a) one_page

copyinstr-string_at_example :
    copyinstr pages root 0xff0 32 (λ a. a % 7) one_page
    ≡ ok (string_at pages aligned_pages root 0xff0 32 (λ a. a % 7) one_page)
copyinstr-string_at_example =
    copyinstr-string_at pages aligned_pages root 0xff0 32 (λ a. a % 7) one_page

copyout-write_at_example :
    copyout pages root 0xffe (7 ∷ 8 ∷ 9 ∷ []) (λ a. 0) one_page
    ≡ ok (write_at pages aligned_pages root 0xffe (7 ∷ 8 ∷ 9 ∷ []) (λ a. 0) one_page)
copyout-write_at_example =
    copyout-write_at pages aligned_pages root 0xffe (7 ∷ 8 ∷ 9 ∷ []) (λ a. 0) one_page
