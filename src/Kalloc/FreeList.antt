-- ===== src/Kalloc/FreeList.antt =====
-- kernel/kalloc.c: what the linked free list stands for.
use os_prioritypipes.Prelude.{
  ℕ, ◌%◌, ◌≤◌, ◌<◌, ◌≡◌, ◌≢◌, refl, subst, List, [], ◌∷◌, arith, All, ◌==◌, if◌then◌else◌,
}
use os_prioritypipes.Prelude.Sets.{◌∉◌, Distinct}
use os_prioritypipes.Prelude.Results.{ok, panic, Returns, returns}
use os_prioritypipes.Kalloc.{pgsize, phystop, Kmem, store_next, junk, kfree, kalloc}

-- an aligned page of the memory that the allocator manages
abbrev pub IsPage : ℕ → ℕ → Type 0
IsPage kend pa = (pa % pgsize ≡ 0) × (kend ≤ pa) × (pa < phystop)

-- From `p` the `next` words lead through exactly the pages `xs` to the null pointer.
abbrev pub Chain : (ℕ → ℕ) → ℕ → List ℕ → Type 0
Chain next p [] = p ≡ 0
Chain next p (x ∷ xs) = (p ≡ x) × (x ≢ 0) × Chain next (next x) xs

pub record FreeList (kend : ℕ) (m : Kmem) (xs : List ℕ) : Type 0 where
  pub chain : Chain m.next m.freelist xs
  pub pages : All (IsPage kend) xs
  pub distinct : Distinct xs

-- A write to a page that is not on the list leaves the list alone.
pub Chain-store :
    (next : ℕ → ℕ) (p q v : ℕ) (xs : List ℕ)
    → q ∉ xs
    → Chain next p xs
    → Chain (λ a. if a == q then v else next a) p xs
Chain-store next p q v [] out c = c
Chain-store next p q v (x ∷ xs) out c = ground (arith, Chain-store next (next x) q v xs)

abbrev freed : ℕ → Kmem → Kmem
freed pa m = record m {
  freelist = pa;
  next = λ q. if q == pa then m.freelist else (store_next pa (junk 1) m).next q;
}

-- what `kfree` does to a page that passes its guard
kfree-ok : (kend pa : ℕ) (m : Kmem) → IsPage kend pa → kfree kend pa m ≡ ok (freed pa m)
unfolding kfree
kfree-ok kend pa m h = ground arith

freed-FreeList :
    (kend pa : ℕ) (m : Kmem) (xs : List ℕ)
    → 0 < kend
    → IsPage kend pa
    → pa ∉ xs
    → FreeList kend m xs
    → FreeList kend (freed pa m) (pa ∷ xs)
freed-FreeList kend pa m xs pos page out f = record {
  chain = (
    refl,
    omega arith,
    subst (λ a. Chain (freed pa m).next a xs) (ground arith)
        (Chain-store (store_next pa (junk 1) m).next m.freelist pa m.freelist xs out
          (Chain-store m.next m.freelist pa (junk 1) xs out f.chain)),
  );
  pages = (page, f.pages);
  distinct = (out, f.distinct);
}

-- Freeing an aligned page of the managed range that is not free already puts it at the front of
-- the free list and keeps the rest of the list.
pub kfree-FreeList :
    (kend pa : ℕ) (m : Kmem) (xs : List ℕ)
    → 0 < kend
    → IsPage kend pa
    → pa ∉ xs
    → FreeList kend m xs
    → Returns (λ m'. FreeList kend m' (pa ∷ xs)) (kfree kend pa m)
kfree-FreeList kend pa m xs pos page out f =
    rw (kfree-ok kend pa m page) (returns (freed-FreeList kend pa m xs pos page out f))

-- A page that is not aligned or out of range stops the kernel.
pub kfree-panic : (kend pa : ℕ) (m : Kmem) → ¬ IsPage kend pa → kfree kend pa m ≡ panic
unfolding kfree
kfree-panic kend pa m h = ground (arith, h)

-- From a free list that is not empty `kalloc` returns the first page, which is a page of the
-- managed range and not the null pointer, and leaves exactly the others free.
pub kalloc-cons :
    (kend : ℕ) (m : Kmem) (x : ℕ) (xs : List ℕ)
    → FreeList kend m (x ∷ xs)
    → ((kalloc m).0 ≡ x) × (x ≢ 0) × IsPage kend x × (x ∉ xs) × FreeList kend (kalloc m).1 xs
unfolding kalloc
kalloc-cons kend m x xs f = ground (arith, Chain-store m.next (m.next x) x (junk 5) xs)

-- From an empty free list it returns the null pointer and changes nothing.
pub kalloc-nil : (kend : ℕ) (m : Kmem) → FreeList kend m [] → kalloc m ≡ (0, m)
unfolding kalloc
kalloc-nil kend m f = ground arith
